-- ===== src/Lib.antt =====
-- Agentcask runs coding agents in pods on behalf of users: an HTTP API creates, lists, shows and
-- deletes sessions, a controller keeps a pod for each, a gateway connects a websocket to a shell in
-- the pod, and a proxy exchanges a session's token for the key of the model upstream.
--
-- The parts, and the files that model them:
-- - api/v1alpha1/types.go, the AgentSession resource: V1alpha1, theorems in V1alpha1/Validity.
-- - internal/api/memory_store.go and the interface Store: Api/Store (a record of operations on a
--   state that is passed along) and Api/Store/Memory, theorems in its Laws and Refinement.
-- - internal/api/server.go: Api/Requests (who asks, and what a body holds) and Api/Server (the
--   handlers and the routing, one function per handler, each from a store's state to a state and a
--   reply). Theorems: Api/Requests/Safety and Api/Server/Ownership, Visibility and Listing, with the
--   handlers' lemmas in Api/Server/Routes, Replies and Sorting.
-- - internal/modelproxy/token.go: ModelProxy/Token, theorems in its RoundTrip, Acceptance, Binding.
-- - internal/modelproxy/proxy.go: ModelProxy/Proxy (a request in, the response and what was sent
--   upstream out), theorems in its Authentication, Copying and Forwarding. It uses the tokens of
--   ModelProxy/Token and the sessions of V1alpha1.
-- - internal/redact/redact.go: Redact, with the two regular expressions as matchers; theorems in
--   Redact/Sentinel and, with the model of Header, in Redact/Headers. The API redacts the errors of
--   a store with it.
-- - internal/isolation/isolation.go: Isolation, with the pods that the controller builds.
-- - internal/controller/controller.go: Controller (configuration, times, finalizers, BuildPod) and
--   Controller/Reconciler (Reconcile, from what the cluster answers to the calls that change it and
--   the error returned) and Controller/Loop (Run and reconcileAll, over a cluster that changes);
--   theorems in its Times, Tokens, Placement, Release and Statuses, and in Loop/Rounds.
--   It redacts with Redact, resolves with Isolation and signs with ModelProxy/Token.
-- - internal/terminal/gateway.go: Terminal (Serve, the read loop as a list of rounds, the watch on
--   the session as a list of ticks), theorems in its Admission, Quoting, Relaying; Terminal/Relay has
--   the goroutines of an attached terminal as steps in any order, theorems in its Order, Ending and
--   Progress; Terminal/Streams has the echo stream of that file.
-- - internal/terminal/kubernetes.go: Terminal/Streams (what Start asks for, the resize queue),
--   theorems in its Resizing and, on the echo stream, Echoing; Terminal/Exec has the way of the output
--   through the goroutine of Start, theorem in its Output.
-- - internal/kube/client.go: Kube (sessions as objects of the Kubernetes API) and Kube/Client (the
--   session client, which is a Store of Api/Store), theorems in its RoundTrip, Objects, Listing;
--   Kube/Config has Config and NewForConfig.
-- - internal/cli: Cli/Config (config.go), Cli/Client (client.go), and Cli/Args and Cli/Run with its
--   Flags and Commands (run.go); theorems in their children.
--   Cli/Attach has the goroutines of Connect as steps in any order, theorems in its Reports, Copies.
-- - cmd/cask-model-proxy/main.go: ProxyProgram, which puts ModelProxy/Proxy on the session client of
--   Kube/Client; theorem in ProxyProgram/Sessions.
-- - cmd/cask-api/main.go: ApiProgram, which puts Api/Server and Terminal on one store; theorems in its
--   Terminals and, on the in-memory store from its start through any requests, History.
-- - cmd/cask-controller/main.go: ControllerProgram, which configures Controller; its Tokens is about
--   the controller program and the proxy program together. Settings is what the programs share.
-- - Http holds what net/http gives the parts: headers, requests, responses. Prelude holds texts,
--   integers, decimal numbers, maps and results.
--
-- Go names are kept in snake case: ValidateWithExpiry is validate_with_expiry, GenerateUntil is
-- generate_until, rejectForbidden is reject_forbidden, userFromRequest is user_from_request. A text is
-- the list of its code points, a time the integer of its nanoseconds since the epoch, an int64 an
-- integer whose wrap-around is written out where the code computes one. A map is an association
-- list, whose order stands for the order in which Go iterates. An error is a value of an error type
-- or its text.
--
-- Parameters: the HMAC, the upstream of the proxy, the session resolvers, the store, whether
-- url.Parse reads user information from a text, the RFC3339 format, the verb %q, what
-- the Kubernetes API answers, the package unstructured, the dynamic client, the clock and the random
-- bytes; for the command line client, the lines of its file, the environment, the exchange with the
-- server, the durations and the tables. encoding/json is taken at what it reads from a body or a
-- control message. Every recursion is structural, on a text, a list, or a count of runes still to be skipped, or, for the digits of a
-- number, on its accessibility: there is no fuel.
--
-- The goroutines of a terminal and of Connect are step relations on a record: a call that waits is a
-- step that is not there yet, and a buffered channel a list with its capacity (an argument for the
-- output of the stream behind a terminal). A read or a write of a connection may fail at any step.
--
-- Not modelled, since it is I/O of a library: the readyz of a server without a store, response
-- encoding, the length of the gateway's deadlines, the text that it sends for a failed exec, the raw
-- mode of the client's terminal, the making of the Kubernetes clients, the listening, signals and
-- shutdown of the servers, and the main program of caskctl, which passes its arguments on. Request
-- paths hold no percent escape, and header keys are in their canonical form.
pub mod Api
pub mod ApiProgram
pub mod Cli
pub mod Controller
pub mod ControllerProgram
pub mod Http
pub mod Isolation
pub mod Kube
pub mod ModelProxy
pub mod Prelude
pub mod ProxyProgram
pub mod Redact
pub mod Settings
pub mod Terminal
pub mod V1alpha1
