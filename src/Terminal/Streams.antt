-- ===== src/Terminal/Streams.antt =====
-- internal/terminal/kubernetes.go and the echo backend of internal/terminal/gateway.go: the streams
-- behind a terminal.
-- Parameters: what the SPDY executor answers when it is made, and what a pipe's writer does.
pub mod Resizing
pub mod Tests
pub mod Echoing
use agentsty.Prelude.{
  refl, arith, ℕ, ◌+◌, ◌≡◌, ◌<◌, Bool, true, false, Option, none, some, List, [], ◌∷◌, ◌++◌, Str,
  codes, ltb, Result, ok, err, if◌then◌else◌,
}
use agentsty.Terminal.{ExecRequest, Size}

abbrev pub length {ℓ} : {A : Type ℓ} → List A → ℕ
length [] = 0
length (x ∷ xs) = 1 + length xs

pub length-snoc {ℓ} : {A : Type ℓ} (q : List A) (x : A) → length (q ++ x ∷ []) ≡ 1 + length q
length-snoc [] x = refl
length-snoc (y ∷ q) x = omega (arith, length-snoc q x)

-- The channel of sizes, which has room for eight; the oldest stands first.
abbrev pub ResizeQueue : Type 0
ResizeQueue = List Size

abbrev pub resize_capacity : ℕ
resize_capacity = 8

-- newResizeQueue
unfoldable pub new_resize_queue : ResizeQueue
new_resize_queue = []

-- resizeQueue.Push: a size for which there is no room is dropped
unfoldable pub push : ResizeQueue → Size → ResizeQueue
push q size = if ltb (length q) resize_capacity then q ++ size ∷ [] else q

-- resizeQueue.Next: `none` while there is no size, when the call waits; nothing closes the channel
unfoldable pub next : ResizeQueue → Option (Size × ResizeQueue)
next [] = none
next (size ∷ q) = some (size, q)

-- KubernetesExecBackend.Start: an error, or the options of the exec that it starts
pub record PodExecOptions : Type 0 where
  pub container : Str
  pub command : List Str
  pub stdin : Bool
  pub stdout : Bool
  pub stderr : Bool
  pub tty : Bool

pub record PodExec : Type 0 where
  pub namespace : Str
  pub name : Str
  pub options : PodExecOptions

abbrev pub err_exec_not_configured : Str
err_exec_not_configured = codes "exec backend not configured"

unfoldable pub pod_exec : ExecRequest → PodExec
pod_exec req = record {
  namespace = req.namespace;
  name = req.pod_name;
  options = record {
    container = req.container_name;
    command = req.command;
    stdin = true;
    stdout = true;
    stderr = true;
    tty = true;
  };
}

abbrev pub executed : PodExec → Option Str → Result Str PodExec
executed exec (some e) = err e
executed exec none = ok exec

-- The two flags say whether the backend has its client and its configuration.
unfoldable pub start : (PodExec → Option Str) → Bool → Bool → ExecRequest → Result Str PodExec
start new_executor true true req = executed (pod_exec req) (new_executor (pod_exec req))
start new_executor _ _ req = err err_exec_not_configured

-- A kubeExecStream as far as its calls change it: whether its standard input is closed, and its queue.
pub record KubeExecStream : Type 0 where
  pub closed : Bool
  pub resize : ResizeQueue

unfoldable pub resize_stream : KubeExecStream → Size → KubeExecStream
unfolding push
resize_stream s size = record s { resize = push s.resize size }

-- Close, which closes the input once
unfoldable pub close_stream : KubeExecStream → KubeExecStream
close_stream s = record s { closed = true }

-- An echoStream: what waits in its output, whose channel has room for sixteen, and whether it is closed.
pub record EchoStream : Type 0 where
  pub out : List Str
  pub closed : Bool

abbrev pub echo_capacity : ℕ
echo_capacity = 16

-- EchoBackend.Start
unfoldable pub echo_start : EchoStream
echo_start = record { out = codes "cask terminal ready\n" ∷ []; closed = false }

-- what a Write comes to
pub data Written : Type 0 where
  accepted : ℕ → Written
  closed_pipe : Written
  panicked : Written

-- echoStream.Write: the select takes any of its cases that can go on. A receive from the closed channel
-- of a closed stream can, and so can a send on its closed output, which panics; a send on an open
-- output can while there is room. While no case can go on, the call waits.
pub data EchoWrite (p : Str) (s : EchoStream) : EchoStream → Written → Type 0 where
  refuse : s.closed ≡ true → EchoWrite p s s closed_pipe
  send :
      s.closed ≡ false
      → length s.out < echo_capacity
      → EchoWrite p s (record s { out = s.out ++ p ∷ [] }) (accepted (length p))
  send_on_closed : s.closed ≡ true → EchoWrite p s s panicked

-- a receive from the output: the oldest text; `none` while it is empty
unfoldable pub echo_receive : EchoStream → Option (Str × EchoStream)
echo_receive s = elim s.out [ [] ↦ none | p ∷ rest ↦ some (p, record s { out = rest }) ]

-- echoStream.Close, which does its work once
unfoldable pub echo_close : EchoStream → EchoStream
echo_close s = record s { closed = true }
