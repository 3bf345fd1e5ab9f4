-- ===== src/Terminal.antt =====
-- internal/terminal/gateway.go: who may attach to a session's terminal, the command that runs in
-- its pod, and the relay between the websocket and the exec stream.
-- The websocket and the exec backend are read through what they answer: whether the upgrade and the
-- exec start succeed, and in a `Turn` one round of the read loop. The deadlines set before each read
-- are not modelled; Relay has the goroutines of an attached terminal.
pub mod Quoting
pub mod Admission
pub mod Relaying
pub mod Streams
pub mod Relay
pub mod Exec
pub mod Tests
use agentsty.Prelude.{
  ℕ, zero, ◌+◌, ◌*◌, Bool, true, false, ◌&&◌, ◌||◌, not, Option, none, some, List, [], ◌∷◌, ◌++◌,
  Str, codes, str_eq, replace_all, Dict, lookup, ℤ, pos, ltb, Result, ok, err, if◌then◌else◌,
}
use agentsty.V1alpha1.{
  AgentSession, second, container_name_agent, phase_running, phase_expired, phase_terminating,
  phase_failed,
}

pub record ExecRequest : Type 0 where
  pub namespace : Str
  pub pod_name : Str
  pub container_name : Str
  pub command : List Str

pub record Size : Type 0 where
  pub cols : ℕ
  pub rows : ℕ

abbrev pub has_no_session : Result Str (Option AgentSession) → Bool
has_no_session (ok (some s)) = false
has_no_session _ = true

abbrev pub default_string : Str → Str → Str
default_string v fallback = if str_eq v [] then fallback else v

unfoldable pub shell_quote : Str → Str
unfolding replace_all
shell_quote s = replace_all s (codes "'") (codes "'\\''")

abbrev pub tool_command : Dict Str
tool_command =
    (
      codes "stub",
      codes
          "if [ -x /usr/local/bin/cask-stub-tui ]; then /usr/local/bin/cask-stub-tui; else /bin/sh; fi",
    )
    ∷ (
      codes "opencode",
      codes "if command -v opencode >/dev/null 2>&1; then opencode; else /bin/sh; fi",
    )
    ∷ (
      codes "claude-code",
      codes "if command -v claude >/dev/null 2>&1; then claude; else /bin/sh; fi",
    )
    ∷ (codes "codex", codes "if command -v codex >/dev/null 2>&1; then codex; else /bin/sh; fi")
    ∷ (
      codes "openclaw",
      codes "if command -v openclaw >/dev/null 2>&1; then openclaw; else /bin/sh; fi",
    )
    ∷ (codes "hermes", codes "if command -v hermes >/dev/null 2>&1; then hermes; else /bin/sh; fi")
    ∷ []

-- a missing key gives the empty text
abbrev pub text_or_empty : Option Str → Str
text_or_empty (some s) = s
text_or_empty none = []

unfoldable pub shell_command : Str → Str
unfolding lookup
shell_command tool = default_string (text_or_empty (lookup tool tool_command)) (codes "/bin/sh")

abbrev pub tmux_before : Str
tmux_before = codes "if command -v tmux >/dev/null 2>&1; then tmux new-session -A -s agent '"

unfoldable pub default_command : Str → List Str
default_command tool =
    if str_eq tool (codes "stub")
    then codes "/bin/sh" ∷ codes "-lc" ∷ shell_command tool ∷ []
    else codes "/bin/sh"
      ∷ codes "-lc"
      ∷ (tmux_before
          ++ (shell_quote (shell_command tool)
              ++ (codes "'; else " ++ (shell_command tool ++ codes "; fi"))))
      ∷ []

-- The fields of a Gateway that the model reads: nil is `none`. A resolver's error is its text.
pub record Gateway : Type 0 where
  pub resolver : Option (Str → Result Str (Option AgentSession))
  pub backend : Option (ExecRequest → Option Str)
  pub timeout : ℤ

unfoldable pub read_timeout : ℤ → ℤ
read_timeout (pos zero) = pos (30 * 60 * second)
read_timeout t = t

-- What Serve comes to before the relay: an HTTP error, the panic of a nil session, a failed upgrade
-- (which Upgrade has answered), a failed exec, or a running exec.
pub data Served : Type 0 where
  refused : ℕ → Str → Served
  panicked : Served
  not_upgraded : Served
  exec_failed : ExecRequest → Str → Served
  attached : ExecRequest → Served

unfoldable pub is_ready : AgentSession → Bool
is_ready s =
    str_eq s.status.phase phase_running
    && s.status.terminal_ready
    && not (str_eq s.status.pod_name [])

unfoldable pub exec_request : AgentSession → ExecRequest
exec_request s = record {
  namespace = s.namespace;
  pod_name = s.status.pod_name;
  container_name = default_string s.status.container_name container_name_agent;
  command = default_command s.spec.tool;
}

abbrev pub started : ExecRequest → Option Str → Served
started request none = attached request
started request (some e) = exec_failed request e

-- the session's owner and state, then the upgrade, then the exec
unfoldable pub attach : (ExecRequest → Option Str) → Bool → Str → AgentSession → Served
unfolding is_ready
attach start upgrades user_id s =
    if not (str_eq s.spec.user_id user_id)
    then refused 403 (codes "forbidden")
    else if not (is_ready s)
    then refused 409 (codes "session not ready")
    else if not upgrades
    then not_upgraded
    else started (exec_request s) (start (exec_request s))

unfoldable pub resolved :
    (ExecRequest → Option Str) → Bool → Str → Result Str (Option AgentSession) → Served
unfolding attach
resolved start upgrades user_id (err e) = refused 404 (codes "session not found")
resolved start upgrades user_id (ok none) = panicked
resolved start upgrades user_id (ok (some s)) = attach start upgrades user_id s

unfoldable pub serve_with :
    Option (Str → Result Str (Option AgentSession))
    → Option (ExecRequest → Option Str)
    → Bool
    → Str
    → Str
    → Served
unfolding resolved
serve_with (some resolve) (some start) upgrades user_id session_id =
    resolved start upgrades user_id (resolve session_id)
serve_with _ _ upgrades user_id session_id = refused 503 (codes "terminal gateway not configured")

-- Gateway.Serve up to the relay, given whether the upgrade succeeds
unfoldable pub serve : Gateway → Bool → Str → Str → Served
unfolding serve_with
serve g upgrades user_id session_id = serve_with g.resolver g.backend upgrades user_id session_id

-- The test that closeWhenSessionStops makes every two seconds: a hit closes the stream, the
-- connection and the context.
unfoldable pub session_stopped : Result Str (Option AgentSession) → Bool
session_stopped (err e) = true
session_stopped (ok none) = true
session_stopped (ok (some s)) =
    elim s.deletion_timestamp [ none ↦ false | some t ↦ true ]
    || str_eq s.status.phase phase_expired
    || str_eq s.status.phase phase_terminating
    || str_eq s.status.phase phase_failed
    || not s.status.terminal_ready

-- closeWhenSessionStops over what the resolver answers tick by tick: how many ticks it lets pass
-- before it closes, or `none` if it has not closed yet
unfoldable pub close_when_session_stops : List (Result Str (Option AgentSession)) → Option ℕ
unfolding session_stopped
close_when_session_stops [] = none
close_when_session_stops (answer ∷ answers) =
    let later = close_when_session_stops answers in
    if session_stopped answer then some 0 else elim later [ none ↦ none | some n ↦ some (1 + n) ]

-- what json.Unmarshal reads from a control message
pub record Control : Type 0 where
  pub kind_of : Str
  pub cols : ℕ
  pub rows : ℕ

unfoldable pub handle_control : Option Control → Option Size
handle_control none = none
handle_control (some msg) =
    if str_eq msg.kind_of (codes "resize") && ltb 0 msg.cols && ltb 0 msg.rows
    then some (record { cols = msg.cols; rows = msg.rows })
    else none

pub data Message : Type 0 where
  binary : Str → Message
  text : Option Control → Message
  close : Message
  other : Message

-- A round of the loop: the output has ended, the read fails, or a message comes, and the stream
-- takes a write of it or not.
pub data Turn : Type 0 where
  output_ended : Turn
  read_failed : Turn
  received : Message → Bool → Turn

-- the calls of the stream
pub data Action : Type 0 where
  wrote : Str → Action
  resized : Size → Action

abbrev pub resize : Option Size → List Action
resize none = []
resize (some size) = resized size ∷ []

-- what a round does to the stream, and whether the loop goes on
unfoldable pub turn : Turn → List Action × Bool
unfolding handle_control
turn output_ended = ([], false)
turn read_failed = ([], false)
turn (received (binary payload) writes) = (wrote payload ∷ [], writes)
turn (received (text msg) writes) = (resize (handle_control msg), true)
turn (received close writes) = ([], false)
turn (received other writes) = ([], true)

-- the read loop of Serve
unfoldable pub relay : List Turn → List Action
unfolding turn
relay [] = []
relay (t ∷ ts) = let rest = relay ts in let step = turn t in step.0 ++ (if step.1 then rest else [])
