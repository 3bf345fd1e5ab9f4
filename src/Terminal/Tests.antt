-- ===== src/Terminal/Tests.antt =====
-- Runs of the theorems on the terminal.
use agentsty.Prelude.{◌≡◌, ◌↔◌, true, Option, none, some, ◌++◌, Str, codes, pos, Result, ok, ◌<◌}
use agentsty.V1alpha1.{AgentSession, new_agent_session, phase_running}
use agentsty.V1alpha1.Tests.{stub_spec}
use agentsty.Terminal.{
  Gateway, ExecRequest, exec_request, Control, Size, serve, shell_quote, handle_control,
}
use agentsty.Terminal.Quoting.{bare, read_word, read_word-shell_quote}
use agentsty.Terminal.Admission.{HasAsked, IsGrantedOf, serve-HasAsked_iff}
use agentsty.Terminal.Relaying.{handle_control_iff}

abbrev pending : AgentSession
pending = new_agent_session (codes "sess-1") (codes "ns") stub_spec (pos 5)

abbrev running : AgentSession
running = record pending {
  status = record (pending.status) {
    phase = phase_running;
    pod_name = codes "agent-session-sess-1";
    terminal_ready = true;
  };
}

abbrev finds_running : Str → Result Str (Option AgentSession)
finds_running id = ok (some running)

abbrev starts : ExecRequest → Option Str
starts request = none

abbrev gateway : Gateway
gateway = record { resolver = some finds_running; backend = some starts; timeout = pos 0 }

read_word-shell_quote_example :
    read_word bare (codes "'" ++ (shell_quote (codes "it's") ++ codes "'")) ≡ some (codes "it's")
read_word-shell_quote_example = read_word-shell_quote (codes "it's")

serve-HasAsked_example :
    HasAsked (serve gateway true (codes "dev-user") (codes "sess-1")) (exec_request running) ↔ (
      (resolve : Str → Result Str (Option AgentSession)) × (start : ExecRequest → Option Str)
      × (gateway.resolver ≡ some resolve)
      × (gateway.backend ≡ some start)
      × IsGrantedOf true (codes "dev-user") (resolve (codes "sess-1")) (exec_request running))
serve-HasAsked_example =
    serve-HasAsked_iff gateway true (codes "dev-user") (codes "sess-1") (exec_request running)

abbrev wide_size : Size
wide_size = record { cols = 120; rows = 40 }

abbrev wide : Control
wide = record { kind_of = codes "resize"; cols = 120; rows = 40 }

handle_control_example : (handle_control (some wide) ≡ some wide_size) ↔ (
    (wide.kind_of ≡ codes "resize")
    × (0 < wide.cols)
    × (0 < wide.rows)
    × (wide_size ≡ record { cols = wide.cols; rows = wide.rows }))
handle_control_example = handle_control_iff wide wide_size
