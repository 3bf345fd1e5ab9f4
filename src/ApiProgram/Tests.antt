-- ===== src/ApiProgram/Tests.antt =====
-- Runs of the API program: a user creates a session in the in-memory store, and opens its terminal.
use agentsty.Prelude.{
  lookup, has_prefix, trim_prefix, trim_space, trim, str_eq, insert, split, mem_text, contains,
  contains_any, to_lower, replace_all, ◌≡◌, refl, true, Option, none, some, List, [], ◌∷◌, Str,
  codes, pos,
}
use agentsty.V1alpha1.{AgentSession, new_agent_session, validate}
use agentsty.Http.{Request, authorization, values, method_get, method_post}
use agentsty.Api.Store.{found}
use agentsty.Api.Store.Memory.{MemoryStore, stored, get, create, new_memory_store, memory_store}
use agentsty.Api.Requests.{
  spec_of, create_session_request, user_from_request, reject_forbidden, contains_secret_value,
  default_string, generate_session_id,
}
use agentsty.Api.Requests.Tests.{no_userinfo, stub_body}
use agentsty.Api.Server.{
  Ambient, handler, clean_path, sessions, sessions_of, create_session, create_body, create_spec,
  session_by_id, by_parts,
}
use agentsty.Redact.{contains_secret_like_key}
use agentsty.Kube.Client.{Dynamic}
use agentsty.Kube.Tests.{toy_unstructured, print_time, read_time, toy_dynamic}
use agentsty.Terminal.{
  ExecRequest, exec_request, serve_with, attach, is_ready, default_command, shell_command,
  shell_quote,
}
use agentsty.Terminal.Streams.{PodExec}
use agentsty.ApiProgram.{
  Settings, in_memory, store_of, server, serve, outcome, gateway_of, backend_of,
}
use agentsty.ApiProgram.Terminals.{Asks, IsOpened, serve-IsOpened}
use agentsty.ApiProgram.History.{
  Visit, IsFrom, state_after, state_after-IsFrom, IsOwnTerminal, outcome_after,
  outcome_after-IsOwnTerminal,
}

abbrev settings : Settings
settings = record {
  addr = codes ":8080";
  namespace = codes "agentcask-sessions";
  kubeconfig = [];
  memory = true;
}

abbrev ambient : Ambient
ambient = record { now = pos 9; random = some (7 ∷ []); nanos = pos 9; json = some stub_body }

abbrev visit : Str → Str → Visit
visit method path = record {
  ambient = ambient;
  upgrades = true;
  request = record {
    method = method;
    path = path;
    header = (authorization, codes "Bearer user:ana" ∷ []) ∷ [];
    body = none;
  };
}

abbrev posted : Visit
posted = visit method_post (codes "/api/v1/sessions")

abbrev opened : Visit
opened = visit method_get (codes "/api/v1/sessions/sess-07/terminal")

-- the session that the first of them makes
abbrev made : AgentSession
made = stored true (
    new_agent_session (codes "sess-07") (codes "agentcask-sessions")
      (spec_of (codes "ana") (create_session_request stub_body)) (pos 9))

abbrev of_file : Str → Str → Dynamic
of_file cfg namespace = toy_dynamic

abbrev makes_executor : Str → PodExec → Option Str
makes_executor cfg exec = none

abbrev after : List Visit → MemoryStore
after visits =
    state_after print_time read_time toy_unstructured of_file makes_executor no_userinfo settings
      visits

-- what the two requests come to
both_requests :
    (found (get (after (posted ∷ [])) (codes "sess-07")) ≡ some made)
    × Asks
        (outcome_after print_time read_time toy_unstructured of_file makes_executor no_userinfo
          settings
          (posted ∷ [])
          opened)
        (exec_request made)
unfolding state_after outcome_after store_of serve outcome gateway_of backend_of memory_store
    handler clean_path sessions sessions_of create_session create_body create_spec session_by_id
    by_parts user_from_request values lookup has_prefix trim_prefix trim_space trim str_eq insert
    split reject_forbidden create_session_request spec_of contains_secret_value default_string
    generate_session_id mem_text contains_secret_like_key contains contains_any to_lower validate
    new_agent_session get create stored new_memory_store agentsty.Http.get
    agentsty.Api.Server.terminal agentsty.Terminal.serve serve_with attach
    agentsty.Terminal.resolved is_ready exec_request default_command shell_command shell_quote
    replace_all Asks agentsty.Terminal.Admission.HasAsked
both_requests = (refl, refl)

state_after-IsFrom_example :
    IsFrom no_userinfo
      (server print_time read_time toy_unstructured of_file makes_executor in_memory no_userinfo
        settings)
      (posted ∷ [])
      (codes "sess-07")
      made
state_after-IsFrom_example =
    state_after-IsFrom print_time read_time toy_unstructured of_file makes_executor no_userinfo
      settings (posted ∷ []) (codes "sess-07") made both_requests.0

outcome_after-IsOwnTerminal_example :
    IsOwnTerminal print_time read_time toy_unstructured of_file makes_executor no_userinfo settings
      (posted ∷ [])
      (opened.request)
      (exec_request made)
outcome_after-IsOwnTerminal_example =
    outcome_after-IsOwnTerminal print_time read_time toy_unstructured of_file makes_executor
      no_userinfo settings (posted ∷ []) opened (exec_request made) both_requests.1

serve-IsOpened_example :
    let program_serve =
      serve print_time read_time toy_unstructured of_file makes_executor in_memory no_userinfo
        settings
        (unfold store_of memory_store in after (posted ∷ []))
        ambient
        true
        opened.request in
    (program_serve.0 ≡ (unfold store_of memory_store in after (posted ∷ [])))
    × IsOpened print_time read_time toy_unstructured of_file makes_executor in_memory no_userinfo
        settings ambient true opened.request
        (unfold store_of memory_store in after (posted ∷ []))
        (exec_request made)
unfolding outcome_after store_of memory_store
serve-IsOpened_example =
    serve-IsOpened print_time read_time toy_unstructured of_file makes_executor in_memory
      no_userinfo settings ambient true opened.request (after (posted ∷ [])) (exec_request made)
      both_requests.1
