-- ===== src/Api/Store/Memory/Tests.antt =====
-- Runs of the store's theorems: one session is stored, and asked for.
use agentsty.Prelude.{true, none, List, [], ◌∷◌, codes, pos}
use agentsty.V1alpha1.{AgentSession, new_agent_session}
use agentsty.V1alpha1.Tests.{stub_spec}
use agentsty.Api.Store.Memory.{MemoryStore, new_memory_store, create, delete}
use agentsty.Api.Store.Memory.Refinement.{
  Operation, creates, deletes, perform, specify, IsImage, perform-IsImage,
}
use agentsty.Api.Store.Memory.Laws.{
  IsKeyed, new_memory_store-IsKeyed, create-IsKeyed, delete-IsKeyed,
}

abbrev pub stub_session : AgentSession
stub_session = new_agent_session (codes "sess-1") (codes "ns") stub_spec (pos 5)

abbrev pub one_session : MemoryStore
one_session = (create (new_memory_store true) stub_session).0

one_session-IsKeyed : IsKeyed one_session.sessions
one_session-IsKeyed =
    create-IsKeyed (new_memory_store true) stub_session (new_memory_store-IsKeyed true)

delete-IsKeyed_example : IsKeyed (delete one_session (codes "sess-1")).0.sessions
delete-IsKeyed_example = delete-IsKeyed one_session (codes "sess-1") one_session-IsKeyed

abbrev operations : List Operation
operations = creates stub_session ∷ deletes (codes "sess-2") ∷ deletes (codes "sess-1") ∷ []

perform-IsImage_example :
    IsImage (specify true operations (λ id. none)) (perform operations (new_memory_store true))
perform-IsImage_example = perform-IsImage true operations
