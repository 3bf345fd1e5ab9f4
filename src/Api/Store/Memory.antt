-- ===== src/Api/Store/Memory.antt =====
-- internal/api/memory_store.go. The mutex makes each method one step. The order of the entries
-- stands for the order in which Go iterates over the map, which is any.
pub mod Laws
pub mod Refinement
pub mod Tests
use agentsty.Prelude.{
  Bool, true, ◌||◌, Option, none, some, List, [], ◌∷◌, ◌++◌, Str, codes, str_eq, Dict, lookup,
  insert, erase, Result, ok, err, if◌then◌else◌,
}
use agentsty.V1alpha1.{AgentSession, AgentSessionStatus, phase_running, container_name_agent}
use agentsty.Api.Store.{Store}

pub record MemoryStore : Type 0 where
  pub sessions : Dict AgentSession
  pub auto_run : Bool

unfoldable pub new_memory_store : Bool → MemoryStore
new_memory_store auto_run = record { sessions = []; auto_run = auto_run }

abbrev not_found : Str → Str
not_found id = codes "session " ++ (id ++ codes " not found")

-- the copy that Create stores; clone copies the labels, so it is the same value
unfoldable pub stored : Bool → AgentSession → AgentSession
stored auto_run s =
    if auto_run
    then record s {
      status = record (s.status) {
        phase = phase_running;
        pod_name = codes "memory-" ++ s.name;
        container_name = container_name_agent;
        terminal_ready = true;
      };
    }
    else s

unfoldable pub create : MemoryStore → AgentSession → MemoryStore × Result Str AgentSession
unfolding stored
create m s =
    let copy = stored m.auto_run s in
    (record m { sessions = insert s.name copy m.sessions }, ok copy)

-- the loop of List
pub owned_by : Str → Dict AgentSession → List AgentSession
owned_by user_id [] = []
owned_by user_id ((_, s) ∷ rest) =
    let out = owned_by user_id rest in
    if str_eq user_id [] || str_eq s.spec.user_id user_id then s ∷ out else out

pub list : MemoryStore → Str → Result Str (List AgentSession)
unfolding owned_by
list m user_id = ok (owned_by user_id m.sessions)

unfoldable pub get : MemoryStore → Str → Result Str AgentSession
get m id = elim (lookup id m.sessions) [ none ↦ err (not_found id) | some s ↦ ok s ]

pub delete : MemoryStore → Str → MemoryStore × Option Str
delete m id = elim (lookup id m.sessions) [
  | none ↦ (m, some (not_found id))
  | some _ ↦ (record m { sessions = erase id m.sessions }, none)
]

unfoldable pub memory_store : Store
unfolding create list get delete
memory_store = record {
  State = MemoryStore;
  ready = λ m. none;
  create = create;
  list = list;
  get = get;
  delete = delete;
}
