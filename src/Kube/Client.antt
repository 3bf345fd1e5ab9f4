-- ===== src/Kube/Client.antt =====
-- internal/kube/client.go: the session client on the dynamic client (`Dynamic`), which is a parameter.
-- A patch is the map of which json.Marshal makes the bytes sent.
use agentsty.Prelude.{
  ℕ, Bool, true, false, ◌||◌, Option, none, some, List, [], ◌∷◌, Str, codes, str_eq, contains,
  Result, ok, err, if◌then◌else◌,
}
use agentsty.V1alpha1.{AgentSessionStatus, AgentSession, Time}
use agentsty.Api.Store.{Store}
use agentsty.Kube.{
  default_session_namespace, default_string, Unstructured, Fields, object, texts, field, end,
  to_unstructured, from_unstructured, status_to_map,
}

-- The dynamic client of a namespace, for the resource of the sessions; `list` takes a limit, `patch` is told whether it is
-- the status that is patched.
pub record Dynamic : Type 1 where
  pub State : Type 0
  pub list : State → Option ℕ → Result Str (List Fields)
  pub create : State → Fields → State × Result Str Fields
  pub get : State → Str → Result Str Fields
  pub delete : State → Str → State × Option Str
  pub patch : State → Bool → Str → Fields → State × Option Str

-- the namespace that NewForConfig gives the client
unfoldable pub client_namespace : Str → Str
client_namespace namespace = default_string namespace default_session_namespace

-- IsNotFound, on the text of an error
unfoldable pub is_not_found : Str → Bool
is_not_found e = contains e (codes "not found")

module _ (format_time : Time → Str) (parse_time : Str → Option Time) (u : Unstructured)
    (dyn : Dynamic) where
  abbrev read_object : Fields → Result Str AgentSession
  read_object o = from_unstructured format_time parse_time u (some o)

  abbrev error_of : {A : Type 0} → Result Str A → Option Str
  error_of (ok a) = none
  error_of (err e) = some e

  unfoldable pub ready : dyn.State → Option Str
  ready st = error_of (dyn.list st (some 1))

  -- the created object's status is the one given, if it has none yet
  abbrev pub with_status_of : AgentSession → Result Str AgentSession → Result Str AgentSession
  with_status_of s (err e) = err e
  with_status_of s (ok out) =
      if str_eq out.status.phase [] then ok (record out { status = s.status }) else ok out

  abbrev pub created : AgentSession → Result Str Fields → Result Str AgentSession
  created s (err e) = err e
  created s (ok o) = with_status_of s (read_object o)

  unfoldable pub create : dyn.State → AgentSession → dyn.State × Result Str AgentSession
  create st s =
      let (st', answer) = dyn.create st (to_unstructured format_time parse_time u s) in
      (st', created s answer)

  abbrev pub keep :
      Str → AgentSession → Result Str (List AgentSession) → Result Str (List AgentSession)
  keep user_id s (err e) = err e
  keep user_id s (ok ss) =
      if str_eq user_id [] || str_eq s.spec.user_id user_id then ok (s ∷ ss) else ok ss

  abbrev pub read_then :
      Str
      → Result Str AgentSession
      → Result Str (List AgentSession)
      → Result Str (List AgentSession)
  read_then user_id (err e) rest = err e
  read_then user_id (ok s) rest = keep user_id s rest

  -- the loop of List
  unfoldable pub sessions_of : Str → List Fields → Result Str (List AgentSession)
  sessions_of user_id [] = ok []
  sessions_of user_id (o ∷ os) = read_then user_id (read_object o) (sessions_of user_id os)

  abbrev pub listed : Str → Result Str (List Fields) → Result Str (List AgentSession)
  listed user_id (err e) = err e
  listed user_id (ok os) = sessions_of user_id os

  unfoldable pub list : dyn.State → Str → Result Str (List AgentSession)
  unfolding sessions_of
  list st user_id = listed user_id (dyn.list st none)

  abbrev pub got : Result Str Fields → Result Str AgentSession
  got (err e) = err e
  got (ok o) = read_object o

  unfoldable pub get : dyn.State → Str → Result Str AgentSession
  get st name = got (dyn.get st name)

  unfoldable pub delete : dyn.State → Str → dyn.State × Option Str
  delete st name = dyn.delete st name

  unfoldable pub patch_status : dyn.State → Str → AgentSessionStatus → dyn.State × Option Str
  patch_status st name status =
      dyn.patch st true name
        (field (codes "status") (object (status_to_map format_time parse_time status)) end)

  unfoldable pub patch_finalizers : dyn.State → Str → List Str → dyn.State × Option Str
  patch_finalizers st name finalizers =
      dyn.patch st false name
        (field (codes "metadata") (object (field (codes "finalizers") (texts finalizers) end)) end)

  -- SessionClient is a Store.
  unfoldable pub session_client : Store
  unfolding ready create list get delete
  session_client = record {
    State = dyn.State;
    ready = ready;
    create = create;
    list = list;
    get = get;
    delete = delete;
  }
