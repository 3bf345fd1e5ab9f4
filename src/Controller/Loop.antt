-- ===== src/Controller/Loop.antt =====
-- internal/controller/controller.go: Run and reconcileAll, over a cluster that changes.
-- A `World` is the cluster as the controller meets it: what the API answers in one call of Reconcile,
-- and what its calls make of the state. What is printed is a list of lines; a tick gives the two
-- times that a reconciliation reads, and Run ends with the last tick, when its context is done.
pub mod Rounds
use agentsty.Prelude.{
  ℕ, Bool, Option, none, some, List, [], ◌∷◌, ◌++◌, Str, codes, ℤ, pos, leb_ℤ, ◌*◌, Result, ok, err,
  if◌then◌else◌,
}
use agentsty.V1alpha1.{Time, second}
use agentsty.Redact.{redact}
use agentsty.Controller.{Config}
use agentsty.Controller.Reconciler.{Cluster, Call, reconcile}

pub record World : Type 1 where
  pub State : Type 0
  pub read : State → Cluster
  pub perform : State → List Call → State
  pub names : State → Result Str (List Str)

-- what each session's reconciliation reads from the clock, at its start and for its status
pub record Tick : Type 0 where
  pub now : Str → Time
  pub later : Str → Time

-- the interval between rounds: r.config has replaced zero already
unfoldable pub run_interval : ℤ → ℤ
run_interval n = if leb_ℤ n (pos 0) then pos (2 * second) else n

abbrev pub failure_line : Str → Option Str → List Str
failure_line name none = []
failure_line name (some e) = (codes "reconcile " ++ (name ++ (codes " failed: " ++ redact e))) ∷ []

abbrev pub round_lines : Option Str → List Str
round_lines none = []
round_lines (some e) = (codes "controller reconcile error: " ++ redact e) ∷ []

module _ (hmac : Str → Str → List ℕ) (quote : Str → Str) (cfg : Config) (w : World) where
  -- one call of Reconcile: the state after it, and the error
  unfoldable pub reconcile_one : Tick → w.State → Str → w.State × Option Str
  reconcile_one tick st name =
      let (calls, e) =
        reconcile hmac quote (w.read st) cfg (tick.now name) (tick.later name) name in
      (w.perform st calls, e)

  abbrev pub after_one :
      Str → w.State × Option Str → (w.State → w.State × List Str) → w.State × List Str
  after_one name (st, e) rest = let (st', lines) = rest st in (st', failure_line name e ++ lines)

  -- the loop over the listed sessions
  unfoldable pub reconcile_names : Tick → List Str → w.State → w.State × List Str
  unfolding reconcile_one
  reconcile_names tick [] st = (st, [])
  reconcile_names tick (name ∷ names) st =
      after_one name (reconcile_one tick st name) (reconcile_names tick names)

  abbrev pub reconcile_listed :
      Tick → Result Str (List Str) → w.State → w.State × List Str × Option Str
  reconcile_listed tick (err e) st = (st, [], some e)
  reconcile_listed tick (ok names) st =
      let (st', lines) = reconcile_names tick names st in (st', lines, none)

  -- reconcileAll
  unfoldable pub reconcile_all : Tick → w.State → w.State × List Str × Option Str
  reconcile_all tick st = reconcile_listed tick (w.names st) st

  abbrev pub after_round :
      w.State × List Str × Option Str → (w.State → w.State × List Str) → w.State × List Str
  after_round (st, lines, e) rest =
      let (st', more) = rest st in (st', lines ++ (round_lines e ++ more))

  -- Run, once its clients are there
  unfoldable pub run : List Tick → w.State → w.State × List Str
  unfolding reconcile_all
  run [] st = (st, [])
  run (tick ∷ ticks) st = after_round (reconcile_all tick st) (run ticks)
