-- ===== src/Controller/Loop/Rounds.antt =====
-- Rounds of the controller: which sessions are reconciled, and what is printed.
use agentsty.Prelude.{
  ℕ, ◌≡◌, refl, ◌⊎◌, inl, inr, Option, none, some, List, [], ◌∷◌, ◌++◌, Str, codes, Result, ok, err,
}
use agentsty.Redact.{redact}
use agentsty.Controller.{Config}
use agentsty.Controller.Loop.{
  World, Tick, failure_line, reconcile_one, reconcile_names, reconcile_listed, reconcile_all,
  round_lines, run,
}

-- a line about a session or about a round, whose error is redacted
pub IsReport : Str → Type 0
IsReport line =
    ((name e : Str) × (line ≡ codes "reconcile " ++ (name ++ (codes " failed: " ++ redact e))))
    ⊎ ((e : Str) × (line ≡ codes "controller reconcile error: " ++ redact e))

pub AllReports : List Str → Type 0
AllReports [] = Unit
AllReports (line ∷ lines) = IsReport line × AllReports lines

append-AllReports : (xs ys : List Str) → AllReports xs → AllReports ys → AllReports (xs ++ ys)
unfolding AllReports
append-AllReports [] ys hx hy = hy
append-AllReports (x ∷ xs) ys (h, hx) hy = (h, append-AllReports xs ys hx hy)

failure_line-AllReports : (name : Str) (e : Option Str) → AllReports (failure_line name e)
unfolding AllReports IsReport
failure_line-AllReports name none = tt
failure_line-AllReports name (some e) = (inl (name, e, refl), tt)

round_lines-AllReports : (e : Option Str) → AllReports (round_lines e)
unfolding AllReports IsReport
round_lines-AllReports none = tt
round_lines-AllReports (some e) = (inr (e, refl), tt)

module _ (hmac : Str → Str → List ℕ) (quote : Str → Str) (cfg : Config) (w : World) where
  -- the states that a list of reconciliations leads through
  pub after_all : Tick → List Str → w.State → w.State
  after_all tick [] st = st
  after_all tick (name ∷ names) st =
      after_all tick names (reconcile_one hmac quote cfg w tick st name).0

  reconcile_names-eq :
      (tick : Tick) (names : List Str) (st : w.State)
      → ((reconcile_names hmac quote cfg w tick names st).0 ≡ after_all tick names st)
        × AllReports (reconcile_names hmac quote cfg w tick names st).1
  unfolding reconcile_names after_all
  reconcile_names-eq tick [] st = (refl, unfold AllReports in tt)
  reconcile_names-eq tick (name ∷ names) st =
      let one = reconcile_one hmac quote cfg w tick st name in
      let (same, reports) = reconcile_names-eq tick names one.0 in
      (same, append-AllReports _ _ (failure_line-AllReports name one.1) reports)

  -- A round reconciles every session that is listed, in order, each on the state that the ones before
  -- left, whether those succeed or not; if the list cannot be read it changes nothing, and returns the
  -- error. What it prints are reports with redacted errors.
  pub IsRound : Tick → w.State → Result Str (List Str) → w.State × List Str × Option Str → Type 0
  IsRound tick st (err e) outcome = outcome ≡ (st, [], some e)
  IsRound tick st (ok names) (st', lines, e) =
      (st' ≡ after_all tick names st) × AllReports lines × (e ≡ none)

  reconcile_listed-IsRound :
      (tick : Tick) (st : w.State) (answer : Result Str (List Str))
      → IsRound tick st answer (reconcile_listed hmac quote cfg w tick answer st)
  unfolding IsRound
  reconcile_listed-IsRound tick st (err e) = refl
  reconcile_listed-IsRound tick st (ok names) =
      let (same, reports) = reconcile_names-eq tick names st in (same, reports, refl)

  -- reconcileAll reconciles every session that is listed, in order, each on the state that the ones
  -- before left, whether those succeed or not, and returns no error; if the list cannot be read it
  -- changes nothing and returns that error. What it prints are reports with redacted errors.
  pub reconcile_all-IsRound :
      (tick : Tick) (st : w.State)
      → IsRound tick st (w.names st) (reconcile_all hmac quote cfg w tick st)
  unfolding reconcile_all
  reconcile_all-IsRound tick st = reconcile_listed-IsRound tick st (w.names st)

  reconcile_listed-AllReports :
      (tick : Tick) (st : w.State) (answer : Result Str (List Str))
      → AllReports (reconcile_listed hmac quote cfg w tick answer st).1
  reconcile_listed-AllReports tick st (err e) = unfold AllReports in tt
  reconcile_listed-AllReports tick st (ok names) = (reconcile_names-eq tick names st).1

  -- Whatever the cluster does, all that Run prints are reports with redacted errors.
  pub run-AllReports :
      (ticks : List Tick) (st : w.State) → AllReports (run hmac quote cfg w ticks st).1
  unfolding run reconcile_all
  run-AllReports [] st = unfold AllReports in tt
  run-AllReports (tick ∷ ticks) st =
      let round = reconcile_all hmac quote cfg w tick st in
      append-AllReports _ _ (reconcile_listed-AllReports tick st (w.names st))
        (append-AllReports _ _ (round_lines-AllReports round.2) (run-AllReports ticks round.0))
