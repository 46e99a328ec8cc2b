-- ===== src/Cron/Scheduler/OncePerMinute.antt =====
-- No job fires twice in one minute.
use celsian.Base.{
  ℕ, ◌≤◌, ◌<◌, ◌≡◌, ◌≢◌, refl, sym, ap, ◌⊎◌, append-nil, append_assoc, ==_refl, inl, inr, false,
  not, ◌&&◌, some, List, [], ◌∷◌, ◌++◌, Text, text_eq, arith, All, All-append, Bool-cases,
}
use celsian.Map
use celsian.Map.{Map}
use celsian.Map.Laws.{get-set}
use celsian.Cron.Fields.{ParsedCron, Result}
use celsian.Cron.Schedule.{Date, should_run}
use celsian.Cron.Scheduler.{
  CronJob, CronScheduler, Globals, add, warn_if_serverless, start, stop, tick, fire_loop,
  epoch_minute, is_minute,
}

-- A firing: the job's name and the minute.
abbrev pub Firing : Type 0
Firing = Text × ℕ

-- No firing stands twice.
abbrev pub NoRepeats : List Firing → Type 0
NoRepeats [] = Unit
NoRepeats (f ∷ fs) = All (λ g. g ≢ f) fs × NoRepeats fs

-- What a client of the scheduler and its timer do.
pub data Event (H : Type 0) : Type 0 where
  adds : CronJob H → Event H
  starts : Globals → Event H
  stops : Event H
  ticks : Date → Event H

-- A firing of the log, at a minute that the clock has not passed; one of the last minute is in the
-- guard's map.
abbrev Logged : Map Text ℕ → ℕ → Firing → Type 0
Logged fired from (name, minute) =
    (minute < from) ⊎ ((minute ≡ from) × (Map.get name fired ≡ some from))

NoRepeats-append_one :
    (fs : List Firing) (f : Firing) → NoRepeats fs → All (λ g. g ≢ f) fs → NoRepeats (fs ++ f ∷ [])
NoRepeats-append_one [] f h a = (tt, tt)
NoRepeats-append_one (g ∷ fs) f (n, h) (d, a) =
    (All-append (λ x. x ≢ g) fs (f ∷ []) n (λ e. d (sym e), tt), NoRepeats-append_one fs f h a)

Logged-later :
    (fired : Map Text ℕ) (from now : ℕ) (log : List Firing)
    → from ≤ now
    → All (Logged fired from) log
    → All (Logged fired now) log
Logged-later fired from now [] h a = tt
Logged-later fired from now ((n, m) ∷ log) h (here, rest) =
    (ground arith, Logged-later fired from now log h rest)

Logged-set :
    (fired : Map Text ℕ) (now : ℕ) (name : Text) (log : List Firing)
    → All (Logged fired now) log
    → All (Logged (Map.set name now fired) now) log
Logged-set fired now name [] a = tt
Logged-set fired now name ((n, m) ∷ log) (here, rest) =
    (ground (arith, get-set name n now fired), Logged-set fired now name log rest)

-- A job that the guard lets through has not fired in this minute.
unlogged :
    (fired : Map Text ℕ) (now : ℕ) (name : Text) (log : List Firing)
    → is_minute now (Map.get name fired) ≡ false
    → All (Logged fired now) log
    → All (λ g. g ≢ (name, now)) log
unlogged fired now name [] h a = tt
unlogged fired now name ((n, m) ∷ log) h (here, rest) = (
  λ e. ground (arith, ap (λ (f : Firing). f.0) e, ap (λ (f : Firing). f.1) e),
  unlogged fired now name log h rest,
)

-- What a tick keeps of a log.
abbrev Kept : ℕ → Map Text ℕ → List Firing → Type 0
Kept now fired log = NoRepeats log × All (Logged fired now) log

-- An event that fires nothing and leaves the guard's map alone.
quiet-Kept :
    (from : ℕ) (fired fired' : Map Text ℕ) (log : List Firing)
    → fired' ≡ fired
    → Kept from fired log
    → Kept from fired' (log ++ [])
quiet-Kept from fired fired' log e k = rw (e, append-nil) k

module _ {H : Type 0} where
  firings : ℕ → List (CronJob H) → List Firing
  firings minute [] = []
  firings minute (j ∷ js) = (j.name, minute) ∷ firings minute js

  added : Result (CronScheduler H) → CronScheduler H → CronScheduler H
  added (Result.ok s') s = s'
  added (Result.err e) s = s

  -- An event, with what it fires.
  step : Event H → CronScheduler H → CronScheduler H × List Firing
  step (adds job) s = (added (add job s) s, [])
  step (starts g) s = ((start g s).0, [])
  step stops s = (stop s, [])
  step (ticks now) s = ((tick now s).0, firings (epoch_minute now) (tick now s).1)

  -- The firings of a list of events, after those of a log.
  pub run : List (Event H) → CronScheduler H → List Firing → List Firing
  run [] s log = log
  run (e ∷ es) s log = run es (step e s).0 (log ++ (step e s).1)

  -- The minute of the last tick.
  abbrev pub clock : Event H → ℕ → ℕ
  clock (adds job) from = from
  clock (starts g) from = from
  clock stops from = from
  clock (ticks now) from = epoch_minute now

  -- The minutes of the ticks do not fall, from a given one on.
  abbrev pub Monotone : ℕ → List (Event H) → Type 0
  Monotone from [] = Unit
  Monotone from (e ∷ es) = (from ≤ clock e from) × Monotone (clock e from) es

  fire_loop-Kept :
      (now : Date) (jobs : List (CronJob H × ParsedCron)) (fired : Map Text ℕ) (log : List Firing)
      → Kept (epoch_minute now) fired log
      → Kept
          (epoch_minute now)
          (fire_loop now jobs fired).0
          (log ++ firings (epoch_minute now) (fire_loop now jobs fired).1)
  unfolding fire_loop firings
  fire_loop-Kept now [] fired log k = rw append-nil k
  fire_loop-Kept now ((job, parsed) ∷ rest) fired log k =
      elim (Bool-cases
        (should_run parsed now && not (is_minute (epoch_minute now) (Map.get job.name fired)))) [
          | inr skipped ↦ rw skipped (fire_loop-Kept now rest fired log k)
          | inl fires ↦
              let minute = epoch_minute now in
              let fresh : is_minute minute (Map.get job.name fired) ≡ false = ground arith in
              let log' = log ++ (job.name, minute) ∷ [] in
              let kept : Kept minute (Map.set job.name minute fired) log' = (
                NoRepeats-append_one log _ k.0 (unlogged fired minute job.name log fresh k.1),
                All-append _ log _ (Logged-set fired minute job.name log k.1)
                    (inr (refl, rw get-set (rw ==_refl)), tt),
              ) in
              rw fires (
                rw (append_assoc log ((job.name, minute) ∷ [])) at
                  (fire_loop-Kept now rest (Map.set job.name minute fired) log' kept))
        ]

  tick-Kept :
      (now : Date) (s : CronScheduler H) (log : List Firing)
      → Kept (epoch_minute now) s.last_fired_epoch_minute log
      → Kept
          (epoch_minute now)
          (tick now s).0.last_fired_epoch_minute
          (log ++ firings (epoch_minute now) (tick now s).1)
  unfolding tick
  tick-Kept now s log k = elim (Bool-cases (is_minute (epoch_minute now) s.last_minute)) [
    | inl again ↦ rw again (unfold firings in rw append-nil k)
    | inr first ↦ rw first (fire_loop-Kept now s.jobs s.last_fired_epoch_minute log k)
  ]

  start-fired :
      (g : Globals) (s : CronScheduler H)
      → (start g s).0.last_fired_epoch_minute ≡ s.last_fired_epoch_minute
  unfolding start warn_if_serverless
  start-fired g s = ground arith

  added-fired :
      (r : Result (CronScheduler H)) (job : CronJob H) (s : CronScheduler H)
      → add job s ≡ r
      → (added r s).last_fired_epoch_minute ≡ s.last_fired_epoch_minute
  unfolding added add
  added-fired (Result.err e) job s h = refl
  added-fired (Result.ok s') job s h = ground arith

  step-Kept :
      (from : ℕ) (e : Event H) (s : CronScheduler H) (log : List Firing)
      → from ≤ clock e from
      → Kept from s.last_fired_epoch_minute log
      → Kept (clock e from) (step e s).0.last_fired_epoch_minute (log ++ (step e s).1)
  unfolding step
  step-Kept from (adds job) s log le k =
      quiet-Kept from s.last_fired_epoch_minute _ log (added-fired (add job s) job s refl) k
  step-Kept from (starts g) s log le k =
      quiet-Kept from s.last_fired_epoch_minute _ log (start-fired g s) k
  step-Kept from stops s log le k =
      quiet-Kept from s.last_fired_epoch_minute _ log (unfold stop in refl) k
  step-Kept from (ticks now) s log le k =
      tick-Kept now s log
        (k.0, Logged-later s.last_fired_epoch_minute from (epoch_minute now) log le k.1)

  run_from-NoRepeats :
      (from : ℕ) (es : List (Event H)) (s : CronScheduler H) (log : List Firing)
      → Kept from s.last_fired_epoch_minute log
      → Monotone from es
      → NoRepeats (run es s log)
  unfolding run
  run_from-NoRepeats from [] s log k m = k.0
  run_from-NoRepeats from (e ∷ es) s log k (le, m) =
      run_from-NoRepeats (clock e from) es (step e s).0 (log ++ (step e s).1)
        (step-Kept from e s log le k) m

  -- Whatever jobs are added, and however the scheduler is started and stopped, even within one
  -- minute: as long as the minutes of the ticks do not fall, no job name fires twice in one minute.
  pub run-NoRepeats :
      (from : ℕ) (es : List (Event H)) (s : CronScheduler H)
      → Monotone from es
      → NoRepeats (run es s [])
  run-NoRepeats from es s m = run_from-NoRepeats from es s [] (tt, tt) m
