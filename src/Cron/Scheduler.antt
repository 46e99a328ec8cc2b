-- ===== src/Cron/Scheduler.antt =====
-- packages/core/src/cron.ts: `detectServerlessCronRuntime` and `CronScheduler`. A handler is of a
-- parameter type, and the handlers that a tick starts are its result; what they do later, and the
-- timer itself, are the environment's. `new Date()` is an argument of `tick`.
pub mod OncePerMinute
use celsian.Base.{
  ℕ, ◌/◌, Bool, true, false, not, ◌&&◌, ◌||◌, Option, none, some, List, [], ◌∷◌, ◌++◌, map, Text,
  codes, ◌==◌, text_eq, nat_beq, if◌then◌else◌, length,
}
use celsian.Map
use celsian.Map.{Map}
use celsian.Cron.Fields.{ParsedCron, CronError, Result, ok, err, ◌>>=◌, parse_cron_expression}
use celsian.Cron.Schedule.{Date, should_run}

pub record CronJob (H : Type 0) : Type 0 where
  pub name : Text
  pub schedule : Text
  pub handler : H

pub data ServerlessRuntime : Type 0 where
  cloudflare_workers deno_deploy aws_lambda vercel netlify google_cloud : ServerlessRuntime

-- What the detection reads of the global object: `navigator.userAgent`, one variable of Deno, and
-- the variables of `process.env`, if there are any.
pub record Globals : Type 0 where
  pub user_agent : Option Text
  pub deno_deployment : Option Text
  pub env : Option (Map Text Text)

-- The truth value of a string or `undefined`.
abbrev pub truthy : Option Text → Bool
truthy none = false
truthy (some []) = false
truthy (some (c ∷ s)) = true

unfoldable pub detect_env : Map Text Text → Option ServerlessRuntime
detect_env env =
    if truthy (Map.get (codes "AWS_LAMBDA_FUNCTION_NAME") env)
      || truthy (Map.get (codes "LAMBDA_TASK_ROOT") env)
    then some aws_lambda
    else if truthy (Map.get (codes "VERCEL") env)
    then some vercel
    else if truthy (Map.get (codes "NETLIFY") env)
    then some netlify
    else if truthy (Map.get (codes "FUNCTION_TARGET") env)
        || truthy (Map.get (codes "K_SERVICE") env)
    then some google_cloud
    else none

abbrev pub is_cloudflare : Option Text → Bool
is_cloudflare none = false
is_cloudflare (some agent) = agent == codes "Cloudflare-Workers"

unfoldable pub detect_serverless_cron_runtime : Globals → Option ServerlessRuntime
detect_serverless_cron_runtime g =
    if is_cloudflare g.user_agent
    then some cloudflare_workers
    else if truthy g.deno_deployment
    then some deno_deploy
    else elim g.env [ none ↦ none | some env ↦ detect_env env ]

pub record CronScheduler (H : Type 0) : Type 0 where
  pub jobs : List (CronJob H × ParsedCron)
  pub is_running : Bool
  -- `none` is the initial -1.
  pub last_minute : Option ℕ
  pub last_fired_epoch_minute : Map Text ℕ
  pub warned_serverless : Bool

abbrev pub epoch_minute : Date → ℕ
epoch_minute now = now.time / 60000

abbrev pub is_minute : ℕ → Option ℕ → Bool
is_minute minute none = false
is_minute minute (some m) = nat_beq m minute

module _ {H : Type 0} where
  unfoldable pub init : CronScheduler H
  init = record {
    jobs = [];
    is_running = false;
    last_minute = none;
    last_fired_epoch_minute = [];
    warned_serverless = false;
  }

  -- A schedule that does not parse is thrown, and adds no job.
  unfoldable pub add : CronJob H → CronScheduler H → Result (CronScheduler H)
  add job s = parse_cron_expression job.schedule >>= λ parsed.
      ok (record s { jobs = s.jobs ++ (job, parsed) ∷ [] })

  -- The warning, if there is one, names a runtime and the jobs.
  unfoldable pub warn_if_serverless :
      Globals → CronScheduler H → CronScheduler H × Option (ServerlessRuntime × List Text)
  warn_if_serverless g s =
      if s.warned_serverless || nat_beq (length s.jobs) 0
      then (s, none)
      else elim (detect_serverless_cron_runtime g) [
        | none ↦ (s, none)
        | some runtime ↦
            (record s { warned_serverless = true }, some (runtime, map (λ j. j.0.name) s.jobs))
      ]

  unfoldable pub start :
      Globals → CronScheduler H → CronScheduler H × Option (ServerlessRuntime × List Text)
  start g s =
      if s.is_running
      then (s, none)
      else let (s', warning) = warn_if_serverless g s in (record s' { is_running = true }, warning)

  unfoldable pub stop : CronScheduler H → CronScheduler H
  stop s = record s { is_running = false }

  -- The loop over the jobs: the guard's map, and the jobs that are fired.
  unfoldable pub fire_loop :
      Date → List (CronJob H × ParsedCron) → Map Text ℕ → Map Text ℕ × List (CronJob H)
  fire_loop now [] fired = (fired, [])
  fire_loop now ((job, parsed) ∷ rest) fired =
      let skipped = fire_loop now rest fired in
      let (fired', started) = fire_loop now rest (Map.set job.name (epoch_minute now) fired) in
      if should_run parsed now && not (is_minute (epoch_minute now) (Map.get job.name fired))
      then (fired', job ∷ started)
      else skipped

  unfoldable pub tick : Date → CronScheduler H → CronScheduler H × List (CronJob H)
  tick now s =
      if is_minute (epoch_minute now) s.last_minute
      then (s, [])
      else let (fired, started) = fire_loop now s.jobs s.last_fired_epoch_minute in
        (
          record s { last_minute = some (epoch_minute now); last_fired_epoch_minute = fired },
          started,
        )

  unfoldable pub get_jobs : CronScheduler H → List (CronJob H)
  get_jobs s = map (λ j. j.0) s.jobs
