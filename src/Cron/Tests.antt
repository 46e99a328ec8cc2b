-- ===== src/Cron/Tests.antt =====
-- Runs of packages/core/src/cron.ts, and its theorems at concrete inputs.
use celsian.Base.{
  split_on, ℕ, ◌≡◌, ◌⊎◌, refl, true, ◌&&◌, ◌||◌, none, [], ◌∷◌, arith, codes, text_beq,
}
use celsian.Base.Int.{pos}
use celsian.Cron.Words.{split_spaces, trim, parse_int, is_digit}
use celsian.Cron.Fields.{
  ParsedCron, parse_field, ok, err, member, parse_parts, parse_part, parse_every, parse_stepped,
  parse_range, parse_value, stride, add, in_range, parse_int_strict, step_start, positive_step,
  out_of_range, bad_step, not_an_integer, parse_cron_expression, parse_fields,
  is_restricted_day_field,
}
use celsian.Cron.Fields.Meaning.{Agrees, read_parts, parse_field-Agrees}
use celsian.Cron.Fields.RangeSteps.{parse_part_range_step}
use celsian.Cron.Schedule.{Date, day_matches}
use celsian.Cron.Schedule.DayRule.{BeginsWithStar, any_day, day_matches_lem}
use celsian.Cron.Scheduler.{CronJob, Globals, init}
use celsian.Cron.Scheduler.OncePerMinute.{adds, stops, starts, ticks, run, NoRepeats, run-NoRepeats}

-- The definitions that a run goes through.
parser : Unit {0}
unfolding parse_field parse_parts parse_part parse_every parse_stepped parse_range parse_value
    stride add in_range parse_int_strict step_start positive_step split_on parse_int text_beq
    split_spaces trim parse_fields parse_cron_expression is_restricted_day_field
parser = tt

fields_run :
    (parse_field 0 6 (codes "*/2,5") ≡ ok (0 ∷ 2 ∷ 4 ∷ 6 ∷ 5 ∷ []))
    × (parse_field 0 6 (codes "1-3") ≡ ok (1 ∷ 2 ∷ 3 ∷ []))
    × (parse_field 0 6 (codes "1-3/2") ≡ ok (1 ∷ 3 ∷ 5 ∷ []))
    × (parse_field 0 6 (codes "7") ≡ err (out_of_range (pos 7)))
    × (parse_field 0 6 (codes "1/0") ≡ err (bad_step (pos 0)))
    × (parse_field 0 6 (codes "1,x") ≡ err (not_an_integer (codes "x")))
unfolding parser
fields_run = (refl, refl, refl, refl, refl, refl)

parse_field-Agrees_example :
    Agrees 0 6 [] (read_parts 0 6 (split_on b',' (codes "*/2,5"))) (parse_field 0 6 (codes "*/2,5"))
parse_field-Agrees_example = parse_field-Agrees 0 6 (codes "*/2,5")

parse_part_range_step_example :
    parse_part 0 59 (codes "10-20/5") [] ≡ parse_part 0 59 (codes "10/5") []
unfolding is_digit
parse_part_range_step_example =
    parse_part_range_step 0 59 b'1' (codes "0") (codes "20") (codes "5") [] (refl, (refl, tt))
      (omega arith)

-- The 13th of a month and every Friday.
abbrev either : ParsedCron
either = record {
  minutes = 0 ∷ [];
  hours = 0 ∷ [];
  days_of_month = 13 ∷ [];
  months = 1 ∷ [];
  days_of_week = 5 ∷ [];
  days_of_month_restricted = true;
  days_of_week_restricted = true;
}

abbrev midnight : ℕ → ℕ → Date
midnight date day = record {
  minutes = 0;
  hours = 0;
  date = date;
  month = 0;
  day = day;
  time = 60000;
}

day_matches_lem_example :
    (BeginsWithStar (codes "13") ⊎ BeginsWithStar (codes "5")
      → day_matches either (midnight 6 5)
        ≡ (member 6 either.days_of_month && member 5 either.days_of_week))
    × (¬ BeginsWithStar (codes "13")
        → ¬ BeginsWithStar (codes "5")
        → day_matches either (midnight 6 5)
          ≡ (member 6 either.days_of_month || member 5 either.days_of_week))
    × (codes "5" ≡ any_day → day_matches either (midnight 6 5) ≡ member 6 either.days_of_month)
    × (codes "13" ≡ any_day → day_matches either (midnight 6 5) ≡ member 5 either.days_of_week)
unfolding parser
day_matches_lem_example =
    day_matches_lem (codes "0 0 13 1 5") (codes "0") (codes "0") (codes "13") (codes "1")
      (codes "5") either (midnight 6 5) refl refl (omega arith) (omega arith) (omega arith)

abbrev job : CronJob ℕ
job = record { name = codes "mail"; schedule = codes "0 0 13 1 5"; handler = 1 }

abbrev host : Globals
host = record { user_agent = none; deno_deployment = none; env = none }

run-NoRepeats_example : NoRepeats (
    run
      (adds job
        ∷ starts host
        ∷ ticks (midnight 6 5)
        ∷ stops
        ∷ starts host
        ∷ ticks (midnight 6 5)
        ∷ [])
      (init {H = ℕ})
      [])
run-NoRepeats_example =
    run-NoRepeats 0
      (adds job
        ∷ starts host
        ∷ ticks (midnight 6 5)
        ∷ stops
        ∷ starts host
        ∷ ticks (midnight 6 5)
        ∷ [])
      init
      (omega arith, (omega arith, (omega arith, (omega arith, (omega arith, (omega arith, tt))))))
