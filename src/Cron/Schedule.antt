-- ===== src/Cron/Schedule.antt =====
-- packages/core/src/cron.ts: `shouldRun`. A date is read through its local fields.
pub mod DayRule
use celsian.Base.{ℕ, ◌+◌, Bool, ◌&&◌, ◌||◌, List, if◌then◌else◌}
use celsian.Cron.Fields.{ParsedCron, member}

pub record Date : Type 0 where
  pub minutes : ℕ
  pub hours : ℕ
  pub date : ℕ
  pub month : ℕ
  pub day : ℕ
  pub time : ℕ

-- Whether the day fields let a date through.
unfoldable pub day_matches : ParsedCron → Date → Bool
day_matches parsed date =
    let dom = member date.date parsed.days_of_month in
    let dow = member date.day parsed.days_of_week in
    if parsed.days_of_month_restricted && parsed.days_of_week_restricted
    then dom || dow
    else dom && dow

unfoldable pub should_run : ParsedCron → Date → Bool
unfolding day_matches
should_run parsed date =
    member date.minutes parsed.minutes
    && (member date.hours parsed.hours
        && (member (date.month + 1) parsed.months && day_matches parsed date))
