-- ===== src/Cron/Fields.antt =====
-- packages/core/src/cron.ts: `parseField` and `parseCronExpression`. A set of numbers is the list of
-- its elements in the order of insertion, and a thrown error is a value.
pub mod Stride
pub mod Meaning
pub mod RangeSteps
use celsian.Base.{
  split_on, ℕ, zero, suc, ◌+◌, Bool, true, false, not, ◌||◌, Option, none, some, List, [], ◌∷◌,
  ◌++◌, Text, codes, text_beq, nat_beq, ltb, leb, any, if◌then◌else◌,
}
use celsian.Base.Int.{ℤ, pos, negsuc}
use celsian.Cron.Words.{trim, split_spaces, includes, parse_int}

pub data CronError : Type 0 where
  wrong_field_count : CronError
  not_an_integer : Text → CronError
  out_of_range : ℤ → CronError
  bad_step : ℤ → CronError

pub data Result (A : Type 0) : Type 0 where
  ok : A → Result A
  err : CronError → Result A

infixl 5 ◌>>=◌
abbrev pub ◌>>=◌ : {A B : Type 0} → Result A → (A → Result B) → Result B
ok a >>= f = f a
err e >>= f = err e

-- `set.has(n)` and `set.add(n)`
abbrev pub member : ℕ → List ℕ → Bool
member n values = any (λ m. nat_beq m n) values

unfoldable pub add : ℕ → List ℕ → List ℕ
add n values = if member n values then values else values ++ n ∷ []

-- `isRestrictedDayField`
unfoldable pub is_restricted_day_field : Text → Bool
is_restricted_day_field [] = true
is_restricted_day_field (c ∷ s) = not (nat_beq c b'*')

unfoldable pub parse_int_strict : Text → Result ℤ
parse_int_strict raw = elim (parse_int raw) [ none ↦ err (not_an_integer raw) | some n ↦ ok n ]

unfoldable pub in_range : (lo hi : ℕ) → ℤ → Result ℕ
in_range lo hi (negsuc n) = err (out_of_range (negsuc n))
in_range lo hi (pos n) = if ltb n lo || ltb hi n then err (out_of_range (pos n)) else ok n

-- `for (let i = start; i <= stop; i += step) values.add(check(i))`, with fuel for each round.
unfoldable pub stride : ℕ → (ℕ → Result ℕ) → (i stop step : ℕ) → List ℕ → Result (List ℕ)
stride zero check i stop step values = ok values
stride (suc fuel) check i stop step values =
    let next = check i >>= λ n. stride fuel check (i + step) stop step (add n values) in
    if leb i stop then next else ok values

-- The element of a list of parts, where `split` gives one.
abbrev pub part_at : ℕ → List Text → Text
part_at n [] = []
part_at zero (p ∷ ps) = p
part_at (suc n) (p ∷ ps) = part_at n ps

-- `step <= 0` is refused.
unfoldable pub positive_step : ℤ → Result ℕ
positive_step (negsuc n) = err (bad_step (negsuc n))
positive_step (pos zero) = err (bad_step (pos 0))
positive_step (pos (suc n)) = ok (suc n)

module _ (lo hi : ℕ) where
  abbrev pub checked : ℕ → Result ℕ
  checked n = in_range lo hi (pos n)

  unfoldable pub step_start : Text → Result ℕ
  step_start range =
      if text_beq range (codes "*") then ok lo else parse_int_strict range >>= in_range lo hi

  -- The loop body of `parseField`, a branch for each form of a part.
  unfoldable pub parse_every : List ℕ → Result (List ℕ)
  parse_every values = stride (suc hi) ok lo hi 1 values

  unfoldable pub parse_stepped : Text → List ℕ → Result (List ℕ)
  parse_stepped part values = do
    n ← parse_int_strict (part_at 1 (split_on b'/' part))
    step ← positive_step n
    start ← step_start (part_at 0 (split_on b'/' part))
    stride (suc hi) checked start hi step values

  unfoldable pub parse_range : Text → List ℕ → Result (List ℕ)
  parse_range part values = do
    a ← parse_int_strict (part_at 0 (split_on b'-' part))
    start ← in_range lo hi a
    b ← parse_int_strict (part_at 1 (split_on b'-' part))
    end ← in_range lo hi b
    stride (suc hi) checked start end 1 values

  unfoldable pub parse_value : Text → List ℕ → Result (List ℕ)
  parse_value part values = do a ← parse_int_strict part; n ← in_range lo hi a; ok (add n values)

  unfoldable pub parse_part : Text → List ℕ → Result (List ℕ)
  parse_part part values =
      if text_beq part (codes "*")
      then parse_every values
      else if includes b'/' part
      then parse_stepped part values
      else if includes b'-' part
      then parse_range part values
      else parse_value part values

  unfoldable pub parse_parts : List Text → List ℕ → Result (List ℕ)
  parse_parts [] values = ok values
  parse_parts (part ∷ parts) values = parse_part part values >>= parse_parts parts

  unfoldable pub parse_field : Text → Result (List ℕ)
  parse_field field = parse_parts (split_on b',' field) []

pub record ParsedCron : Type 0 where
  pub minutes : List ℕ
  pub hours : List ℕ
  pub days_of_month : List ℕ
  pub months : List ℕ
  pub days_of_week : List ℕ
  pub days_of_month_restricted : Bool
  pub days_of_week_restricted : Bool

unfoldable pub parse_fields : List Text → Result ParsedCron
parse_fields (m ∷ h ∷ dom ∷ mon ∷ dow ∷ []) = do
  minutes ← parse_field 0 59 m
  hours ← parse_field 0 23 h
  days_of_month ← parse_field 1 31 dom
  months ← parse_field 1 12 mon
  days_of_week ← parse_field 0 6 dow
  ok (record {
    minutes = minutes;
    hours = hours;
    days_of_month = days_of_month;
    months = months;
    days_of_week = days_of_week;
    days_of_month_restricted = is_restricted_day_field dom;
    days_of_week_restricted = is_restricted_day_field dow;
  })
parse_fields _ = err wrong_field_count

unfoldable pub parse_cron_expression : Text → Result ParsedCron
parse_cron_expression expr = parse_fields (split_spaces (trim expr))
