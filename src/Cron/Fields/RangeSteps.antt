-- ===== src/Cron/Fields/RangeSteps.antt =====
-- A part with a range and a step, as in `1-5/2`.
use celsian.Base.{
  split_from, split_on, ℕ, ◌-◌, ◌*◌, ◌+◌, ◌≡◌, ◌≢◌, refl, ap, ◌∙◌, sym, true, false, some, List, [],
  ◌∷◌, ◌++◌, Text, codes, text_beq, arith, All, append_assoc, append-nil, All-append,
}
use celsian.Base.Int.{pos}
use celsian.Cron.Words.{includes, is_digit, digits_from, parse_int}
use celsian.Cron.Fields.{part_at, step_start, parse_int_strict, parse_stepped, parse_part}

abbrev pub IsDigits : Text → Type 0
IsDigits = All (λ c. is_digit c ≡ true)

abbrev pub Lacks : ℕ → Text → Type 0
Lacks sep = All (λ c. c ≢ sep)

split_from_first :
    (sep : ℕ) (cur a s : Text)
    → Lacks sep a
    → split_from sep cur (a ++ sep ∷ s) ≡ (cur ++ a) ∷ split_from sep [] s
unfolding split_from
split_from_first sep cur [] s h = ground (arith, append-nil cur)
split_from_first sep cur (c ∷ a) s (n, h) =
    ground (arith, split_from_first sep (cur ++ c ∷ []) a s h, append_assoc cur (c ∷ []) a)

includes-append : (c : ℕ) (a s : Text) → includes c (a ++ c ∷ s) ≡ true
includes-append c [] s = ground arith
includes-append c (d ∷ a) s = ground (arith, includes-append c a s)

digits_from-append :
    (n : ℕ) (a b : Text) → IsDigits a → digits_from n (a ++ b'-' ∷ b) ≡ digits_from n a
unfolding digits_from
digits_from-append n [] b h = unfold is_digit in refl
digits_from-append n (c ∷ a) b (d, h) = rw d (digits_from-append (n * 10 + (c - b'0')) a b h)

-- A digit is neither a space nor a sign.
parse_int_of_digit :
    (c : ℕ) (s : Text)
    → is_digit c ≡ true
    → parse_int (c ∷ s) ≡ some (pos (digits_from (c - b'0') s))
unfolding parse_int
parse_int_of_digit c s d = ground arith

Lacks-digits : (a : Text) → IsDigits a → Lacks b'/' a
unfolding is_digit
Lacks-digits [] h = tt
Lacks-digits (c ∷ a) (d, h) = (ground arith, Lacks-digits a h)

-- The first two parts at a slash, with digits and more before it.
parts_at_slash :
    (x s : Text)
    → Lacks b'/' x
    → (part_at 0 (split_on b'/' (x ++ b'/' ∷ s)) ≡ x)
      × (part_at 1 (split_on b'/' (x ++ b'/' ∷ s)) ≡ part_at 0 (split_on b'/' s))
unfolding split_on
parts_at_slash x s h = (
  ap (part_at 0) (split_from_first b'/' [] x s h),
  ap (part_at 1) (split_from_first b'/' [] x s h),
)

digit_not_star : (c : ℕ) (s : Text) → is_digit c ≡ true → text_beq (c ∷ s) (codes "*") ≡ false
unfolding is_digit text_beq
digit_not_star c s d = ground arith

module _ (lo hi c : ℕ) (a b s : Text) (old : List ℕ) (d : IsDigits (c ∷ a)) (l : Lacks b'/' b) where
  abbrev long : Text
  long = (c ∷ a) ++ b'-' ∷ b

  Lacks-long : Lacks b'/' long
  Lacks-long = All-append _ (c ∷ a) (b'-' ∷ b) (Lacks-digits (c ∷ a) d) (ground arith, l)

  step_start-long : step_start lo hi long ≡ step_start lo hi (c ∷ a)
  unfolding step_start parse_int_strict
  step_start-long = ground (
    arith,
    digit_not_star c (a ++ b'-' ∷ b) d.0,
    digit_not_star c a d.0,
    parse_int_of_digit c (a ++ b'-' ∷ b) d.0,
    parse_int_of_digit c a d.0,
    digits_from-append (c - b'0') a b d.1,
  )

  parse_stepped-long :
      parse_stepped lo hi (long ++ b'/' ∷ s) old ≡ parse_stepped lo hi ((c ∷ a) ++ b'/' ∷ s) old
  unfolding parse_stepped
  parse_stepped-long =
      let (first, second) = parts_at_slash long s Lacks-long in
      let (first', second') = parts_at_slash (c ∷ a) s (Lacks-digits (c ∷ a) d) in
      rw (first, second, first', second', step_start-long) refl

-- A part that begins with a digit and holds a slash is a stepped one.
parse_part_of_slash :
    (lo hi c : ℕ) (x s : Text) (old : List ℕ)
    → is_digit c ≡ true
    → parse_part lo hi ((c ∷ x) ++ b'/' ∷ s) old ≡ parse_stepped lo hi ((c ∷ x) ++ b'/' ∷ s) old
unfolding parse_part is_digit text_beq
parse_part_of_slash lo hi c x s old d = ground (arith, includes-append b'/' (c ∷ x) s)

-- The end of a range is ignored when a step follows it: `a-b/s` stands for the same values as `a/s`,
-- from `a` to the top of the field, for all digits `a` and any `b` without a slash.
pub parse_part_range_step :
    (lo hi c : ℕ) (a b s : Text) (old : List ℕ)
    → IsDigits (c ∷ a)
    → Lacks b'/' b
    → parse_part lo hi ((c ∷ (a ++ b'-' ∷ b)) ++ b'/' ∷ s) old
      ≡ parse_part lo hi ((c ∷ a) ++ b'/' ∷ s) old
parse_part_range_step lo hi c a b s old (d, h) l =
    parse_part_of_slash lo hi c (a ++ b'-' ∷ b) s old d
    ∙ parse_stepped-long lo hi c a b s old (d, h) l
    ∙ sym (parse_part_of_slash lo hi c a s old d)
