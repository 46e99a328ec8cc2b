-- ===== src/Cron/Words.antt =====
-- The text operations that packages/core/src/cron.ts takes from the language: `trim`, `split` and
-- `parseInt(raw, 10)`. A part of an expression that `split` does not give is the empty text here,
-- of which `parseInt` makes no number either.
use celsian.Base.{
  ℕ, ◌+◌, ◌-◌, ◌*◌, Bool, true, false, ◌&&◌, ◌||◌, Option, none, some, List, [], ◌∷◌, ◌++◌, reverse,
  Text, nat_beq, leb, any, if◌then◌else◌,
}
use celsian.Base.Int.{ℤ, pos, negate}

-- White space and line terminators, as `\s`, `trim` and `parseInt` take them.
unfoldable pub is_space : ℕ → Bool
is_space c =
    (leb 9 c && leb c 13)
    || nat_beq c 32
    || nat_beq c 160
    || nat_beq c 0x1680
    || (leb 0x2000 c && leb c 0x200a)
    || nat_beq c 0x2028
    || nat_beq c 0x2029
    || nat_beq c 0x202f
    || nat_beq c 0x205f
    || nat_beq c 0x3000
    || nat_beq c 0xfeff

unfoldable pub trim_start : Text → Text
trim_start [] = []
trim_start (c ∷ s) = let rest = trim_start s in if is_space c then rest else c ∷ s

unfoldable pub trim : Text → Text
unfolding trim_start is_space
trim s = reverse (trim_start (reverse (trim_start s)))

-- `s.split(/\s+/)`: a run of spaces separates two parts, also at the ends of the text.
pub split_spaces_from : (in_gap : Bool) → Text → Text → List Text
split_spaces_from in_gap cur [] = cur ∷ []
split_spaces_from in_gap cur (c ∷ s) =
    let skipped = split_spaces_from true cur s in
    let closed = cur ∷ split_spaces_from true [] s in
    let longer = split_spaces_from false (cur ++ c ∷ []) s in
    if is_space c then (if in_gap then skipped else closed) else longer

unfoldable pub split_spaces : Text → List Text
unfolding split_spaces_from is_space
split_spaces s = split_spaces_from false [] s

-- `s.includes(c)`
abbrev pub includes : ℕ → Text → Bool
includes c = any (λ d. nat_beq d c)

unfoldable pub is_digit : ℕ → Bool
is_digit c = leb b'0' c && leb c b'9'

-- The number of the digits that a text begins with, after those already read.
unfoldable pub digits_from : ℕ → Text → ℕ
digits_from n [] = n
digits_from n (c ∷ s) =
    let more = digits_from (n * 10 + (c - b'0')) s in if is_digit c then more else n

-- The unsigned part of `parseInt`: it wants one digit at least and ignores what follows.
unfoldable pub parse_digits : Text → Option ℕ
parse_digits [] = none
parse_digits (c ∷ s) = if is_digit c then some (digits_from (c - b'0') s) else none

abbrev pub negated : Option ℕ → Option ℤ
negated none = none
negated (some n) = some (negate (pos n))

abbrev pub positive : Option ℕ → Option ℤ
positive none = none
positive (some n) = some (pos n)

unfoldable pub parse_signed : Text → Option ℤ
parse_signed [] = none
parse_signed (c ∷ s) =
    if nat_beq c b'-'
    then negated (parse_digits s)
    else if nat_beq c b'+'
    then positive (parse_digits s)
    else positive (parse_digits (c ∷ s))

unfoldable pub parse_int : Text → Option ℤ
unfolding parse_signed parse_digits digits_from is_digit negate trim_start is_space
parse_int s = parse_signed (trim_start s)
