-- ===== src/RateLimit/Address/Canonical.antt =====
-- packages/rate-limit/src/ip.ts: `canonicalizeIp` names an address once.
use celsian.Base.{
  ℕ, zero, suc, ◌+◌, ◌-◌, ◌*◌, ◌^◌, ◌≤◌, ◌<◌, ◌≡◌, ◌↔◌, refl, sym, ap, ◌∙◌, inl, inr, Option, none,
  some, List, [], ◌∷◌, ◌++◌, Text, nat_beq, ltb, length, length-append, split_on, All-append,
  Bool-cases, Option-cases, subst, arith,
}
use celsian.Cron.Words.{is_digit, includes}
use celsian.RateLimit.Address.{
  ParsedIp, version4, version6, octet, octets, parse_ipv4, hex_value, hex_number, group, groups_of,
  to_groups, zeros, whole, both, from_halves, split_double, parse_ipv6, either_version, version6_of,
  parse_ip, format_ip, formatted, canonicalize_ip, normalize,
}
use celsian.RateLimit.Address.Printed.{parse-format4}
use celsian.RateLimit.Address.Groups.{AreGroups, parse-format6}

abbrev AllOf : {A : Type 0} → (A → Type 0) → Option A → Type 0
AllOf P none = Unit
AllOf P (some a) = P a

-- The addresses that there are.
abbrev pub IsIp : ParsedIp → Type 0
IsIp (version4 v) = v < 2 ^ 32
IsIp (version6 gs) = AreGroups gs × (length gs ≡ 8)

octet-le : (s : Text) → AllOf (λ n. n ≤ 255) (octet s)
unfolding octet
octet-le s = ground arith

-- A bound that grows with each octet.
abbrev grown : ℕ → List Text → ℕ
grown b [] = b
grown b (p ∷ ps) = grown (b * 256) ps

octets-lt : (ps : List Text) (r b : ℕ) → r < b → AllOf (λ v. v < grown b ps) (octets r ps)
unfolding octets
octets-lt [] r b h = h
octets-lt (p ∷ ps) r b h = elim (Option-cases (octet p)) [
  | inl bad ↦ rw (bad, octets) tt
  | inr (n, read) ↦
      let small : n ≤ 255 = rw read at (octet-le p) in
      rw (read, octets) (octets-lt ps (r * 256 + n) (b * 256) (omega arith))
]

four_octets-lt : (ps : List Text) → length ps ≡ 4 → AllOf (λ v. v < 2 ^ 32) (octets 0 ps)
four_octets-lt [] h = absurd (omega arith)
four_octets-lt (a ∷ []) h = absurd (omega arith)
four_octets-lt (a ∷ b ∷ []) h = absurd (omega arith)
four_octets-lt (a ∷ b ∷ c ∷ []) h = absurd (omega arith)
four_octets-lt (a ∷ b ∷ c ∷ d ∷ []) h = octets-lt (a ∷ b ∷ c ∷ d ∷ []) 0 1 (omega arith)
four_octets-lt (a ∷ b ∷ c ∷ d ∷ e ∷ ps) h = absurd (omega arith)

parse_ipv4-lt : (s : Text) → AllOf (λ v. v < 2 ^ 32) (parse_ipv4 s)
unfolding parse_ipv4
parse_ipv4-lt s = elim (Bool-cases (nat_beq (length (split_on b'.' s)) 4)) [
  | inl four ↦ rw four (four_octets-lt (split_on b'.' s) (ground arith))
  | inr other ↦ rw other tt
]

hex_value-lt : (c : ℕ) → AllOf (λ d. d < 16) (hex_value c)
unfolding hex_value is_digit
hex_value-lt c = ground arith

abbrev grown_hex : ℕ → Text → ℕ
grown_hex b [] = b
grown_hex b (c ∷ s) = grown_hex (b * 16) s

hex_number-lt : (s : Text) (r b : ℕ) → r < b → AllOf (λ v. v < grown_hex b s) (hex_number r s)
unfolding hex_number
hex_number-lt [] r b h = h
hex_number-lt (c ∷ s) r b h = elim (Option-cases (hex_value c)) [
  | inl bad ↦ rw (bad, hex_number) tt
  | inr (d, read) ↦
      let small : d < 16 = rw read at (hex_value-lt c) in
      rw (read, hex_number) (hex_number-lt s (r * 16 + d) (b * 16) (omega arith))
]

AllOf-weaken : (P Q : ℕ → Type 0) (o : Option ℕ) → ((n : ℕ) → P n → Q n) → AllOf P o → AllOf Q o
AllOf-weaken P Q none f h = tt
AllOf-weaken P Q (some n) f h = f n h

short_number-lt : (s : Text) → length s ≤ 4 → AllOf (λ g. g < 65536) (hex_number 0 s)
short_number-lt s h =
    AllOf-weaken _ _ (hex_number 0 s) (λ n p. omega (arith, grown_hex-le s h))
      (hex_number-lt s 0 1 (omega arith))
  where
    grown_hex-le : (s : Text) → length s ≤ 4 → grown_hex 1 s ≤ 65536
    grown_hex-le [] h = omega arith
    grown_hex-le (a ∷ []) h = omega arith
    grown_hex-le (a ∷ b ∷ []) h = omega arith
    grown_hex-le (a ∷ b ∷ c ∷ []) h = omega arith
    grown_hex-le (a ∷ b ∷ c ∷ d ∷ []) h = omega arith
    grown_hex-le (a ∷ b ∷ c ∷ d ∷ e ∷ s) h = absurd (omega arith)

group-lt : (s : Text) → AllOf (λ g. g < 65536) (group s)
unfolding group
group-lt [] = tt
group-lt (c ∷ s) = elim (Bool-cases (ltb (length s) 4)) [
  | inr long ↦ rw long tt
  | inl short ↦ rw short (short_number-lt (c ∷ s) (ground arith))
]

groups_of-AreGroups : (ps : List Text) → AllOf AreGroups (groups_of ps)
unfolding groups_of
groups_of-AreGroups [] = tt
groups_of-AreGroups (p ∷ ps) = elim (Option-cases (group p)) [
  | inl bad ↦ rw (bad, groups_of) tt
  | inr (g, read) ↦ elim (Option-cases (groups_of ps)) [
    | inl bad ↦ rw (read, bad, groups_of) tt
    | inr (gs, others) ↦
        let small : g < 65536 = rw read at (group-lt p) in
        let rest : AreGroups gs = rw others at (groups_of-AreGroups ps) in
        rw (read, others, groups_of) (small, rest)
  ]
]

to_groups-AreGroups : (s : Text) → AllOf AreGroups (to_groups s)
unfolding to_groups
to_groups-AreGroups [] = tt
to_groups-AreGroups (c ∷ s) = groups_of-AreGroups (split_on b':' (c ∷ s))

abbrev IsV6 : List ℕ → Type 0
IsV6 gs = AreGroups gs × (length gs ≡ 8)

zeros-AreGroups : (n : ℕ) → AreGroups (zeros n)
zeros-AreGroups zero = tt
zeros-AreGroups (suc n) = (omega arith, zeros-AreGroups n)

length-zeros : (n : ℕ) → length (zeros n) ≡ n
length-zeros zero = refl
length-zeros (suc n) = omega (arith, length-zeros n)

whole-IsV6 : (o : Option (List ℕ)) → AllOf AreGroups o → AllOf IsV6 (whole o)
whole-IsV6 none h = tt
whole-IsV6 (some gs) h = elim (Bool-cases (nat_beq (length gs) 8)) [
  | inl eight ↦ rw eight (h, ground arith)
  | inr other ↦ rw other tt
]

both-IsV6 : (o t : Option (List ℕ)) → AllOf AreGroups o → AllOf AreGroups t → AllOf IsV6 (both o t)
both-IsV6 none t h k = tt
both-IsV6 (some gs) none h k = tt
both-IsV6 (some gs) (some hs) h k = elim (Bool-cases (ltb 8 (length gs + length hs))) [
  | inl long ↦ rw long tt
  | inr fits ↦
      let n = 8 - (length gs + length hs) in
      rw fits (
        All-append (λ g. g < 65536) gs (zeros n ++ hs) h
            (All-append (λ g. g < 65536) (zeros n) hs (zeros-AreGroups n) k),
        ground
            (arith, length-append gs (zeros n ++ hs), length-append (zeros n) hs, length-zeros n),
      )
]

from_halves-IsV6 : (ps : List Text) → AllOf IsV6 (from_halves ps)
from_halves-IsV6 [] = tt
from_halves-IsV6 (a ∷ []) = whole-IsV6 (to_groups a) (to_groups-AreGroups a)
from_halves-IsV6 (a ∷ b ∷ []) =
    both-IsV6 (to_groups a) (to_groups b) (to_groups-AreGroups a) (to_groups-AreGroups b)
from_halves-IsV6 (a ∷ b ∷ c ∷ ps) = tt

parse_ipv6-IsV6 : (s : Text) → AllOf IsV6 (parse_ipv6 s)
unfolding parse_ipv6
parse_ipv6-IsV6 s = elim (Bool-cases (includes b':' s)) [
  | inl colon ↦ rw colon (from_halves-IsV6 (split_double s))
  | inr bare ↦ rw bare tt
]

either_version-IsIp :
    (v4 : Option ℕ) (v6 : Option (List ℕ))
    → AllOf (λ v. v < 2 ^ 32) v4
    → AllOf IsV6 v6
    → AllOf IsIp (either_version v4 (version6_of v6))
either_version-IsIp (some v) v6 h k = h
either_version-IsIp none none h k = tt
either_version-IsIp none (some gs) h k = k

parse_ip-IsIp : (raw : Text) → AllOf IsIp (parse_ip raw)
unfolding parse_ip
parse_ip-IsIp raw =
    either_version-IsIp (parse_ipv4 (normalize raw)) (parse_ipv6 (normalize raw))
      (parse_ipv4-lt (normalize raw)) (parse_ipv6-IsV6 (normalize raw))

-- What `formatIp` prints of an address, `parseIp` reads back.
pub parse-format : (ip : ParsedIp) → IsIp ip → parse_ip (format_ip ip) ≡ some ip
parse-format (version4 v) h = parse-format4 v h
parse-format (version6 gs) (h, eight) = parse-format6 gs h eight

same_ip : (o t : Option ParsedIp) → AllOf IsIp o → AllOf IsIp t → formatted o ≡ formatted t → o ≡ t
same_ip none none h k e = refl
same_ip none (some q) h k e = cc
same_ip (some p) none h k e = cc
same_ip (some p) (some q) h k e = sym (parse-format p h) ∙ ap parse_ip (cc e) ∙ parse-format q k

-- Two texts have one canonical form exactly when they are read as one address, or neither is an
-- address; and the canonical form of a text is its own canonical form.
pub canonicalize_ip_lem :
    (s t : Text)
    → ((canonicalize_ip s ≡ canonicalize_ip t) ↔ (parse_ip s ≡ parse_ip t))
      × ((c : Text) → canonicalize_ip s ≡ some c → canonicalize_ip c ≡ some c)
unfolding canonicalize_ip
canonicalize_ip_lem s t = (
  (same_ip (parse_ip s) (parse_ip t) (parse_ip-IsIp s) (parse_ip-IsIp t), ap formatted),
  λ c e. fixed (parse_ip s) (parse_ip-IsIp s) c e,
)
  where
    fixed :
        (o : Option ParsedIp)
        → AllOf IsIp o
        → (c : Text) → formatted o ≡ some c
        → formatted (parse_ip c) ≡ some c
    fixed none h c e = cc
    fixed (some ip) h c e =
        subst (λ x. formatted (parse_ip x) ≡ some x) (cc e) (ap formatted (parse-format ip h))
