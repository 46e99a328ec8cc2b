-- ===== src/RateLimit/Address/Groups.antt =====
-- packages/rate-limit/src/ip.ts: the printed form of an IPv6 address.
use celsian.Base.{
  ℕ, ◌+◌, ◌*◌, ◌/◌, ◌%◌, ◌<◌, ◌≡◌, refl, ap, ◌∙◌, true, false, ◌&&◌, none, some, List, [], ◌∷◌,
  ◌++◌, append_assoc, append-nil, Text, codes, nat_beq, length, split_on, All, arith,
}
use celsian.Words.{to_lower, join_with}
use celsian.Words.Pieces.{Lacks, split_on_whole, split_on-append}
use celsian.Cron.Words.{is_space, is_digit, includes}
use celsian.RateLimit.Address.{
  version6, without_port, normalize, parse_ipv4, split_double, split_double_from, hex_value,
  hex_number, group, groups_of, to_groups, parse_ipv6, parse_ip, hex_char, hex_group, hex_groups,
  format_ip,
}
use celsian.RateLimit.Address.Printed.{normalize_same}

-- A hexadecimal digit as it is printed.
record IsHex (d c : ℕ) : Type 0 where
  value : hex_value c ≡ some d
  spaceless : is_space c ≡ false
  no_colon : nat_beq c b':' ≡ false
  no_dot : nat_beq c b'.' ≡ false
  no_bracket : nat_beq c b'[' ≡ false
  no_upper : nat_beq b':' (to_lower c) ≡ false

hex_char-IsHex : (d : ℕ) → d < 16 → IsHex d (hex_char d)
unfolding hex_value is_digit is_space
hex_char-IsHex d h = record {
  value = ground arith;
  spaceless = ground arith;
  no_colon = ground arith;
  no_dot = ground arith;
  no_bracket = ground arith;
  no_upper = ground arith;
}

group_lem :
    (p q r s a b c d : ℕ)
    → IsHex p a
    → IsHex q b
    → IsHex r c
    → IsHex s d
    → group (a ∷ b ∷ c ∷ d ∷ []) ≡ some (((p * 16 + q) * 16 + r) * 16 + s)
unfolding group hex_number
group_lem p q r s a b c d ha hb hc hd =
    rw (ha.value, hex_number)
      (rw (hb.value, hex_number)
        (rw (hc.value, hex_number) (rw (hd.value, hex_number) (ap some (omega arith)))))

group-hex_group : (g : ℕ) → g < 65536 → group (hex_group g) ≡ some g
group-hex_group g h =
    group_lem (g / 4096 % 16) (g / 256 % 16) (g / 16 % 16) (g % 16) _ _ _ _
      (hex_char-IsHex _ (omega arith)) (hex_char-IsHex _ (omega arith))
      (hex_char-IsHex _ (omega arith)) (hex_char-IsHex _ (omega arith))
    ∙ ap some (omega arith)

abbrev pub AreGroups : List ℕ → Type 0
AreGroups = All (λ g. g < 65536)

groups_of-hex_groups : (gs : List ℕ) → AreGroups gs → groups_of (hex_groups gs) ≡ some gs
unfolding groups_of
groups_of-hex_groups [] h = refl
groups_of-hex_groups (g ∷ gs) (h, hs) =
    rw (group-hex_group g h, groups_of) (rw (groups_of-hex_groups gs hs) refl)

abbrev joined : List ℕ → Text
joined gs = join_with (codes ":") (hex_groups gs)

-- What holds of a printed digit and of the colon holds of the whole text.
module _ (P : ℕ → Type 0) (digit : (d c : ℕ) → IsHex d c → P c) (colon : P b':') where
  All-hex_group : (g : ℕ) → All P (hex_group g)
  All-hex_group g = (
    digit _ _ (hex_char-IsHex (g / 4096 % 16) (omega arith)),
    (
      digit _ _ (hex_char-IsHex (g / 256 % 16) (omega arith)),
      (
        digit _ _ (hex_char-IsHex (g / 16 % 16) (omega arith)),
        (digit _ _ (hex_char-IsHex (g % 16) (omega arith)), tt),
      ),
    ),
  )

  All-joined : (gs : List ℕ) → All P (joined gs)
  unfolding join_with
  All-joined [] = tt
  All-joined (g ∷ []) = All-hex_group g
  All-joined (g ∷ g' ∷ gs) =
      let (a, (b, (c, (d, _)))) = All-hex_group g in
      (a, (b, (c, (d, (colon, All-joined (g' ∷ gs))))))

hex_group-Lacks : (g : ℕ) → Lacks b':' (hex_group g)
hex_group-Lacks g = (
  (hex_char-IsHex (g / 4096 % 16) (omega arith)).no_colon,
  (
    (hex_char-IsHex (g / 256 % 16) (omega arith)).no_colon,
    (
      (hex_char-IsHex (g / 16 % 16) (omega arith)).no_colon,
      ((hex_char-IsHex (g % 16) (omega arith)).no_colon, tt),
    ),
  ),
)

split-joined : (g : ℕ) (gs : List ℕ) → split_on b':' (joined (g ∷ gs)) ≡ hex_groups (g ∷ gs)
unfolding join_with
split-joined g [] = split_on_whole b':' (hex_group g) (hex_group-Lacks g)
split-joined g (g' ∷ gs) =
    split_on-append b':' (hex_group g) (joined (g' ∷ gs))
    ∙ rw (split_on_whole b':' (hex_group g) (hex_group-Lacks g), split-joined g' gs) refl

-- No two colons stand side by side.
HasNoDouble : Text → Type 0
HasNoDouble [] = Unit
HasNoDouble (c ∷ []) = Unit
HasNoDouble (c ∷ d ∷ s) = ((nat_beq c b':' && nat_beq d b':') ≡ false) × HasNoDouble (d ∷ s)

split_double_whole : (cur s : Text) → HasNoDouble s → split_double_from cur s ≡ (cur ++ s) ∷ []
unfolding split_double_from HasNoDouble
split_double_whole cur [] h = rw append-nil refl
split_double_whole cur (c ∷ []) h = refl
split_double_whole cur (c ∷ d ∷ s) (h, hs) =
    rw h (split_double_whole (cur ++ c ∷ []) (d ∷ s) hs ∙ rw append_assoc refl)

after_digit : (c : ℕ) (s : Text) → nat_beq c b':' ≡ false → HasNoDouble s → HasNoDouble (c ∷ s)
unfolding HasNoDouble
after_digit c [] h hs = tt
after_digit c (d ∷ s) h hs = (rw h refl, hs)

after_colon :
    (c : ℕ) (s : Text) → nat_beq c b':' ≡ false → HasNoDouble (c ∷ s) → HasNoDouble (b':' ∷ c ∷ s)
unfolding HasNoDouble
after_colon c s h hs = (h, hs)

before_rest : (g : ℕ) (s : Text) → HasNoDouble s → HasNoDouble (hex_group g ++ s)
before_rest g s h = after_digit _ _ (hex_char-IsHex (g / 4096 % 16) (omega arith)).no_colon (
    after_digit _ _ (hex_char-IsHex (g / 256 % 16) (omega arith)).no_colon (
      after_digit _ _ (hex_char-IsHex (g / 16 % 16) (omega arith)).no_colon
        (after_digit _ _ (hex_char-IsHex (g % 16) (omega arith)).no_colon h)))

after_group :
    (g : ℕ) (s : Text) → HasNoDouble (hex_group g ++ s) → HasNoDouble (b':' ∷ hex_group g ++ s)
after_group g s h =
    after_colon (hex_char (g / 4096 % 16))
      (hex_char (g / 256 % 16) ∷ hex_char (g / 16 % 16) ∷ hex_char (g % 16) ∷ s)
      (hex_char-IsHex (g / 4096 % 16) (omega arith)).no_colon h

joined-HasNoDouble : (gs : List ℕ) → HasNoDouble (joined gs)
unfolding join_with HasNoDouble
joined-HasNoDouble [] = tt
joined-HasNoDouble (g ∷ []) = before_rest g [] tt
joined-HasNoDouble (g ∷ g' ∷ []) =
    before_rest g (b':' ∷ joined (g' ∷ [])) (after_group g' [] (joined-HasNoDouble (g' ∷ [])))
joined-HasNoDouble (g ∷ g' ∷ k ∷ gs) =
    before_rest g (b':' ∷ joined (g' ∷ k ∷ gs))
      (after_group g' (b':' ∷ joined (k ∷ gs)) (joined-HasNoDouble (g' ∷ k ∷ gs)))

spaceless : (d c : ℕ) → IsHex d c → is_space c ≡ false
spaceless d c h = h.spaceless

dotless : (d c : ℕ) → IsHex d c → nat_beq c b'.' ≡ false
dotless d c h = h.no_dot

includes_missing : (sep : ℕ) (s : Text) → Lacks sep s → includes sep s ≡ false
includes_missing sep [] h = refl
includes_missing sep (c ∷ s) (h, hs) = rw h (includes_missing sep s hs)

without_port_plain : (s : Text) → Lacks b'.' s → without_port s ≡ s
unfolding without_port
without_port_plain s h = rw (includes_missing b'.' s h) refl

joined-normalize :
    (g g' : ℕ) (gs : List ℕ) → normalize (joined (g ∷ g' ∷ gs)) ≡ joined (g ∷ g' ∷ gs)
unfolding join_with is_space
joined-normalize g g' gs =
    normalize_same _ _ (All-joined (λ c. is_space c ≡ false) spaceless refl (g ∷ g' ∷ gs))
      (hex_char-IsHex (g / 4096 % 16) (omega arith)).no_bracket
      (hex_char-IsHex (g / 4096 % 16) (omega arith)).no_upper
      (without_port_plain (joined (g ∷ g' ∷ gs))
        (All-joined (λ c. nat_beq c b'.' ≡ false) dotless refl (g ∷ g' ∷ gs)))

no_ipv4 : (s : Text) → Lacks b'.' s → parse_ipv4 s ≡ none
unfolding parse_ipv4
no_ipv4 s h = rw (split_on_whole b'.' s h) refl

has_colon : (g : ℕ) (s : Text) → includes b':' (hex_group g ++ b':' ∷ s) ≡ true
has_colon g s =
    rw
      (
        (hex_char-IsHex (g / 4096 % 16) (omega arith)).no_colon,
        (hex_char-IsHex (g / 256 % 16) (omega arith)).no_colon,
        (hex_char-IsHex (g / 16 % 16) (omega arith)).no_colon,
        (hex_char-IsHex (g % 16) (omega arith)).no_colon,
      )
      refl

parse_ipv6_single :
    (s : Text) (gs : List ℕ)
    → includes b':' s ≡ true
    → HasNoDouble s
    → to_groups s ≡ some gs
    → length gs ≡ 8
    → parse_ipv6 s ≡ some gs
unfolding parse_ipv6 split_double
parse_ipv6_single s gs colon plain read eight =
    rw (colon, split_double_whole [] s plain) (rw (read, eight) refl)

to_groups-joined :
    (g : ℕ) (gs : List ℕ) → AreGroups (g ∷ gs) → to_groups (joined (g ∷ gs)) ≡ some (g ∷ gs)
unfolding to_groups join_with
to_groups-joined g [] h = ap groups_of (split-joined g []) ∙ groups_of-hex_groups (g ∷ []) h
to_groups-joined g (g' ∷ gs) h =
    ap groups_of (split-joined g (g' ∷ gs)) ∙ groups_of-hex_groups (g ∷ g' ∷ gs) h

parse_ipv6-joined :
    (g g' : ℕ) (gs : List ℕ)
    → AreGroups (g ∷ g' ∷ gs)
    → length (g ∷ g' ∷ gs) ≡ 8
    → parse_ipv6 (joined (g ∷ g' ∷ gs)) ≡ some (g ∷ g' ∷ gs)
unfolding join_with
parse_ipv6-joined g g' gs h eight =
    parse_ipv6_single (joined (g ∷ g' ∷ gs)) (g ∷ g' ∷ gs) (has_colon g (joined (g' ∷ gs)))
      (joined-HasNoDouble (g ∷ g' ∷ gs)) (to_groups-joined g (g' ∷ gs) h) eight

pub parse-format6 :
    (gs : List ℕ)
    → AreGroups gs
    → length gs ≡ 8
    → parse_ip (format_ip (version6 gs)) ≡ some (version6 gs)
unfolding parse_ip format_ip
parse-format6 [] h eight = absurd (omega arith)
parse-format6 (g ∷ []) h eight = absurd (omega arith)
parse-format6 (g ∷ g' ∷ gs) h eight =
    rw
      (
        joined-normalize g g' gs,
        no_ipv4 (joined (g ∷ g' ∷ gs))
            (All-joined (λ c. nat_beq c b'.' ≡ false) dotless refl (g ∷ g' ∷ gs)),
        parse_ipv6-joined g g' gs h eight,
      )
      refl
