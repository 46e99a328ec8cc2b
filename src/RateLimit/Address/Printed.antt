-- ===== src/RateLimit/Address/Printed.antt =====
-- packages/rate-limit/src/ip.ts: `formatIp` prints what `parseIp` reads.
use celsian.Base.{
  ℕ, zero, suc, ◌+◌, ◌*◌, ◌/◌, ◌%◌, ◌^◌, ◌<◌, ◌≡◌, refl, ap, ◌∙◌, inl, inr, Bool, true, false, ◌&&◌,
  Option, none, some, [], ◌∷◌, ◌++◌, Text, nat_beq, nat_beq_iff, decimal, split_on, All, All-append,
  Bool-cases, arith,
}
use celsian.Words.{lower_case, to_lower, join_with}
use celsian.Words.Pieces.{Lacks, HasNoSpace, split_on_whole, split_on-append, trim_same}
use celsian.Cache.Store.{starts_with}
use celsian.Cron.Words.{is_space, is_digit, digits_from, includes}
use celsian.RateLimit.Address.{
  version4, all_digits, is_short_number, bracketed, without_port, mapped, normalize, octet, octets,
  parse_ipv4, parse_ip, format_ip,
}

all_below : ℕ → (ℕ → Bool) → Bool
all_below zero p = true
all_below (suc n) p = p n && all_below n p

all_below_lem : (n : ℕ) (p : ℕ → Bool) (x : ℕ) → all_below n p ≡ true → x < n → p x ≡ true
unfolding all_below
all_below_lem zero p x h lt = absurd (omega arith)
all_below_lem (suc n) p x h lt = ground (arith, all_below_lem n p x)

abbrev is_number : Option ℕ → ℕ → Bool
is_number none n = false
is_number (some m) n = nat_beq m n

abbrev reads_back : ℕ → Bool
reads_back n = is_number (octet (decimal n)) n && all_digits (decimal n)

octet_table : all_below 256 reads_back ≡ true
unfolding all_below octet is_short_number is_digit digits_from decimal
octet_table = refl

abbrev Digits : Text → Type 0
Digits = All (λ c. is_digit c ≡ true)

all_digits_lem : (s : Text) → all_digits s ≡ true → Digits s
all_digits_lem [] h = tt
all_digits_lem (c ∷ s) h = ground (arith, all_digits_lem s)

-- A printed octet.
record IsOctet (n : ℕ) (s : Text) : Type 0 where
  read : octet s ≡ some n
  digits : Digits s

is_number_lem : (o : Option ℕ) (n : ℕ) → is_number o n ≡ true → o ≡ some n
is_number_lem none n h = cc
is_number_lem (some m) n h = ap some ((nat_beq_iff m n).0 h)

and_parts : (a b : Bool) → (a && b) ≡ true → (a ≡ true) × (b ≡ true)
and_parts true b h = (refl, h)
and_parts false b h = cc

IsOctet-decimal : (n : ℕ) → n < 256 → IsOctet n (decimal n)
IsOctet-decimal n h =
    let (read, digits) =
      and_parts (is_number (octet (decimal n)) n) (all_digits (decimal n))
        (all_below_lem 256 reads_back n octet_table h) in
    record {
      read = is_number_lem (octet (decimal n)) n read;
      digits = all_digits_lem (decimal n) digits;
    }

not_bracketed : (c : ℕ) (s : Text) → nat_beq c b'[' ≡ false → bracketed (c ∷ s) ≡ none
unfolding bracketed
not_bracketed c s h = rw h

not_mapped : (c : ℕ) (s : Text) → nat_beq b':' (to_lower c) ≡ false → mapped (c ∷ s) ≡ none
unfolding mapped lower_case starts_with
not_mapped c s h = rw h

-- A text that is kept as it is: it begins as an address does, and holds no port.
pub normalize_same :
    (c : ℕ) (s : Text)
    → HasNoSpace (c ∷ s)
    → nat_beq c b'[' ≡ false
    → nat_beq b':' (to_lower c) ≡ false
    → without_port (c ∷ s) ≡ c ∷ s
    → normalize (c ∷ s) ≡ c ∷ s
unfolding normalize
normalize_same c s spaces square colon port =
    rw (trim_same (c ∷ s) spaces, not_bracketed c s square) (rw (port, not_mapped c s colon) refl)

module _ (P Q : ℕ → Type 0) (weaken : (c : ℕ) → P c → Q c) where
  pub All-weaken : (s : Text) → All P s → All Q s
  All-weaken [] h = tt
  All-weaken (c ∷ s) (h, hs) = (weaken c h, All-weaken s hs)

abbrev Of4 : ℕ → Type 0
Of4 c = (is_space c ≡ false) × (nat_beq c b':' ≡ false)

digit-Of4 : (c : ℕ) → is_digit c ≡ true → Of4 c
unfolding is_digit is_space
digit-Of4 c h = (ground arith, ground arith)

digit-lacks : (c : ℕ) → is_digit c ≡ true → nat_beq c b'.' ≡ false
unfolding is_digit
digit-lacks c h = ground arith

abbrev dotted : Text → Text → Text → Text → Text
dotted a b c d = a ++ b'.' ∷ (b ++ b'.' ∷ (c ++ b'.' ∷ d))

Digits-Lacks : (s : Text) → Digits s → Lacks b'.' s
Digits-Lacks = All-weaken (λ c. is_digit c ≡ true) (λ c. nat_beq c b'.' ≡ false) digit-lacks

split_dotted :
    (a b c d : Text)
    → Digits a
    → Digits b
    → Digits c
    → Digits d
    → split_on b'.' (dotted a b c d) ≡ a ∷ b ∷ c ∷ d ∷ []
split_dotted a b c d ha hb hc hd =
    rw
      (
        split_on-append b'.' a (b ++ b'.' ∷ (c ++ b'.' ∷ d)),
        split_on-append b'.' b (c ++ b'.' ∷ d),
        split_on-append b'.' c d,
        split_on_whole b'.' a (Digits-Lacks a ha),
        split_on_whole b'.' b (Digits-Lacks b hb),
        split_on_whole b'.' c (Digits-Lacks c hc),
        split_on_whole b'.' d (Digits-Lacks d hd),
      )
      refl

Digits-Of4 : (s : Text) → Digits s → All Of4 s
Digits-Of4 = All-weaken (λ c. is_digit c ≡ true) Of4 digit-Of4

dotted-Of4 : (a b c d : Text) → Digits a → Digits b → Digits c → Digits d → All Of4 (dotted a b c d)
unfolding is_space
dotted-Of4 a b c d ha hb hc hd =
    All-append Of4 a (b'.' ∷ b ++ b'.' ∷ (c ++ b'.' ∷ d)) (Digits-Of4 a ha) (
      (refl, refl),
      All-append Of4 b (b'.' ∷ (c ++ b'.' ∷ d)) (Digits-Of4 b hb) (
        (refl, refl),
        All-append Of4 c (b'.' ∷ d) (Digits-Of4 c hc) ((refl, refl), Digits-Of4 d hd),
      ),
    )

without_port_lem : (s : Text) → Lacks b':' s → without_port s ≡ s
unfolding without_port
without_port_lem s h = elim (Bool-cases (includes b'.' s)) [
  | inl dot ↦ rw (dot, split_on_whole b':' s h) refl
  | inr bare ↦ rw bare refl
]

Of4-normalize : (c : ℕ) (s : Text) → is_digit c ≡ true → All Of4 (c ∷ s) → normalize (c ∷ s) ≡ c ∷ s
unfolding is_digit
Of4-normalize c s digit h =
    normalize_same c s (All-weaken Of4 (λ x. is_space x ≡ false) (λ x p. p.0) (c ∷ s) h)
      (ground arith) (ground arith)
      (without_port_lem (c ∷ s)
        (All-weaken Of4 (λ x. nat_beq x b':' ≡ false) (λ x p. p.1) (c ∷ s) h))

dotted-normalize :
    (n : ℕ) (a b c d : Text)
    → IsOctet n a
    → Digits b
    → Digits c
    → Digits d
    → normalize (dotted a b c d) ≡ dotted a b c d
unfolding octet is_short_number
dotted-normalize n [] b c d ha hb hc hd = absurd (no_octet ha.read)
  where
    no_octet : ◌≡◌ {A = Option ℕ} none (some n) → ⊥
    no_octet h = cc
dotted-normalize n (x ∷ a) b c d ha hb hc hd =
    Of4-normalize x (a ++ b'.' ∷ (b ++ b'.' ∷ (c ++ b'.' ∷ d))) ha.digits.0
      (dotted-Of4 (x ∷ a) b c d ha.digits hb hc hd)

octets-dotted :
    (i j k l : ℕ) (a b c d : Text)
    → IsOctet i a
    → IsOctet j b
    → IsOctet k c
    → IsOctet l d
    → octets 0 (a ∷ b ∷ c ∷ d ∷ []) ≡ some (((i * 256 + j) * 256 + k) * 256 + l)
unfolding octets
octets-dotted i j k l a b c d ha hb hc hd =
    rw (ha.read, octets)
      (rw (hb.read, octets) (rw (hc.read, octets) (rw (hd.read, octets) (ap some (omega arith)))))

parse-dotted :
    (i j k l : ℕ) (a b c d : Text)
    → IsOctet i a
    → IsOctet j b
    → IsOctet k c
    → IsOctet l d
    → parse_ip (dotted a b c d) ≡ some (version4 (((i * 256 + j) * 256 + k) * 256 + l))
unfolding parse_ip parse_ipv4
parse-dotted i j k l a b c d ha hb hc hd =
    rw
      (
        dotted-normalize i a b c d ha hb.digits hc.digits hd.digits,
        split_dotted a b c d ha.digits hb.digits hc.digits hd.digits,
        octets-dotted i j k l a b c d ha hb hc hd,
      )
      refl

pub parse-format4 : (v : ℕ) → v < 2 ^ 32 → parse_ip (format_ip (version4 v)) ≡ some (version4 v)
unfolding format_ip join_with
parse-format4 v h =
    parse-dotted (v % 2 ^ 32 / 2 ^ 24 % 256) (v % 2 ^ 32 / 2 ^ 16 % 256) (v % 2 ^ 32 / 2 ^ 8 % 256)
      (v % 2 ^ 32 / 2 ^ 0 % 256) (decimal (v % 2 ^ 32 / 2 ^ 24 % 256))
      (decimal (v % 2 ^ 32 / 2 ^ 16 % 256)) (decimal (v % 2 ^ 32 / 2 ^ 8 % 256))
      (decimal (v % 2 ^ 32 / 2 ^ 0 % 256)) (IsOctet-decimal _ (omega arith))
      (IsOctet-decimal _ (omega arith)) (IsOctet-decimal _ (omega arith))
      (IsOctet-decimal _ (omega arith))
    ∙ ap (λ x. some (version4 x)) (omega arith)
