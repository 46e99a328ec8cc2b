-- ===== src/Words/Pieces.antt =====
-- Splitting and trimming texts whose characters are known.
use celsian.Base.{
  ℕ, ◌≡◌, refl, ap, ◌∙◌, inl, inr, false, [], ◌∷◌, ◌++◌, reverse, append_assoc, append-nil, Text,
  nat_beq, split_from, split_on, Bool-cases, All, arith,
}
use mathlib.Core.List.{reverse_aux, reverse-reverse}
use celsian.Cron.Words.{is_space, trim, trim_start}

abbrev pub Lacks : ℕ → Text → Type 0
Lacks sep = All (λ c. nat_beq c sep ≡ false)

pub split_from-append :
    (sep : ℕ) (cur p s : Text)
    → split_from sep cur (p ++ sep ∷ s) ≡ split_from sep cur p ++ split_from sep [] s
unfolding split_from
split_from-append sep cur [] s = ground (arith)
split_from-append sep cur (c ∷ p) s = elim (Bool-cases (nat_beq c sep)) [
  | inl e ↦ rw e (ap (λ x. cur ∷ x) (split_from-append sep [] p s))
  | inr e ↦ rw e (split_from-append sep (cur ++ c ∷ []) p s)
]

pub split_from_whole :
    (sep : ℕ) (cur p : Text) → Lacks sep p → split_from sep cur p ≡ (cur ++ p) ∷ []
unfolding split_from
split_from_whole sep cur [] h = rw append-nil
split_from_whole sep cur (c ∷ p) (h, hs) =
    rw h (split_from_whole sep (cur ++ c ∷ []) p hs ∙ rw append_assoc)

pub split_on_whole : (sep : ℕ) (p : Text) → Lacks sep p → split_on sep p ≡ p ∷ []
unfolding split_on
split_on_whole sep p h = split_from_whole sep [] p h

pub split_on-append :
    (sep : ℕ) (p s : Text) → split_on sep (p ++ sep ∷ s) ≡ split_on sep p ++ split_on sep s
unfolding split_on
split_on-append sep p s = split_from-append sep [] p s

abbrev pub HasNoSpace : Text → Type 0
HasNoSpace = All (λ c. is_space c ≡ false)

trim_start_same : (s : Text) → HasNoSpace s → trim_start s ≡ s
unfolding trim_start
trim_start_same [] h = refl
trim_start_same (c ∷ s) (h, hs) = rw h

reverse_aux-HasNoSpace : (s t : Text) → HasNoSpace s → HasNoSpace t → HasNoSpace (reverse_aux s t)
reverse_aux-HasNoSpace [] t h k = k
reverse_aux-HasNoSpace (c ∷ s) t (h, hs) k = reverse_aux-HasNoSpace s (c ∷ t) hs (h, k)

pub trim_same : (s : Text) → HasNoSpace s → trim s ≡ s
unfolding trim
trim_same s h =
    rw (trim_start_same s h, trim_start_same (reverse s) (reverse_aux-HasNoSpace s [] h tt))
      (reverse-reverse s)
