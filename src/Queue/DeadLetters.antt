-- ===== src/Queue/DeadLetters.antt =====
-- Listing the dead letters.
use mathlib.Core.List.{reverse-cons}
use celsian.Base.{
  ℕ, ◌-◌, ◌≤◌, ◌≡◌, refl, ap, ◌≢◌, ◌↔◌, ◌⊎◌, inl, inr, some, List, [], ◌∷◌, reverse, arith, length,
  length-append, length-drop, drop, nat_beq, Bool-cases,
}
use celsian.Queue.Types.{MemoryQueue}
use celsian.Queue.{list_dead_letters}

pub length-reverse {ℓ} : {A : Type ℓ} (xs : List A) → length (reverse xs) ≡ length xs
length-reverse [] = refl
length-reverse (x ∷ xs) =
    omega
      (arith, ap length (reverse-cons x xs), length-append (reverse xs) (x ∷ []), length-reverse xs)

nil_of_length {ℓ} : {A : Type ℓ} (xs : List A) → length xs ≤ 0 → xs ≡ []
nil_of_length [] h = refl
nil_of_length (x ∷ xs) h = absurd (omega arith)

module _ {I : Type 0} where
  -- `listDeadLetters(limit)` returns no more than `limit` entries exactly when the limit is positive
  -- or there are no dead letters: a limit of 0 lists them all.
  pub length-list_dead_letters-le_iff :
      (limit : ℕ) (q : MemoryQueue I)
      → (length (list_dead_letters (some limit) q) ≤ limit) ↔ ((limit ≢ 0) ⊎ (q.dead ≡ []))
  unfolding list_dead_letters
  length-list_dead_letters-le_iff limit q = elim (Bool-cases (nat_beq limit 0)) [
    | inl z ↦
        rw (z, length-reverse q.dead)
          (
            λ h. inr (nil_of_length q.dead (ground arith)),
            λ h. ground (arith, λ (e : q.dead ≡ []). ap length e),
          )
    | inr p ↦
        rw (p, length-reverse (drop (length q.dead - limit) q.dead))
          (λ h. inl (ground arith), λ h. omega (arith, length-drop (length q.dead - limit) q.dead))
  ]
