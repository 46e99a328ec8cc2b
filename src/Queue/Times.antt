-- ===== src/Queue/Times.antt =====
-- How often a name stands in a list, for the messages, leases and dead letters of the queue.
use celsian.Base.{
  ℕ, zero, suc, ◌+◌, ◌≡◌, ◌≢◌, refl, inl, inr, Bool, none, some, List, [], ◌∷◌, ◌++◌, map, arith,
  Text, ◌==◌, text_eq, text_beq_iff, drop, take, Bool-cases, Option-cases, if◌then◌else◌,
}
use celsian.Map
use celsian.Map.{Map, keys}
use celsian.Queue.{splice_first}

-- How often a text stands in a list.
unfoldable pub times : Text → List Text → ℕ
times k [] = 0
times k (x ∷ xs) = if x == k then times k xs + 1 else times k xs

module _ {ℓ} {A : Type ℓ} (name : A → Text) (k : Text) where
  pub times-map-append :
      (xs ys : List A)
      → times k (map name (xs ++ ys)) ≡ times k (map name xs) + times k (map name ys)
  unfolding times
  times-map-append [] ys = omega arith
  times-map-append (x ∷ xs) ys = ground (arith, times-map-append xs ys)

  pub times-map-one : (x : A) → times k (map name (x ∷ [])) ≡ (if name x == k then 1 else 0)
  unfolding times
  times-map-one x = ground arith

  pub times-splice_first :
      (p : A → Bool) (xs : List A) {y : A} {ys : List A}
      → splice_first p xs ≡ some (y, ys)
      → times k (map name xs) ≡ times k (map name ys) + (if name y == k then 1 else 0)
  unfolding times splice_first
  times-splice_first p [] e = cc
  times-splice_first p (x ∷ xs) e = elim (Bool-cases (p x)) [
    | inl hit ↦ ground arith
    | inr miss ↦ elim (Option-cases (splice_first p xs)) [
      | inl n ↦ ground arith
      | inr ((z, zs), f) ↦ ground (arith, times-splice_first p xs f)
    ]
  ]

  pub times-take-drop :
      (n : ℕ) (xs : List A)
      → times k (map name xs) ≡ times k (map name (take n xs)) + times k (map name (drop n xs))
  unfolding times
  times-take-drop zero xs = omega arith
  times-take-drop (suc n) [] = omega arith
  times-take-drop (suc n) (x ∷ xs) = ground (arith, times-take-drop n xs)

module _ {V : Type 0} (k : Text) where
  pub times-keys-delete :
      (id : Text) (m : Map Text V)
      → Map.get id m ≢ none
      → times k (keys m) ≡ times k (keys (Map.delete id m)) + (if id == k then 1 else 0)
  unfolding times Map.get Map.delete
  times-keys-delete id [] h = absurd (h refl)
  times-keys-delete id ((j, v) ∷ m) h = ground (arith, text_beq_iff j id, times-keys-delete id m)

  pub times-keys-set_new :
      (id : Text) (v : V) (m : Map Text V)
      → times id (keys m) ≡ 0
      → times k (keys (Map.set id v m)) ≡ times k (keys m) + (if id == k then 1 else 0)
  unfolding times Map.set
  times-keys-set_new id v [] h = ground arith
  times-keys-set_new id v ((j, w) ∷ m) h = ground (arith, times-keys-set_new id v m)

  pub times-keys-set_old :
      (id : Text) (v : V) (m : Map Text V)
      → Map.get id m ≢ none
      → times k (keys (Map.set id v m)) ≡ times k (keys m)
  unfolding times Map.set Map.get
  times-keys-set_old id v [] h = absurd (h refl)
  times-keys-set_old id v ((j, w) ∷ m) h = ground (arith, times-keys-set_old id v m)
