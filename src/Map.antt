-- ===== src/Map.antt =====
-- JavaScript's `Map`, which the stores, queues, tables and caches of the program are built on: an
-- association list in the order of insertion. A write to a key that is there keeps its place.
pub mod Laws
use celsian.Base.{
  ℕ, Bool, true, false, Option, none, some, List, [], ◌∷◌, map, HasEq, ◌==◌, if◌then◌else◌, length,
}

abbrev pub Map : Type 0 → Type 0 → Type 0
Map K V = List (K × V)

module _ {K V : Type 0} ⦃e : HasEq K⦄ where
  unfoldable pub get : K → Map K V → Option V
  get k [] = none
  get k ((j, v) ∷ m) = if j == k then some v else get k m

  unfoldable pub has : K → Map K V → Bool
  has k [] = false
  has k ((j, v) ∷ m) = if j == k then true else has k m

  unfoldable pub set : K → V → Map K V → Map K V
  set k v [] = (k, v) ∷ []
  set k v ((j, w) ∷ m) = if j == k then (j, v) ∷ m else (j, w) ∷ set k v m

  unfoldable pub delete : K → Map K V → Map K V
  delete k [] = []
  delete k ((j, v) ∷ m) = if j == k then m else (j, v) ∷ delete k m

abbrev pub keys : {K V : Type 0} → Map K V → List K
keys = map (λ p. p.0)
