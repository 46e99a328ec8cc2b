-- ===== src/Map/Laws.antt =====
-- Laws of `Map`.
use celsian.Base.{
  true, ◌+◌, ◌≤◌, ◌≡◌, refl, ◌≢◌, false, none, some, [], ◌∷◌, ◌++◌, HasEq, ◌==◌, if◌then◌else◌,
  length, arith, All,
}
use celsian.Map.{Map, get, has, set, delete}

module _ {K V : Type 0} ⦃e : HasEq K⦄ where
  -- A key that no entry has.
  abbrev pub Absent : K → Map K V → Type 0
  Absent k = All (λ p. p.0 ≢ k)

  -- No key stands twice: what holds of every `Map`.
  abbrev pub Distinct : Map K V → Type 0
  Distinct [] = Unit
  Distinct ((k, v) ∷ m) = Absent k m × Distinct m

  pub get-set :
      (k j : K) (v : V) (m : Map K V) → get j (set k v m) ≡ (if k == j then some v else get j m)
  unfolding get set
  get-set k j v [] = refl
  get-set k j v ((i, w) ∷ m) =
      ground (arith, e.beq_iff k j, e.beq_iff i k, e.beq_iff i j, get-set k j v m)

  pub get_missing : (k : K) (m : Map K V) → Absent k m → get k m ≡ none
  unfolding get
  get_missing k [] h = refl
  get_missing k ((j, v) ∷ m) h = ground (arith, e.beq_iff j k, get_missing k m h.1)

  pub has-get : (k : K) (m : Map K V) → has k m ≡ false → get k m ≡ none
  unfolding get has
  has-get k [] h = refl
  has-get k ((j, v) ∷ m) h = ground (arith, has-get k m)

  pub has_found : (k : K) (v : V) (m : Map K V) → get k m ≡ some v → has k m ≡ true
  unfolding get has
  has_found k v [] h = cc
  has_found k v ((j, w) ∷ m) h = ground (arith, has_found k v m)

  pub has_missing : (k : K) (m : Map K V) → get k m ≡ none → has k m ≡ false
  unfolding get has
  has_missing k [] h = refl
  has_missing k ((j, w) ∷ m) h = ground (arith, has_missing k m)

  pub Absent-has : (k : K) (m : Map K V) → has k m ≡ false → Absent k m
  unfolding has
  Absent-has k [] h = tt
  Absent-has k ((j, v) ∷ m) h = ground (arith, e.beq_iff j k, Absent-has k m)

  pub Absent-get : (k : K) (m : Map K V) → get k m ≡ none → Absent k m
  unfolding get
  Absent-get k [] h = tt
  Absent-get k ((j, v) ∷ m) h = ground (arith, e.beq_iff j k, Absent-get k m)

  pub delete-Absent_other : (k j : K) (m : Map K V) → Absent j m → Absent j (delete k m)
  unfolding delete
  delete-Absent_other k j [] h = tt
  delete-Absent_other k j ((i, w) ∷ m) h = ground (arith, delete-Absent_other k j m h.1)

  pub delete-Absent : (k : K) (m : Map K V) → Distinct m → Absent k (delete k m)
  unfolding delete
  delete-Absent k [] h = tt
  delete-Absent k ((i, w) ∷ m) h = ground (arith, e.beq_iff i k, delete-Absent k m h.1)

  pub delete-Distinct : (k : K) (m : Map K V) → Distinct m → Distinct (delete k m)
  unfolding delete
  delete-Distinct k [] h = tt
  delete-Distinct k ((i, w) ∷ m) h =
      ground (arith, delete-Distinct k m h.1, delete-Absent_other k i m h.0)

  set-Absent_other : (k j : K) (v : V) (m : Map K V) → k ≢ j → Absent j m → Absent j (set k v m)
  unfolding set
  set-Absent_other k j v [] n h = (n, tt)
  set-Absent_other k j v ((i, w) ∷ m) n h = ground (arith, set-Absent_other k j v m n h.1)

  pub set-Distinct : (k : K) (v : V) (m : Map K V) → Distinct m → Distinct (set k v m)
  unfolding set
  set-Distinct k v [] h = (tt, tt)
  set-Distinct k v ((i, w) ∷ m) h =
      ground (
        arith,
        e.beq_iff i k,
        set-Distinct k v m h.1,
        λ (n : k ≢ i). set-Absent_other k i v m n h.0,
      )

  pub Absent-middle : (k i : K) (v : V) (m n : Map K V) → Absent k (m ++ (i, v) ∷ n) → i ≢ k
  Absent-middle k i v [] n h = h.0
  Absent-middle k i v ((j, w) ∷ m) n h = Absent-middle k i v m n h.1

  pub get-delete :
      (k j : K) (m : Map K V) → Distinct m → get j (delete k m) ≡ (if k == j then none else get j m)
  unfolding get delete
  get-delete k j [] h = ground arith
  get-delete k j ((i, w) ∷ m) h = ground (
    arith,
    e.beq_iff k j,
    e.beq_iff i k,
    e.beq_iff i j,
    get-delete k j m h.1,
    get_missing i m h.0,
  )

  pub delete_missing : (k : K) (m : Map K V) → Absent k m → delete k m ≡ m
  unfolding delete
  delete_missing k [] h = refl
  delete_missing k ((i, w) ∷ m) h = ground (arith, e.beq_iff i k, delete_missing k m h.1)

  pub set_missing : (k : K) (v : V) (m : Map K V) → Absent k m → set k v m ≡ m ++ (k, v) ∷ []
  unfolding set
  set_missing k v [] h = refl
  set_missing k v ((i, w) ∷ m) h = ground (arith, e.beq_iff i k, set_missing k v m h.1)

  pub length-set-le : (k : K) (v : V) (m : Map K V) → length (set k v m) ≤ length m + 1
  unfolding set
  length-set-le k v [] = omega arith
  length-set-le k v ((i, w) ∷ m) = ground (arith, length-set-le k v m)

  pub length-set_present :
      (k : K) (v : V) (m : Map K V) → get k m ≢ none → length (set k v m) ≡ length m
  unfolding get set
  length-set_present k v [] h = absurd (h refl)
  length-set_present k v ((i, w) ∷ m) h = ground (arith, length-set_present k v m)

  pub length-delete-le : (k : K) (m : Map K V) → length (delete k m) ≤ length m
  unfolding delete
  length-delete-le k [] = omega arith
  length-delete-le k ((i, w) ∷ m) = ground (arith, length-delete-le k m)

  pub length-delete_present :
      (k : K) (m : Map K V) → get k m ≢ none → length (delete k m) + 1 ≡ length m
  unfolding get delete
  length-delete_present k [] h = absurd (h refl)
  length-delete_present k ((i, w) ∷ m) h = ground (arith, length-delete_present k m)

  pub All-delete : (P : K × V → Type 0) (k : K) (m : Map K V) → All P m → All P (delete k m)
  unfolding delete
  All-delete P k [] h = tt
  All-delete P k ((i, w) ∷ m) h = ground (arith, All-delete P k m h.1)

  pub All-set :
      (P : K × V → Type 0) (k : K) (v : V) (m : Map K V) → P (k, v) → All P m → All P (set k v m)
  unfolding set
  All-set P k v [] p h = (p, tt)
  All-set P k v ((i, w) ∷ m) p h = ground (arith, e.beq_iff i k, All-set P k v m p h.1)

  pub All-get :
      (P : K × V → Type 0) (k : K) (v : V) (m : Map K V) → get k m ≡ some v → All P m → P (k, v)
  unfolding get
  All-get P k v [] g h = cc
  All-get P k v ((i, w) ∷ m) g h = ground (arith, e.beq_iff i k, All-get P k v m)

  pub delete-append_middle :
      (k : K) (v : V) (m n : Map K V)
      → Distinct (m ++ (k, v) ∷ n)
      → delete k (m ++ (k, v) ∷ n) ≡ m ++ n
  unfolding delete
  delete-append_middle k v [] n h = ground (arith, e.beq_iff k k)
  delete-append_middle k v ((i, w) ∷ m) n h =
      ground (arith, e.beq_iff i k, Absent-middle i k v m n h.0, delete-append_middle k v m n h.1)

  Absent-append_middle :
      (j k : K) (v : V) (m n : Map K V) → Absent j (m ++ (k, v) ∷ n) → Absent j (m ++ n)
  Absent-append_middle j k v [] n h = h.1
  Absent-append_middle j k v ((i, w) ∷ m) n h = (h.0, Absent-append_middle j k v m n h.1)

  pub Distinct-middle :
      (k : K) (v : V) (m n : Map K V) → Distinct (m ++ (k, v) ∷ n) → Distinct (m ++ n)
  Distinct-middle k v [] n h = h.1
  Distinct-middle k v ((i, w) ∷ m) n h =
      (Absent-append_middle i k v m n h.0, Distinct-middle k v m n h.1)

  pub get-append_last :
      (k : K) (v : V) (m : Map K V) → Absent k m → get k (m ++ (k, v) ∷ []) ≡ some v
  unfolding get
  get-append_last k v [] h = ground (arith, e.beq_iff k k)
  get-append_last k v ((i, w) ∷ m) h = ground (arith, e.beq_iff i k, get-append_last k v m h.1)
