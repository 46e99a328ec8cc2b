-- ===== src/Cache/Store/Validity.antt =====
-- The store never holds a key twice and never outgrows its cap, whatever is called.
use celsian.Base.{
  ℕ, ◌≤◌, ◌≡◌, ◌≢◌, ◌⊎◌, inl, inr, Option, none, some, List, [], ◌∷◌, arith, Text, text_eq, length,
  Bool-cases, Option-cases, nat_beq,
}
use celsian.Base.Int.{ℤ}
use celsian.Map
use celsian.Map.{Map}
use celsian.Map.Laws.{
  Distinct, delete-Distinct, set-Distinct, length-delete-le, length-set-le, length-delete_present,
}
use celsian.Cache.Glob.{GlobToken}
use celsian.Cache.Store.{
  Value, MemoryEntry, MemoryKvStore, init, is_expired, evict_loop, evict_if_needed, reinsert, get,
  set, get_many, set_many, delete, has, keys, keys_loop, clear, clear_loop, ttl, incr, write_count,
  cleanup, cleanup_loop, starts_with, StoreOp, get_op, set_op, get_many_op, set_many_op, delete_op,
  has_op, keys_op, clear_op, ttl_op, incr_op, cleanup_op, step, run_ops,
}

module _ {A : Type 0} where
  pub record IsValid (s : MemoryKvStore A) : Type 0 where
    pub distinct : Distinct s.store
    pub bounded : (s.max_entries ≡ 0) ⊎ (length s.store ≤ s.max_entries)

  -- A change that keeps the keys distinct and adds none.
  shrink-IsValid :
      (s : MemoryKvStore A) (m : Map Text (MemoryEntry A))
      → IsValid s
      → Distinct m
      → length m ≤ length s.store
      → IsValid (record s { store = m })
  shrink-IsValid s m v d h = ground (arith, v.bounded)

  pub reinsert-Distinct :
      (k : Text) (e : MemoryEntry A) (m : Map Text (MemoryEntry A))
      → Distinct m
      → Distinct (reinsert k e m)
  unfolding reinsert
  reinsert-Distinct k e m d = set-Distinct k e _ (delete-Distinct k m d)

  length-reinsert_present :
      (k : Text) (e : MemoryEntry A) (m : Map Text (MemoryEntry A))
      → Map.get k m ≢ none
      → length (reinsert k e m) ≤ length m
  unfolding reinsert
  length-reinsert_present k e m h =
      omega (arith, length-set-le k e (Map.delete k m), length-delete_present k m h)

  evict_loop-Distinct :
      (cap : ℕ) (m : Map Text (MemoryEntry A)) → Distinct m → Distinct (evict_loop cap m)
  unfolding evict_loop
  evict_loop-Distinct cap [] d = tt
  evict_loop-Distinct cap ((k, e) ∷ m) d = ground (arith, evict_loop-Distinct cap m d.1)

  length-evict_loop-le : (cap : ℕ) (m : Map Text (MemoryEntry A)) → length (evict_loop cap m) ≤ cap
  unfolding evict_loop
  length-evict_loop-le cap [] = omega arith
  length-evict_loop-le cap (e ∷ m) = ground (arith, length-evict_loop-le cap m)

  evict_if_needed-IsValid : (s : MemoryKvStore A) → Distinct s.store → IsValid (evict_if_needed s)
  unfolding evict_if_needed
  evict_if_needed-IsValid s d = elim (Bool-cases (nat_beq s.max_entries 0)) [
    | inl z ↦ rw z (record { distinct = d; bounded = ground arith })
    | inr p ↦ rw p (record {
      distinct = evict_loop-Distinct s.max_entries s.store d;
      bounded = inr (length-evict_loop-le s.max_entries s.store);
    })
  ]

  pub delete-IsValid :
      (k : Text) (s : MemoryKvStore A)
      → IsValid s
      → IsValid (record s { store = Map.delete k s.store })
  delete-IsValid k s v =
      shrink-IsValid s _ v (delete-Distinct k s.store v.distinct) (length-delete-le k s.store)

  get-IsValid : (n : ℕ) (k : Text) (s : MemoryKvStore A) → IsValid s → IsValid (get n k s).0
  unfolding get
  get-IsValid n k s v = elim (Option-cases (Map.get k s.store)) [
    | inl e ↦ rw (e, get) v
    | inr (entry, e) ↦ elim (Bool-cases (is_expired n entry)) [
      | inl over ↦ rw (e, get) (rw over (delete-IsValid k s v))
      | inr live ↦
          rw (e, get)
            (rw live (
              shrink-IsValid s _ v (reinsert-Distinct k entry s.store v.distinct)
                (length-reinsert_present k entry s.store (λ missing. cc))))
    ]
  ]

  pub set-IsValid :
      (n : ℕ) (k : Text) (x : Value A) (t : Option ℕ) (s : MemoryKvStore A)
      → IsValid s
      → IsValid (set n k x t s)
  unfolding set
  set-IsValid n k x t s v = evict_if_needed-IsValid _ (reinsert-Distinct k _ s.store v.distinct)

  get_many-IsValid :
      (clock : Text → ℕ) (ks : List Text) (s : MemoryKvStore A)
      → IsValid s
      → IsValid (get_many clock ks s).0
  unfolding get_many
  get_many-IsValid clock [] s v = v
  get_many-IsValid clock (k ∷ ks) s v =
      get_many-IsValid clock ks (get (clock k) k s).0 (get-IsValid (clock k) k s v)

  set_many-IsValid :
      (clock : Text → ℕ) (es : List (Text × Value A × Option ℕ)) (s : MemoryKvStore A)
      → IsValid s
      → IsValid (set_many clock es s)
  unfolding set_many
  set_many-IsValid clock [] s v = v
  set_many-IsValid clock ((k, x, t) ∷ es) s v =
      set_many-IsValid clock es (set (clock k) k x t s) (set-IsValid (clock k) k x t s v)

  has-IsValid : (n : ℕ) (k : Text) (s : MemoryKvStore A) → IsValid s → IsValid (has n k s).0
  unfolding has
  has-IsValid n k s v = ground (arith, delete-IsValid k s v)

  ttl-IsValid : (n : ℕ) (k : Text) (s : MemoryKvStore A) → IsValid s → IsValid (ttl n k s).0
  unfolding ttl
  ttl-IsValid n k s v = ground (arith, delete-IsValid k s v)

  -- What the loops keep of the map that they thin out.
  abbrev Thinned : Map Text (MemoryEntry A) → Map Text (MemoryEntry A) → Type 0
  Thinned m m' = Distinct m → Distinct m' × (length m' ≤ length m)

  delete-Thinned :
      (k : Text) (m m' : Map Text (MemoryEntry A)) → Thinned (Map.delete k m) m' → Thinned m m'
  delete-Thinned k m m' h d =
      let (d', le) = h (delete-Distinct k m d) in (d', omega (arith, le, length-delete-le k m))

  keys_loop-Thinned :
      (clock : Text → ℕ) (t : Option (List GlobToken)) (es m : Map Text (MemoryEntry A))
      → Thinned m (keys_loop clock t es m).0
  unfolding keys_loop
  keys_loop-Thinned clock t [] m = λ d. (d, omega arith)
  keys_loop-Thinned clock t ((k, e) ∷ es) m = elim (Bool-cases (is_expired (clock k) e)) [
    | inl over ↦ rw over (delete-Thinned k m _ (keys_loop-Thinned clock t es (Map.delete k m)))
    | inr live ↦ rw live (keys_loop-Thinned clock t es m)
  ]

  clear_loop-Thinned :
      (prefix : Text) (ks : List Text) (m : Map Text (MemoryEntry A))
      → Thinned m (clear_loop prefix ks m)
  unfolding clear_loop
  clear_loop-Thinned prefix [] m = λ d. (d, omega arith)
  clear_loop-Thinned prefix (k ∷ ks) m = elim (Bool-cases (starts_with prefix k)) [
    | inl hit ↦ rw hit (delete-Thinned k m _ (clear_loop-Thinned prefix ks (Map.delete k m)))
    | inr miss ↦ rw miss (clear_loop-Thinned prefix ks m)
  ]

  cleanup_loop-Thinned : (n : ℕ) (es m : Map Text (MemoryEntry A)) → Thinned m (cleanup_loop n es m)
  unfolding cleanup_loop
  cleanup_loop-Thinned n [] m = λ d. (d, omega arith)
  cleanup_loop-Thinned n ((k, e) ∷ es) m = elim (Bool-cases (is_expired n e)) [
    | inl over ↦ rw over (delete-Thinned k m _ (cleanup_loop-Thinned n es (Map.delete k m)))
    | inr live ↦ rw live (cleanup_loop-Thinned n es m)
  ]

  Thinned-IsValid :
      (s : MemoryKvStore A) (m : Map Text (MemoryEntry A))
      → IsValid s
      → Thinned s.store m
      → IsValid (record s { store = m })
  Thinned-IsValid s m v h = let (d, le) = h v.distinct in shrink-IsValid s m v d le

  clear-IsValid : (p : Option Text) (s : MemoryKvStore A) → IsValid s → IsValid (clear p s)
  unfolding clear
  clear-IsValid none s v = shrink-IsValid s [] v tt (omega arith)
  clear-IsValid (some []) s v = shrink-IsValid s [] v tt (omega arith)
  clear-IsValid (some (c ∷ p)) s v = Thinned-IsValid s _ v (clear_loop-Thinned (c ∷ p) _ s.store)

  pub incr-IsValid :
      (n : ℕ) (k : Text) (by : ℤ) (s : MemoryKvStore A) → IsValid s → IsValid (incr n k by s).0
  unfolding incr write_count
  incr-IsValid n k by s v = elim (Option-cases (Map.get k s.store)) [
    | inl e ↦ rw (e, incr) (evict_if_needed-IsValid _ (reinsert-Distinct k _ s.store v.distinct))
    | inr (entry, e) ↦ elim (Bool-cases (is_expired n entry)) [
      | inl over ↦
          rw (e, incr)
            (rw over (
              evict_if_needed-IsValid _
                (reinsert-Distinct k _ _ (delete-Distinct k s.store v.distinct))))
      | inr live ↦
          rw (e, incr)
            (rw live (evict_if_needed-IsValid _ (reinsert-Distinct k _ s.store v.distinct)))
    ]
  ]

  pub step-IsValid : (op : StoreOp A) (s : MemoryKvStore A) → IsValid s → IsValid (step op s)
  unfolding step
  step-IsValid (get_op n k) s v = get-IsValid n k s v
  step-IsValid (set_op n k x t) s v = set-IsValid n k x t s v
  step-IsValid (get_many_op c ks) s v = get_many-IsValid c ks s v
  step-IsValid (set_many_op c es) s v = set_many-IsValid c es s v
  step-IsValid (delete_op k) s v = unfold delete in delete-IsValid k s v
  step-IsValid (has_op n k) s v = has-IsValid n k s v
  step-IsValid (keys_op c p) s v =
      unfold keys in Thinned-IsValid s _ v (keys_loop-Thinned c _ s.store s.store)
  step-IsValid (clear_op p) s v = clear-IsValid p s v
  step-IsValid (ttl_op n k) s v = ttl-IsValid n k s v
  step-IsValid (incr_op n k by) s v = incr-IsValid n k by s v
  step-IsValid (cleanup_op n) s v =
      unfold cleanup in Thinned-IsValid s _ v (cleanup_loop-Thinned n s.store s.store)

  run_from-IsValid :
      (ops : List (StoreOp A)) (s : MemoryKvStore A) → IsValid s → IsValid (run_ops ops s)
  unfolding run_ops
  run_from-IsValid [] s v = v
  run_from-IsValid (op ∷ ops) s v = run_from-IsValid ops (step op s) (step-IsValid op s v)

  init-IsValid : (cap : Option ℕ) → IsValid (init cap)
  unfolding init
  init-IsValid none = ground arith
  init-IsValid (some n) = ground arith

  -- Whatever is called on a new store, it holds no key twice, and no more entries than its cap, if
  -- the cap is not 0.
  pub run_ops-IsValid : (cap : Option ℕ) (ops : List (StoreOp A)) → IsValid (run_ops ops (init cap))
  run_ops-IsValid cap ops = run_from-IsValid ops (init cap) (init-IsValid cap)
