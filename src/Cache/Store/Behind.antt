-- ===== src/Cache/Store/Behind.antt =====
-- packages/cache/src/store.ts: how many entries stand behind one, which the store evicts after it.
use celsian.Base.{
  ℕ, zero, suc, ◌+◌, ◌-◌, ◌≤◌, ◌<◌, ◌≡◌, ◌≢◌, ◌⊎◌, refl, sym, ap, ◌∙◌, inl, inr, some, [], ◌∷◌,
  ◌++◌, arith, Text, text_eq, length, length-append, Bool-cases, Option-cases, drop, drop-append,
  append_assoc, subst, text_beq_iff, ◌==◌,
}
use celsian.Base.Int.{ℤ}
use celsian.Map
use celsian.Map.{Map}
use celsian.Map.Laws.{Distinct, Absent-middle, delete-Distinct, length-delete-le}
use celsian.Cache.Store.{
  MemoryEntry, MemoryKvStore, is_expired, evict_if_needed, reinsert, get, set, delete, has, ttl,
  incr, write_count, StoreOp, get_op, set_op, get_many_op, set_many_op, delete_op, has_op, keys_op,
  clear_op, ttl_op, incr_op, cleanup_op, step,
}
use celsian.Cache.Store.Validity.{IsValid}
use celsian.Cache.Store.Recency.{newest, evict_if_needed-newest, reinsert_lem}

-- A call on one key that is another one.
abbrev pub IsOfOther : {A : Type 0} → Text → StoreOp A → Type 0
IsOfOther k (get_op n j) = j ≢ k
IsOfOther k (set_op n j v t) = j ≢ k
IsOfOther k (delete_op j) = j ≢ k
IsOfOther k (has_op n j) = j ≢ k
IsOfOther k (ttl_op n j) = j ≢ k
IsOfOther k (incr_op n j by) = j ≢ k
IsOfOther k (get_many_op c js) = ⊥
IsOfOther k (set_many_op c es) = ⊥
IsOfOther k (keys_op c p) = ⊥
IsOfOther k (clear_op p) = ⊥
IsOfOther k (cleanup_op n) = ⊥

store-ttl :
    {A : Type 0} (now : ℕ) (j : Text) (s : MemoryKvStore A)
    → ((ttl now j s).0.store ≡ s.store) ⊎ ((ttl now j s).0.store ≡ Map.delete j s.store)
unfolding ttl
store-ttl now j s = ground arith

module _ {A : Type 0} (k : Text) (e : MemoryEntry A) where
  -- The entry stands in the map with at most `n` entries behind it, which were used later.
  abbrev pub Held : ℕ → Map Text (MemoryEntry A) → Type 0
  Held n m =
      (before : Map Text (MemoryEntry A)) × (after : Map Text (MemoryEntry A)) × (m
        ≡ before ++ (k, e) ∷ after)
      × (length after ≤ n)

  Held-suc : (n : ℕ) (m : Map Text (MemoryEntry A)) → Held n m → Held (suc n) m
  Held-suc n m (before, after, split, few) = (before, after, split, omega arith)

  Held-cons :
      (x : Text × MemoryEntry A) (n : ℕ) (m : Map Text (MemoryEntry A)) → Held n m → Held n (x ∷ m)
  Held-cons x n m (before, after, split, few) = (x ∷ before, after, ap (λ y. x ∷ y) split, few)

  delete_behind :
      (j : Text) (before after : Map Text (MemoryEntry A)) (n : ℕ)
      → j ≢ k
      → length after ≤ n
      → Held n (Map.delete j (before ++ (k, e) ∷ after))
  unfolding Map.delete
  delete_behind j [] after n other few = elim (Bool-cases (k == j)) [
    | inl same ↦ absurd (other (sym ((text_beq_iff k j).0 same)))
    | inr differs ↦
        rw differs ([], Map.delete j after, refl, omega (arith, length-delete-le j after))
  ]
  delete_behind j ((i, w) ∷ before) after n other few =
      let deeper = delete_behind j before after n other few in
      elim (Bool-cases (i == j)) [
        | inl here ↦ rw here (before, after, refl, few)
        | inr not_here ↦ rw not_here (Held-cons (i, w) n _ deeper)
      ]

  Held-delete :
      (j : Text) (n : ℕ) (m : Map Text (MemoryEntry A)) → j ≢ k → Held n m → Held n (Map.delete j m)
  Held-delete j n m other (before, after, split, few) =
      subst (λ x. Held n (Map.delete j x)) (sym split) (delete_behind j before after n other few)

  Held-reinsert :
      (j : Text) (x : MemoryEntry A) (n : ℕ) (m : Map Text (MemoryEntry A))
      → Distinct m
      → j ≢ k
      → Held n m
      → Held (suc n) (reinsert j x m)
  Held-reinsert j x n m d other held =
      let (before, after, split, few) = Held-delete j n m other held in
      (
        before,
        after ++ (j, x) ∷ [],
        reinsert_lem j x m d ∙ ap (λ y. y ++ (j, x) ∷ []) split ∙ append_assoc before _ _,
        omega (arith, length-append after ((j, x) ∷ [])),
      )

  pub Held-newest :
      (cap n : ℕ) (m : Map Text (MemoryEntry A))
      → (cap ≡ 0) ⊎ (n < cap)
      → Held n m
      → Held n (newest cap m)
  Held-newest zero n m room held = held
  Held-newest (suc c) n m (inl no_cap) held = absurd (omega arith)
  Held-newest (suc c) n m (inr room) (before, after, split, few) =
      let size : length m ≡ length before + suc (length after) =
        ap length split ∙ length-append before ((k, e) ∷ after) in
      (
        drop (length m - suc c) before,
        after,
        ap (drop (length m - suc c)) split ∙ drop-append _ before _ (omega arith),
        few,
      )

  Held-evict_if_needed :
      (n : ℕ) (s : MemoryKvStore A)
      → (s.max_entries ≡ 0) ⊎ (n < s.max_entries)
      → Held n s.store
      → Held n (evict_if_needed s).store
  Held-evict_if_needed n s room held =
      subst (Held n) (sym (evict_if_needed-newest s))
        (Held-newest s.max_entries n s.store room held)

  -- What a call on another key does to the entries behind.
  module _ (n : ℕ) (s : MemoryKvStore A) (valid : IsValid s)
      (room : (s.max_entries ≡ 0) ⊎ (suc n < s.max_entries)) (held : Held n s.store) where
    abbrev written : Text → MemoryEntry A → MemoryKvStore A
    written j x = evict_if_needed (record s { store = reinsert j x s.store })

    Held-written : (j : Text) (x : MemoryEntry A) → j ≢ k → Held (suc n) (written j x).store
    Held-written j x other =
        Held-evict_if_needed (suc n) _ room (Held-reinsert j x n s.store valid.distinct other held)

    Held-deleted : (j : Text) → j ≢ k → Held (suc n) (Map.delete j s.store)
    Held-deleted j other = Held-suc n _ (Held-delete j n s.store other held)

    Held-get : (now : ℕ) (j : Text) → j ≢ k → Held (suc n) (get now j s).0.store
    unfolding get
    Held-get now j other = elim (Option-cases (Map.get j s.store)) [
      | inl missing ↦ rw (missing, get) (Held-suc n _ held)
      | inr (x, found) ↦ elim (Bool-cases (is_expired now x)) [
        | inl over ↦ rw (found, get) (rw over (Held-deleted j other))
        | inr live ↦
            rw (found, get) (rw live (Held-reinsert j x n s.store valid.distinct other held))
      ]
    ]

    Held-has : (now : ℕ) (j : Text) → j ≢ k → Held (suc n) (has now j s).0.store
    unfolding has
    Held-has now j other = elim (Option-cases (Map.get j s.store)) [
      | inl missing ↦ rw (missing, has) (Held-suc n _ held)
      | inr (x, found) ↦ elim (Bool-cases (is_expired now x)) [
        | inl over ↦ rw (found, has) (rw over (Held-deleted j other))
        | inr live ↦ rw (found, has) (rw live (Held-suc n _ held))
      ]
    ]

    Held-ttl : (now : ℕ) (j : Text) → j ≢ k → Held (suc n) (ttl now j s).0.store
    unfolding ttl
    Held-ttl now j other = elim (store-ttl now j s) [
      | inl same ↦ rw same (Held-suc n _ held)
      | inr gone ↦ rw gone (Held-deleted j other)
    ]

    Held-incr : (now : ℕ) (j : Text) (by : ℤ) → j ≢ k → Held (suc n) (incr now j by s).0.store
    unfolding incr write_count
    Held-incr now j by other = elim (Option-cases (Map.get j s.store)) [
      | inl missing ↦ rw (missing, incr) (Held-written j _ other)
      | inr (x, found) ↦ elim (Bool-cases (is_expired now x)) [
        | inl over ↦
            rw (found, incr)
              (rw over (
                Held-evict_if_needed (suc n) _ room (
                  Held-reinsert j _ n _ (delete-Distinct j s.store valid.distinct) other
                    (Held-delete j n s.store other held))))
        | inr live ↦ rw (found, incr) (rw live (Held-written j _ other))
      ]
    ]

    pub Held-step : (op : StoreOp A) → IsOfOther k op → Held (suc n) (step op s).store
    unfolding step set delete
    Held-step (get_op now j) other = Held-get now j other
    Held-step (set_op now j v t) other = Held-written j _ other
    Held-step (delete_op j) other = Held-deleted j other
    Held-step (has_op now j) other = Held-has now j other
    Held-step (ttl_op now j) other = Held-ttl now j other
    Held-step (incr_op now j by) other = Held-incr now j by other
    Held-step (get_many_op c js) other = elim other [ ]
    Held-step (set_many_op c es) other = elim other [ ]
    Held-step (keys_op c p) other = elim other [ ]
    Held-step (clear_op p) other = elim other [ ]
    Held-step (cleanup_op now) other = elim other [ ]

  pub Map_get-middle :
      (before after : Map Text (MemoryEntry A))
      → Distinct (before ++ (k, e) ∷ after)
      → Map.get k (before ++ (k, e) ∷ after) ≡ some e
  unfolding Map.get
  Map_get-middle [] after d = ground (arith, text_beq_iff k k)
  Map_get-middle ((i, w) ∷ before) after (absent, d) = ground (
    arith,
    text_beq_iff i k,
    Absent-middle i k e before after absent,
    Map_get-middle before after d,
  )
