-- ===== src/Cache/Store/Kept.antt =====
-- packages/cache/src/store.ts: how long `MemoryKVStore` keeps what was written.
use celsian.Base.{
  ℕ, zero, suc, ◌+◌, ◌≤◌, ◌<◌, ◌≡◌, ◌⊎◌, refl, sym, Option, none, some, List, [], ◌∷◌, arith, All,
  Text, text_eq, length, subst,
}
use native.Mathlib.Nat.{add-zero}
use celsian.Map
use celsian.Map.{Map}
use celsian.Map.Laws.{Distinct}
use celsian.Cache.Store.{
  Value, MemoryEntry, MemoryKvStore, is_expired, evict_if_needed, get, set, delete, has, ttl, incr,
  write_count, expiry, StoreOp, get_op, set_op, get_many_op, set_many_op, delete_op, has_op,
  keys_op, clear_op, ttl_op, incr_op, cleanup_op, step, run_ops,
}
use celsian.Cache.Store.Validity.{IsValid, set-IsValid, step-IsValid}
use celsian.Cache.Store.Recency.{store-set}
use celsian.Cache.Store.Behind.{IsOfOther, Held, Held-newest, Held-step, Map_get-middle}

module _ {A : Type 0} where
  max_entries-evict_if_needed :
      (s : MemoryKvStore A) → (evict_if_needed s).max_entries ≡ s.max_entries
  unfolding evict_if_needed
  max_entries-evict_if_needed s = ground arith

  max_entries-step :
      (k : Text) (op : StoreOp A) (s : MemoryKvStore A)
      → IsOfOther k op
      → (step op s).max_entries ≡ s.max_entries
  unfolding step get set delete has ttl incr write_count
  max_entries-step k (get_op now j) s other = ground arith
  max_entries-step k (set_op now j v t) s other = max_entries-evict_if_needed _
  max_entries-step k (delete_op j) s other = refl
  max_entries-step k (has_op now j) s other = ground arith
  max_entries-step k (ttl_op now j) s other = ground arith
  max_entries-step k (incr_op now j by) s other = grind (arith, max_entries-evict_if_needed)
  max_entries-step k (get_many_op c js) s other = elim other [ ]
  max_entries-step k (set_many_op c es) s other = elim other [ ]
  max_entries-step k (keys_op c p) s other = elim other [ ]
  max_entries-step k (clear_op p) s other = elim other [ ]
  max_entries-step k (cleanup_op now) s other = elim other [ ]

  abbrev pub HasRoom : ℕ → MemoryKvStore A → Type 0
  HasRoom n s = (s.max_entries ≡ 0) ⊎ (n < s.max_entries)

  Held-run_ops :
      (k : Text) (e : MemoryEntry A) (ops : List (StoreOp A)) (n : ℕ) (s : MemoryKvStore A)
      → IsValid s
      → All (IsOfOther k) ops
      → HasRoom (n + length ops) s
      → Held k e n s.store
      → Held k e (n + length ops) (run_ops ops s).store × IsValid (run_ops ops s)
  unfolding run_ops
  Held-run_ops k e [] n s valid others room held = (rw add-zero held, valid)
  Held-run_ops k e (op ∷ ops) n s valid (other, others) room held =
      let same = max_entries-step k op s other in
      let one : HasRoom (suc n) s = ground arith in
      let more : HasRoom (suc n + length ops) (step op s) = ground arith in
      let (still, good) =
        Held-run_ops k e ops (suc n) (step op s) (step-IsValid op s valid) others more
          (Held-step k e n s valid one held op other) in
      (subst (λ x. Held k e x (run_ops ops (step op s)).store) (omega arith) still, good)

  -- What is to be read of a value: nothing after its time to live, where it has one.
  abbrev pub ReadsUntil : ℕ → Option ℕ → ℕ → Value A → Option (Value A) → Type 0
  ReadsUntil now none later v r = r ≡ some v
  ReadsUntil now (some zero) later v r = r ≡ some v
  ReadsUntil now (some (suc n)) later v r =
      (later < now + suc n → r ≡ some v) × (now + suc n ≤ later → r ≡ none)

  read_held :
      (now later : ℕ) (k : Text) (v : Value A) (t : Option ℕ) (s : MemoryKvStore A)
      → Map.get k s.store ≡ some (record { value = v; expires_at = expiry now t })
      → ReadsUntil now t later v (get later k s).1
  unfolding get is_expired
  read_held now later k v none s found = rw (found, get) refl
  read_held now later k v (some zero) s found = rw (found, get) refl
  read_held now later k v (some (suc n)) s found =
      (λ live. rw (found, get) (ground arith), λ over. rw (found, get) (ground arith))

  -- What was written to a well-formed store is read back after fewer calls on other keys than the cap
  -- (any number of them, if the cap is 0), where each call is a `get`, `set`, `delete`, `has`, `ttl` or
  -- `incr`: the value itself strictly before the time of the write plus its time to live, and nothing
  -- from that time on; where there is no time to live, or it is 0, always the value.
  pub get-run_ops-set :
      (now later : ℕ) (k : Text) (v : Value A) (t : Option ℕ) (ops : List (StoreOp A))
      (s : MemoryKvStore A)
      → IsValid s
      → All (IsOfOther k) ops
      → HasRoom (length ops) s
      → ReadsUntil now t later v (get later k (run_ops ops (set now k v t s))).1
  get-run_ops-set now later k v t ops s valid others room =
      let e : MemoryEntry A = record { value = v; expires_at = expiry now t } in
      let size : (set now k v t s).max_entries ≡ s.max_entries =
        unfold set in max_entries-evict_if_needed _ in
      let held : Held k e 0 (set now k v t s).store =
        subst (Held k e 0) (sym (store-set now k v t s valid)) (
          Held-newest k e s.max_entries 0 _ (ground arith)
            (Map.delete k s.store, [], refl, omega arith)) in
      let ((before, after, split, few), good) =
        Held-run_ops k e ops 0 (set now k v t s) (set-IsValid now k v t s valid) others
          (ground arith) held in
      read_held now later k v t (run_ops ops (set now k v t s)) (
        subst (λ m. Map.get k m ≡ some e) (sym split)
          (Map_get-middle k e before after (subst Distinct split good.distinct)))
