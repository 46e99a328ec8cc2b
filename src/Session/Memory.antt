-- ===== src/Session/Memory.antt =====
-- The in-memory store of packages/cache/src/store.ts as the store of sessions.
use celsian.Base.{
  ℕ, zero, suc, ◌+◌, ◌<◌, ◌≡◌, ◌≢◌, ◌⊎◌, ◌∙◌, refl, sym, ap, inl, inr, true, false, Option, none,
  some, [], ◌∷◌, Text, text_eq, text_beq_iff, ◌==◌, ==_refl, Bool-cases, Option-cases,
  if◌then◌else◌, arith,
}
use celsian.Base.Int.{pos, negsuc}
use celsian.Map
use celsian.Map.{Map}
use celsian.Map.Laws.{Distinct, get-delete, has_found}
use celsian.Cache.Store
use celsian.Cache.Store.{
  MemoryKvStore, MemoryEntry, Value, number, other, is_expired, expiry, reinsert, evict_loop,
  evict_if_needed, StoreOp, set_op, delete_op,
}
use celsian.Cache.Store.Validity.{IsValid, set-IsValid}
use celsian.Cache.Store.Recency.{get-set}
use celsian.Session.Store.{KvStore}

abbrev pub StateOf : Type 0 → Type 0
StateOf A = MemoryKvStore (Map Text A)

module _ {A : Type 0} where
  -- What a load makes of a value: `!data` holds of 0, and the spread of a number is empty.
  abbrev pub as_data : Option (Value (Map Text A)) → Option (Map Text A)
  as_data none = none
  as_data (some (number (pos zero))) = none
  as_data (some (number (pos (suc n)))) = some []
  as_data (some (number (negsuc n))) = some []
  as_data (some (other d)) = some d

  abbrev read : ℕ → Option (MemoryEntry (Map Text A)) → Option (Value (Map Text A))
  read now none = none
  read now (some e) = if is_expired now e then none else some e.value

  read_entry :
      (now : ℕ) (k : Text) (s : StateOf A) → (Store.get now k s).1 ≡ read now (Map.get k s.store)
  unfolding Store.get
  read_entry now k s = elim (Option-cases (Map.get k s.store)) [
    | inl missing ↦ rw (missing, Store.get) refl
    | inr (e, found) ↦ elim (Bool-cases (is_expired now e)) [
      | inl over ↦ rw (found, Store.get) (rw over refl)
      | inr live ↦ rw (found, Store.get) (rw live refl)
    ]
  ]

  has-delete :
      (k j : Text) (m : Map Text (MemoryEntry (Map Text A)))
      → Map.has j (Map.delete k m) ≡ true
      → Map.has j m ≡ true
  unfolding Map.has Map.delete
  has-delete k j [] h = h
  has-delete k j ((i, e) ∷ m) h = ground (arith, has-delete k j m)

  has-set :
      (k j : Text) (e : MemoryEntry (Map Text A)) (m : Map Text (MemoryEntry (Map Text A)))
      → Map.has j (Map.set k e m) ≡ true
      → (j ≡ k) ⊎ (Map.has j m ≡ true)
  unfolding Map.has Map.set
  has-set k j e [] h = inl (ground (arith, text_beq_iff k j))
  has-set k j e ((i, f) ∷ m) h = elim (Bool-cases (i == k)) [
    | inl same ↦ inr (rw same at h)
    | inr differ ↦ elim (Bool-cases (i == j)) [
      | inl hit ↦ inr (rw hit refl)
      | inr miss ↦ elim (has-set k j e m (rw miss at (rw differ at h))) [
        | inl new ↦ inl new
        | inr old ↦ inr (rw miss old)
      ]
    ]
  ]

  has-evict_loop :
      (cap : ℕ) (j : Text) (m : Map Text (MemoryEntry (Map Text A)))
      → Map.has j (evict_loop cap m) ≡ true
      → Map.has j m ≡ true
  unfolding Map.has evict_loop
  has-evict_loop cap j [] h = h
  has-evict_loop cap j ((i, e) ∷ m) h = ground (arith, has-evict_loop cap j m)

  has-evict :
      (j : Text) (s : StateOf A)
      → Map.has j (evict_if_needed s).store ≡ true
      → Map.has j s.store ≡ true
  unfolding evict_if_needed
  has-evict j s h = ground (arith, has-evict_loop s.max_entries j s.store)

  has-reinsert :
      (k j : Text) (e : MemoryEntry (Map Text A)) (m : Map Text (MemoryEntry (Map Text A)))
      → Map.has j (reinsert k e m) ≡ true
      → (j ≡ k) ⊎ (Map.has j m ≡ true)
  unfolding reinsert
  has-reinsert k j e m h = elim (has-set k j e (Map.delete k m) h) [
    | inl new ↦ inl new
    | inr old ↦ inr (has-delete k j m old)
  ]

  -- A read keeps the keys, or takes one out.
  pub get-Holds_lem :
      (now : ℕ) (k j : Text) (s : StateOf A)
      → Map.has j (Store.get now k s).0.store ≡ true
      → Map.has j s.store ≡ true
  unfolding Store.get
  get-Holds_lem now k j s h = elim (Option-cases (Map.get k s.store)) [
    | inl missing ↦ rw (missing, Store.get) at h
    | inr (e, found) ↦ elim (Bool-cases (is_expired now e)) [
      | inl over ↦ has-delete k j s.store (rw over at (rw (found, Store.get) at h))
      | inr live ↦ elim (has-reinsert k j e s.store (rw live at (rw (found, Store.get) at h))) [
        | inl same ↦ rw same (has_found k e s.store found)
        | inr old ↦ old
      ]
    ]
  ]

  pub found-Holds :
      (now : ℕ) (k : Text) (v : Map Text A) (s : StateOf A)
      → as_data (Store.get now k s).1 ≡ some v
      → Map.has k s.store ≡ true
  unfolding Store.get
  found-Holds now k v s h = elim (Option-cases (Map.get k s.store)) [
    | inl missing ↦ absurd (no_data (rw (missing, Store.get) at h))
    | inr (e, found) ↦ has_found k e s.store found
  ]
    where
      no_data : ◌≡◌ {A = Option (Map Text A)} none (some v) → ⊥
      no_data e = cc

  live_expiry :
      (now later ttl : ℕ) (v : Value (Map Text A))
      → later < now + ttl
      → is_expired later (record { value = v; expires_at = expiry now (some ttl) }) ≡ false
  unfolding is_expired
  live_expiry now later zero v h = refl
  live_expiry now later (suc n) v h = ground arith

  pub set-Holds_lem :
      (now : ℕ) (k j : Text) (d : Map Text A) (ttl : ℕ) (s : StateOf A)
      → Map.has j (Store.set now k (other d) (some ttl) s).store ≡ true
      → (j ≡ k) ⊎ (Map.has j s.store ≡ true)
  unfolding Store.set
  set-Holds_lem now k j d ttl s h = has-reinsert k j _ s.store (has-evict j _ h)

  pub delete-Holds_lem :
      (k j : Text) (s : StateOf A)
      → Map.has j (Store.delete k s).0.store ≡ true
      → Map.has j s.store ≡ true
  unfolding Store.delete
  delete-Holds_lem k j s h = has-delete k j s.store h

  pub get-set_lem :
      (now later : ℕ) (k : Text) (d : Map Text A) (ttl : ℕ) (s : StateOf A)
      → IsValid s
      → later < now + ttl
      → as_data (Store.get later k (Store.set now k (other d) (some ttl) s)).1 ≡ some d
  get-set_lem now later k d ttl s valid h =
      ap as_data
        (get-set now later k (other d) (some ttl) s valid (live_expiry now later ttl (other d) h))

  pub get-delete_other_lem :
      (now : ℕ) (k j : Text) (s : StateOf A)
      → IsValid s
      → j ≢ k
      → as_data (Store.get now k (Store.delete j s).0).1 ≡ as_data (Store.get now k s).1
  unfolding Store.delete
  get-delete_other_lem now k j s valid ne =
      let differ : (j == k) ≡ false = ground (arith, text_beq_iff j k) in
      ap as_data (
        read_entry now k (record s { store = Map.delete j s.store })
        ∙ ap (read now) (get-delete j k s.store valid.distinct ∙ rw differ refl)
        ∙ sym (read_entry now k s))

  gone :
      (k : Text) (m : Map Text (MemoryEntry (Map Text A)))
      → Distinct m
      → Map.get k (Map.delete k m) ≡ none
  gone k m d = get-delete k k m d ∙ rw (==_refl k) refl

  pub get-delete_lem :
      (now : ℕ) (k : Text) (s : StateOf A)
      → IsValid s
      → as_data (Store.get now k (Store.delete k s).0).1 ≡ none
  unfolding Store.delete
  get-delete_lem now k s valid = ap as_data (
      read_entry now k (record s { store = Map.delete k s.store })
      ∙ ap (read now) (gone k s.store valid.distinct))

  unfoldable pub memory_store : KvStore (StateOf A) (Map Text A)
  memory_store = record {
    get = λ now k s. ((Store.get now k s).0, as_data (Store.get now k s).1);
    set = λ now k d ttl s. Store.set now k (other d) (some ttl) s;
    delete = λ k s. Store.delete k s;
    IsValid = λ s. IsValid s;
    set-IsValid = λ now k d ttl s valid. set-IsValid now k (other d) (some ttl) s valid;
    Holds = λ k s. Map.has k s.store ≡ true;
    get-found = found-Holds;
    get-Holds = get-Holds_lem;
    set-Holds = set-Holds_lem;
    delete-Holds = delete-Holds_lem;
    get-set = get-set_lem;
    get-delete_other = get-delete_other_lem;
    get-delete = get-delete_lem;
  }
