-- ===== src/Cache/Store/Recency.antt =====
-- The order of the store is that of last use, and eviction takes from its old end.
use celsian.Base.{
  ℕ, zero, suc, ◌-◌, ◌≤◌, ◌≡◌, refl, sym, ap, ◌∙◌, inl, inr, false, Option, some, List, [], ◌∷◌,
  ◌++◌, arith, Text, text_eq, length, length-append, Bool-cases, ltb, drop,
}
use celsian.Map
use celsian.Map.{Map}
use celsian.Map.Laws.{Distinct, Absent, delete-Absent, set_missing, get-append_last}
use celsian.Cache.Store.{
  Value, MemoryEntry, MemoryKvStore, evict_loop, evict_if_needed, reinsert, get, set, is_expired,
  expiry,
}
use celsian.Cache.Store.Validity.{IsValid}

-- The newest entries, at most `cap` of them; all, if the cap is 0.
abbrev pub newest {ℓ} : {A : Type ℓ} → ℕ → List A → List A
newest zero m = m
newest (suc n) m = drop (length m - suc n) m

drop-nil {ℓ} : {A : Type ℓ} (n : ℕ) → drop {A = A} n [] ≡ []
drop-nil zero = refl
drop-nil (suc n) = refl

module _ {A : Type 0} where
  evict_loop-drop :
      (cap : ℕ) (m : Map Text (MemoryEntry A)) → evict_loop cap m ≡ drop (length m - cap) m
  unfolding evict_loop
  evict_loop-drop cap [] = sym (drop-nil (0 - cap))
  evict_loop-drop cap (e ∷ m) = elim (Bool-cases (ltb cap (length (e ∷ m)))) [
    | inl over ↦
        let one_more : length (e ∷ m) - cap ≡ suc (length m - cap) = ground arith in
        rw (over, one_more) (evict_loop-drop cap m)
    | inr fits ↦ let none_over : length (e ∷ m) - cap ≡ 0 = ground arith in rw (fits, none_over)
  ]

  pub evict_if_needed-newest :
      (s : MemoryKvStore A) → (evict_if_needed s).store ≡ newest s.max_entries s.store
  unfolding evict_if_needed
  evict_if_needed-newest s = go s.max_entries refl
    where
      go : (cap : ℕ) → s.max_entries ≡ cap → (evict_if_needed s).store ≡ newest cap s.store
      go zero e = ground arith
      go (suc n) e = ground (arith, evict_loop-drop s.max_entries s.store)

  pub reinsert_lem :
      (k : Text) (e : MemoryEntry A) (m : Map Text (MemoryEntry A))
      → Distinct m
      → reinsert k e m ≡ Map.delete k m ++ (k, e) ∷ []
  unfolding reinsert
  reinsert_lem k e m d = set_missing k e (Map.delete k m) (delete-Absent k m d)

  pub store-set :
      (now : ℕ) (k : Text) (v : Value A) (t : Option ℕ) (s : MemoryKvStore A)
      → IsValid s
      → (set now k v t s).store
        ≡ newest s.max_entries
            (Map.delete k s.store ++ (k, record { value = v; expires_at = expiry now t }) ∷ [])
  unfolding set
  store-set now k v t s valid =
      evict_if_needed-newest _ ∙ ap (newest s.max_entries) (reinsert_lem k _ s.store valid.distinct)

  drop_before_last :
      (n : ℕ) (m : Map Text (MemoryEntry A)) (k : Text) (e : MemoryEntry A)
      → n ≤ length m
      → Absent k m
      → Map.get k (drop n (m ++ (k, e) ∷ [])) ≡ some e
  drop_before_last zero m k e h a = get-append_last k e m a
  drop_before_last (suc n) [] k e h a = absurd (omega arith)
  drop_before_last (suc n) (x ∷ m) k e h (_, a) = drop_before_last n m k e (omega arith) a

  get-newest :
      (cap : ℕ) (m : Map Text (MemoryEntry A)) (k : Text) (e : MemoryEntry A)
      → Absent k m
      → Map.get k (newest cap (m ++ (k, e) ∷ [])) ≡ some e
  get-newest zero m k e a = get-append_last k e m a
  get-newest (suc n) m k e a =
      drop_before_last _ m k e (omega (arith, length-append m ((k, e) ∷ []))) a

  -- The entry that a write or an increment leaves.
  pub Map_get-reinsert :
      (k : Text) (e : MemoryEntry A) (s : MemoryKvStore A)
      → IsValid s
      → Map.get k (evict_if_needed (record s { store = reinsert k e s.store })).store ≡ some e
  Map_get-reinsert k e s valid =
      rw (evict_if_needed-newest (record s { store = reinsert k e s.store })) (
        rw (reinsert_lem k e s.store valid.distinct)
          (get-newest s.max_entries _ k e (delete-Absent k s.store valid.distinct)))

  pub Map_get-set :
      (now : ℕ) (k : Text) (v : Value A) (t : Option ℕ) (s : MemoryKvStore A)
      → IsValid s
      → Map.get k (set now k v t s).store ≡ some (record { value = v; expires_at = expiry now t })
  Map_get-set now k v t s valid = unfold set in Map_get-reinsert k _ s valid

  pub get-set :
      (now later : ℕ) (k : Text) (v : Value A) (t : Option ℕ) (s : MemoryKvStore A)
      → IsValid s
      → is_expired later (record { value = v; expires_at = expiry now t }) ≡ false
      → (get later k (set now k v t s)).1 ≡ some v
  unfolding get
  get-set now later k v t s valid live = rw (Map_get-set now k v t s valid, get) (rw live)
