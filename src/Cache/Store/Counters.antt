-- ===== src/Cache/Store/Counters.antt =====
-- `incr` adds to what the key reads.
use celsian.Base.{
  ℕ, ◌≡◌, sym, ap, ◌∙◌, inl, inr, true, false, Option, none, some, Text, text_eq, Bool-cases,
  Option-cases,
}
use celsian.Base.Int.{ℤ, pos, ◌+ℤ◌, +ℤ_assoc}
use celsian.Map
use celsian.Map.{Map}
use celsian.Cache.Store.{
  number, MemoryEntry, MemoryKvStore, is_expired, incr, write_count, number_or_zero,
}
use celsian.Cache.Store.Validity.{IsValid, delete-IsValid, incr-IsValid}
use celsian.Cache.Store.Recency.{Map_get-reinsert}

module _ {A : Type 0} where
  -- The entry of a key that has not expired.
  abbrev live_entry : ℕ → Option (MemoryEntry A) → Option (MemoryEntry A)
  live_entry now none = none
  live_entry now (some e) = elim (is_expired now e) [ true ↦ none | false ↦ some e ]

  -- The number that a key stands for: 0 if it is missing, expired or no number.
  abbrev count_of : Option (MemoryEntry A) → ℤ
  count_of none = pos 0
  count_of (some e) = number_or_zero e.value

  abbrev expiry_of : Option (MemoryEntry A) → Option ℕ
  expiry_of none = none
  expiry_of (some e) = e.expires_at

  unfoldable pub live : ℕ → Text → MemoryKvStore A → Option (MemoryEntry A)
  live now k s = live_entry now (Map.get k s.store)

  unfoldable pub count_at : ℕ → Text → MemoryKvStore A → ℤ
  count_at now k s = count_of (live now k s)

  get-write_count :
      (k : Text) (n : ℤ) (x : Option ℕ) (s : MemoryKvStore A)
      → IsValid s
      → Map.get k (write_count k n x s).0.store ≡ some (record { value = number n; expires_at = x })
  unfolding write_count
  get-write_count k n x s v = Map_get-reinsert k _ s v

  -- `incr` returns what the key stood for plus the amount, stores that number, and keeps the
  -- expiry of the entry that it counts on; a missing or expired key counts from 0 with no expiry.
  pub incr_lem :
      (now : ℕ) (k : Text) (by : ℤ) (s : MemoryKvStore A)
      → IsValid s
      → ((incr now k by s).1 ≡ count_at now k s +ℤ by)
        × (Map.get k (incr now k by s).0.store
            ≡ some (record {
              value = number (count_at now k s +ℤ by);
              expires_at = expiry_of (live now k s);
            }))
  unfolding incr count_at live
  incr_lem now k by s v = elim (Option-cases (Map.get k s.store)) [
    | inl e ↦ counted none s v (rw (e, incr)) (rw e)
    | inr (entry, e) ↦ elim (Bool-cases (is_expired now entry)) [
      | inl over ↦
          counted none _ (delete-IsValid k s v) (rw (e, incr) (rw over))
            (rw e (rw (over, live_entry)))
      | inr alive ↦
          counted (some entry) s v (rw (e, incr) (rw alive)) (rw e (rw (alive, live_entry)))
    ]
  ]
    where
      counted :
          (o : Option (MemoryEntry A)) (s' : MemoryKvStore A)
          → IsValid s'
          → incr now k by s ≡ write_count k (count_of o +ℤ by) (expiry_of o) s'
          → live_entry now (Map.get k s.store) ≡ o
          → ((incr now k by s).1 ≡ count_at now k s +ℤ by)
            × (Map.get k (incr now k by s).0.store
                ≡ some (record {
                  value = number (count_at now k s +ℤ by);
                  expires_at = expiry_of (live now k s);
                }))
      counted o s' v' e n = (
        ap (λ p. p.1) e ∙ unfold write_count in ap (λ o. count_of o +ℤ by) (sym n),
        ap (λ p. Map.get k p.0.store) e
            ∙ get-write_count k _ (expiry_of o) s' v'
            ∙ ap
                (λ o. some (record { value = number (count_of o +ℤ by); expires_at = expiry_of o }))
                (sym n),
      )

  count_at_live :
      (later : ℕ) (k : Text) (e : MemoryEntry A) (s : MemoryKvStore A)
      → Map.get k s.store ≡ some e
      → is_expired later e ≡ false
      → count_at later k s ≡ number_or_zero e.value
  unfolding count_at live
  count_at_live later k e s found alive = rw found (rw (alive, live_entry))

  -- Increments of a well-formed store add up: two of them, the second before the entry expires, leave what one increment
  -- by the sum returns.
  pub incr-incr :
      (now later : ℕ) (k : Text) (a b : ℤ) (s : MemoryKvStore A)
      → IsValid s
      → is_expired {A = A} later
          (record { value = number (count_at now k s +ℤ a); expires_at = expiry_of (live now k s) })
        ≡ false
      → (incr later k b (incr now k a s).0).1 ≡ (incr now k (a +ℤ b) s).1
  incr-incr now later k a b s v alive =
      let first = incr_lem now k a s v in
      let second = incr_lem later k b (incr now k a s).0 (incr-IsValid now k a s v) in
      second.0
      ∙ ap (λ n. n +ℤ b) (count_at_live later k _ (incr now k a s).0 first.1 alive)
      ∙ +ℤ_assoc (count_at now k s) a b
      ∙ sym (incr_lem now k (a +ℤ b) s v).0
