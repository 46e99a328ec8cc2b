-- ===== src/Cache/Store.antt =====
-- packages/cache/src/store.ts: `MemoryKVStore`. A stored value is a number or anything else, whose
-- type is a parameter; numbers are integers. The clock is an argument of each operation, and of
-- `keys` as the reading made at each key. A promise is its value.
use celsian.Base.{
  ℕ, zero, suc, ◌+◌, ◌-◌, Bool, true, false, Option, none, some, List, [], ◌∷◌, map, Text, text_eq,
  ltb, leb, nat_beq, length, if◌then◌else◌,
}
use celsian.Base.Int.{ℤ, pos, negsuc, ◌+ℤ◌, negate}
pub mod Validity
pub mod Recency
pub mod Behind
pub mod Kept
pub mod Counters
use mathlib.Core.Option
use celsian.Map
use celsian.Map.{Map}
use celsian.Cache.Glob.{GlobToken, parse_glob, match_glob}

pub data Value (A : Type 0) : Type 0 where
  number : ℤ → Value A
  other : A → Value A

pub record MemoryEntry (A : Type 0) : Type 0 where
  pub value : Value A
  pub expires_at : Option ℕ

pub record MemoryKvStore (A : Type 0) : Type 0 where
  pub store : Map Text (MemoryEntry A)
  pub max_entries : ℕ

-- `str.startsWith(prefix)`
unfoldable pub starts_with : Text → Text → Bool
starts_with [] s = true
starts_with (a ∷ p) [] = false
starts_with (a ∷ p) (c ∷ s) = if nat_beq a c then starts_with p s else false

-- `ttlMs ? Date.now() + ttlMs : null`: a ttl of 0 is none.
abbrev pub expiry : ℕ → Option ℕ → Option ℕ
expiry now none = none
expiry now (some zero) = none
expiry now (some (suc n)) = some (now + suc n)

abbrev pub selected : Option (List GlobToken) → Text → Bool
selected none key = true
selected (some tokens) key = match_glob tokens key

module _ {A : Type 0} where
  unfoldable pub init : Option ℕ → MemoryKvStore A
  init none = record { store = []; max_entries = 10000 }
  init (some max_entries) = record { store = []; max_entries = max_entries }

  unfoldable pub is_expired : ℕ → MemoryEntry A → Bool
  is_expired now entry = elim entry.expires_at [ none ↦ false | some at ↦ leb at now ]

  -- The loop of `evictIfNeeded`: the first key in the order of the map goes.
  unfoldable pub evict_loop : ℕ → Map Text (MemoryEntry A) → Map Text (MemoryEntry A)
  evict_loop cap [] = []
  evict_loop cap (entry ∷ m) = if ltb cap (length (entry ∷ m)) then evict_loop cap m else entry ∷ m

  unfoldable pub evict_if_needed : MemoryKvStore A → MemoryKvStore A
  evict_if_needed s =
      if nat_beq s.max_entries 0 then s else record s { store = evict_loop s.max_entries s.store }

  -- `delete` and then `set`: the key moves to the end.
  unfoldable pub reinsert :
      Text → MemoryEntry A → Map Text (MemoryEntry A) → Map Text (MemoryEntry A)
  reinsert key entry m = Map.set key entry (Map.delete key m)

  unfoldable pub get : ℕ → Text → MemoryKvStore A → MemoryKvStore A × Option (Value A)
  get now key s = elim (Map.get key s.store) [
    | none ↦ (s, none)
    | some entry ↦
        if is_expired now entry
        then (record s { store = Map.delete key s.store }, none)
        else (record s { store = reinsert key entry s.store }, some entry.value)
  ]

  unfoldable pub set : ℕ → Text → Value A → Option ℕ → MemoryKvStore A → MemoryKvStore A
  set now key value ttl_ms s = evict_if_needed (record s {
    store = reinsert key (record { value = value; expires_at = expiry now ttl_ms }) s.store;
  })

  unfoldable pub get_many :
      (Text → ℕ) → List Text → MemoryKvStore A → MemoryKvStore A × List (Option (Value A))
  get_many clock [] s = (s, [])
  get_many clock (key ∷ rest) s =
      let (s', value) = get (clock key) key s in
      let (s'', values) = get_many clock rest s' in (s'', value ∷ values)

  unfoldable pub set_many :
      (Text → ℕ) → List (Text × Value A × Option ℕ) → MemoryKvStore A → MemoryKvStore A
  set_many clock [] s = s
  set_many clock ((key, value, ttl_ms) ∷ rest) s =
      set_many clock rest (set (clock key) key value ttl_ms s)

  unfoldable pub delete : Text → MemoryKvStore A → MemoryKvStore A × Bool
  delete key s = (record s { store = Map.delete key s.store }, Map.has key s.store)

  unfoldable pub has : ℕ → Text → MemoryKvStore A → MemoryKvStore A × Bool
  has now key s = elim (Map.get key s.store) [
    | none ↦ (s, false)
    | some entry ↦
        if is_expired now entry
        then (record s { store = Map.delete key s.store }, false)
        else (s, true)
  ]

  -- The loop of `keys` over the entries, with the store and the keys found so far.
  pub keys_loop :
      (Text → ℕ)
      → Option (List GlobToken)
      → Map Text (MemoryEntry A)
      → Map Text (MemoryEntry A)
      → Map Text (MemoryEntry A) × List Text
  keys_loop clock tokens [] m = (m, [])
  keys_loop clock tokens ((key, entry) ∷ rest) m =
      let gone = keys_loop clock tokens rest (Map.delete key m) in
      let (m', found) = keys_loop clock tokens rest m in
      if is_expired (clock key) entry
      then gone
      else (m', if selected tokens key then key ∷ found else found)

  unfoldable pub keys : (Text → ℕ) → Option Text → MemoryKvStore A → MemoryKvStore A × List Text
  keys clock pattern s =
      let (m, found) = keys_loop clock (Option.map parse_glob pattern) s.store s.store in
      (record s { store = m }, found)

  pub clear_loop : Text → List Text → Map Text (MemoryEntry A) → Map Text (MemoryEntry A)
  clear_loop prefix [] m = m
  clear_loop prefix (key ∷ rest) m =
      clear_loop prefix rest (if starts_with prefix key then Map.delete key m else m)

  -- `if (!prefix)`: an empty prefix clears the whole store.
  unfoldable pub clear : Option Text → MemoryKvStore A → MemoryKvStore A
  clear none s = record s { store = [] }
  clear (some []) s = record s { store = [] }
  clear (some (c ∷ p)) s = record s { store = clear_loop (c ∷ p) (map (λ e. e.0) s.store) s.store }

  -- `!entry.expiresAt` holds of 0 too.
  unfoldable pub ttl : ℕ → Text → MemoryKvStore A → MemoryKvStore A × ℤ
  ttl now key s = elim (Map.get key s.store) [
    | none ↦ (s, negsuc 1)
    | some entry ↦ elim entry.expires_at [
      | none ↦ (s, negsuc 0)
      | some zero ↦ (s, negsuc 0)
      | some (suc at) ↦
          if leb (suc at) now
          then (record s { store = Map.delete key s.store }, negsuc 1)
          else (s, pos (suc at - now))
    ]
  ]

  abbrev pub number_or_zero : Value A → ℤ
  number_or_zero (number n) = n
  number_or_zero (other a) = pos 0

  -- The write of `incr`, over the live entry or as a new one.
  pub write_count : Text → ℤ → Option ℕ → MemoryKvStore A → MemoryKvStore A × ℤ
  write_count key n expires_at s = (
    evict_if_needed (record s {
      store = reinsert key (record { value = number n; expires_at = expires_at }) s.store;
    }),
    n,
  )

  unfoldable pub incr : ℕ → Text → ℤ → MemoryKvStore A → MemoryKvStore A × ℤ
  incr now key by s = elim (Map.get key s.store) [
    | none ↦ write_count key (pos 0 +ℤ by) none s
    | some entry ↦
        if is_expired now entry
        then write_count key (pos 0 +ℤ by) none (record s { store = Map.delete key s.store })
        else write_count key (number_or_zero entry.value +ℤ by) entry.expires_at s
  ]

  unfoldable pub decr : ℕ → Text → ℤ → MemoryKvStore A → MemoryKvStore A × ℤ
  decr now key by s = incr now key (negate by) s

  pub cleanup_loop :
      ℕ → Map Text (MemoryEntry A) → Map Text (MemoryEntry A) → Map Text (MemoryEntry A)
  cleanup_loop now [] m = m
  cleanup_loop now ((key, entry) ∷ rest) m =
      cleanup_loop now rest (if is_expired now entry then Map.delete key m else m)

  unfoldable pub cleanup : ℕ → MemoryKvStore A → MemoryKvStore A
  cleanup now s = record s { store = cleanup_loop now s.store s.store }

-- A call that may change the store.
pub data StoreOp (A : Type 0) : Type 0 where
  get_op : ℕ → Text → StoreOp A
  set_op : ℕ → Text → Value A → Option ℕ → StoreOp A
  get_many_op : (Text → ℕ) → List Text → StoreOp A
  set_many_op : (Text → ℕ) → List (Text × Value A × Option ℕ) → StoreOp A
  delete_op : Text → StoreOp A
  has_op : ℕ → Text → StoreOp A
  keys_op : (Text → ℕ) → Option Text → StoreOp A
  clear_op : Option Text → StoreOp A
  ttl_op : ℕ → Text → StoreOp A
  incr_op : ℕ → Text → ℤ → StoreOp A
  cleanup_op : ℕ → StoreOp A

module _ {A : Type 0} where
  pub step : StoreOp A → MemoryKvStore A → MemoryKvStore A
  step (get_op n k) s = (get n k s).0
  step (set_op n k v t) s = set n k v t s
  step (get_many_op c ks) s = (get_many c ks s).0
  step (set_many_op c es) s = set_many c es s
  step (delete_op k) s = (delete k s).0
  step (has_op n k) s = (has n k s).0
  step (keys_op c p) s = (keys c p s).0
  step (clear_op p) s = clear p s
  step (ttl_op n k) s = (ttl n k s).0
  step (incr_op n k by) s = (incr n k by s).0
  step (cleanup_op n) s = cleanup n s

  pub run_ops : List (StoreOp A) → MemoryKvStore A → MemoryKvStore A
  run_ops [] s = s
  run_ops (op ∷ ops) s = run_ops ops (step op s)
