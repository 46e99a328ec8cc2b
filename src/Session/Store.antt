-- ===== src/Session/Store.antt =====
-- The part of `KVStore` of packages/cache/src/store.ts that sessions call, and what they rely on.
use celsian.Base.{ℕ, ◌+◌, ◌<◌, ◌≡◌, ◌≢◌, ◌⊎◌, Bool, Option, none, some, Text}

pub record KvStore (S V : Type 0) : Type 1 where
  pub get : ℕ → Text → S → S × Option V
  pub set : ℕ → Text → V → ℕ → S → S
  pub delete : Text → S → S × Bool
  -- The states that there are.
  pub IsValid : S → Type 0
  pub set-IsValid :
      (now : ℕ) (k : Text) (v : V) (ttl : ℕ) (s : S) → IsValid s → IsValid (set now k v ttl s)
  -- The keys that have an entry.
  pub Holds : Text → S → Type 0
  pub get-found : (now : ℕ) (k : Text) (v : V) (s : S) → (get now k s).1 ≡ some v → Holds k s
  pub get-Holds : (now : ℕ) (k j : Text) (s : S) → Holds j (get now k s).0 → Holds j s
  pub set-Holds :
      (now : ℕ) (k j : Text) (v : V) (ttl : ℕ) (s : S)
      → Holds j (set now k v ttl s)
      → (j ≡ k) ⊎ Holds j s
  pub delete-Holds : (k j : Text) (s : S) → Holds j (delete k s).0 → Holds j s
  -- A value is read back until its time is over, whatever is deleted besides.
  pub get-set :
      (now later : ℕ) (k : Text) (v : V) (ttl : ℕ) (s : S)
      → IsValid s
      → later < now + ttl
      → (get later k (set now k v ttl s)).1 ≡ some v
  pub get-delete_other :
      (now : ℕ) (k j : Text) (s : S)
      → IsValid s
      → j ≢ k
      → (get now k (delete j s).0).1 ≡ (get now k s).1
  pub get-delete : (now : ℕ) (k : Text) (s : S) → IsValid s → (get now k (delete k s).0).1 ≡ none
