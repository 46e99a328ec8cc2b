-- ===== src/Edge/RouteCache/Laws.antt =====
-- packages/edge-router/src/router.ts: the map and the queue of `RouteCache` agree, within its size.
use celsian.Base.{
  ◌+◌, ◌≤◌, ◌≡◌, refl, sym, ap, ◌∙◌, inl, inr, true, false, List, [], ◌∷◌, ◌++◌, map, Text, text_eq,
  ==_refl, leb, length, length-append, Bool-cases, arith,
}
use mathlib.Core.List.{tail, cons-ne-nil}
use celsian.Map
use celsian.Map.{Map}
use celsian.Map.Laws.{Absent, Distinct, set_missing, set-Distinct, Absent-has}
use celsian.Edge.RouteCache.{RouteCache, max_cache_size, empty, evict, make_room, set}

pub record IsValid {V : Type 0} (c : RouteCache V) : Type 0 where
  pub distinct : Distinct c.map
  pub queued : c.keys ≡ map (λ e. e.0) c.map
  pub bounded : length c.keys ≤ max_cache_size

module _ {V : Type 0} where
  pub empty-IsValid : IsValid (empty {V = V})
  empty-IsValid = record { distinct = tt; queued = refl; bounded = omega arith }

  length-keys : (m : Map Text V) → length (map (λ e. e.0) m) ≡ length m
  length-keys [] = refl
  length-keys (e ∷ m) = omega (arith, length-keys m)

  keys-set_present :
      (k : Text) (v : V) (m : Map Text V)
      → Map.has k m ≡ true
      → map (λ e. e.0) (Map.set k v m) ≡ map (λ e. e.0) m
  unfolding Map.set Map.has
  keys-set_present k v [] h = cc
  keys-set_present k v ((j, w) ∷ m) h = ground (arith, keys-set_present k v m)

  keys-append :
      (k : Text) (v : V) (m : Map Text V)
      → map (λ e. e.0) (m ++ (k, v) ∷ []) ≡ map (λ e. e.0) m ++ k ∷ []
  keys-append k v [] = refl
  keys-append k v (e ∷ m) = ap (λ x. e.0 ∷ x) (keys-append k v m)

  -- A cache with room for a key that it does not hold.
  record HasRoom (k : Text) (c : RouteCache V) : Type 0 where
    valid : IsValid c
    absent : Absent k c.map
    free : length c.keys + 1 ≤ max_cache_size

  -- The oldest key of the queue is the first of the map.
  evict-HasRoom :
      (k : Text) (m : Map Text V) (ks : List Text)
      → ks ≡ map (λ e. e.0) m
      → Distinct m
      → Absent k m
      → leb max_cache_size (length ks) ≡ true
      → length ks ≤ max_cache_size
      → HasRoom k (evict (record { map = m; keys = ks }))
  unfolding evict Map.delete
  evict-HasRoom k [] [] e d a full bound = absurd (ground arith)
  evict-HasRoom k [] (x ∷ ks) e d a full bound = absurd (cons-ne-nil x ks e)
  evict-HasRoom k (p ∷ m) [] e d a full bound = absurd (ground arith)
  evict-HasRoom k ((j, v) ∷ m) (x ∷ ks) e (_, d) (_, a) full bound = record {
    valid = record {
      distinct = rw (first_key, ==_refl j) d;
      queued = rw (first_key, ==_refl j) (ap tail e);
      bounded = omega arith;
    };
    absent = rw (first_key, ==_refl j) a;
    free = omega arith;
  }
    where
      first_key : x ≡ j
      first_key = cc

  make_room-HasRoom :
      (k : Text) (c : RouteCache V) → IsValid c → Map.has k c.map ≡ false → HasRoom k (make_room c)
  unfolding make_room
  make_room-HasRoom k c v new = elim (Bool-cases (leb max_cache_size (length c.keys))) [
    | inl full ↦
        rw full
          (evict-HasRoom k c.map c.keys v.queued v.distinct (Absent-has k c.map new) full v.bounded)
    | inr free ↦
        rw free (record { valid = v; absent = Absent-has k c.map new; free = ground arith })
  ]

  add-IsValid :
      (k : Text) (x : V) (c : RouteCache V)
      → HasRoom k c
      → IsValid (record { map = Map.set k x c.map; keys = c.keys ++ k ∷ [] })
  add-IsValid k x c r = record {
    distinct = set-Distinct k x c.map r.valid.distinct;
    queued = rw (set_missing k x c.map r.absent, r.valid.queued, keys-append k x c.map) refl;
    bounded = omega (arith, length-append c.keys (k ∷ []), r.free);
  }

  pub set-IsValid : (k : Text) (x : V) (c : RouteCache V) → IsValid c → IsValid (set k x c)
  unfolding set
  set-IsValid k x c v = elim (Bool-cases (Map.has k c.map)) [
    | inl known ↦ rw known (record {
      distinct = set-Distinct k x c.map v.distinct;
      queued = v.queued ∙ sym (keys-set_present k x c.map known);
      bounded = v.bounded;
    })
    | inr new ↦ rw new (add-IsValid k x (make_room c) (make_room-HasRoom k c v new))
  ]
