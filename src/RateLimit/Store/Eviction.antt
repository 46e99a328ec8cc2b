-- ===== src/RateLimit/Store/Eviction.antt =====
-- Which entry makes room for a new key.
use celsian.Base.{
  ◌<◌, ◌≤◌, ℕ, zero, suc, ◌≡◌, ◌≢◌, ◌⊎◌, refl, ap, inl, inr, true, Option, none, some, [], ◌∷◌,
  Text, text_eq, arith, take, Bool-cases, All, text_beq_iff, subst,
}
use celsian.Map
use celsian.Map.{Map}
use celsian.Map.Laws.{Distinct, get_missing}
use celsian.RateLimit.Store.{
  WindowEntry, victim, weaker, is_weaker, is_over, evict_one, eviction_scan_limit,
}

abbrev IsAt : Text → WindowEntry → Option (Text × WindowEntry) → Type 0
IsAt k e w = w ≡ some (k, e)

weaker-cases :
    (w : Option (Text × WindowEntry)) (j k : Text) (x e : WindowEntry)
    → weaker w j x ≡ some (k, e)
    → (w ≡ some (k, e)) ⊎ ((j ≡ k) × (x ≡ e))
weaker-cases none j k x e h = inr (cc, cc)
weaker-cases (some (i, v)) j k x e h = elim (Bool-cases (is_weaker x v)) [
  | inl b ↦ inr (taken (rw (b, weaker) at h))
  | inr b ↦ inl (rw (b, weaker) at h)
]
  where
    taken : ◌≡◌ {A = Option (Text × WindowEntry)} (some (j, x)) (some (k, e)) → (j ≡ k) × (x ≡ e)
    taken h = (cc, cc)

some_pair :
    {j k : Text} {x e : WindowEntry}
    → ◌≡◌ {A = Option (Text × WindowEntry)} (some (j, x)) (some (k, e))
    → (j ≡ k) × (x ≡ e)
some_pair h = (cc, cc)

get_here :
    (j k : Text) (x e : WindowEntry) (m : Map Text WindowEntry)
    → j ≡ k
    → x ≡ e
    → Map.get k ((j, x) ∷ m) ≡ some e
unfolding Map.get
get_here j k x e m same entry = ground (arith, text_beq_iff j k, ap (λ y. some y) entry)

-- What is evicted stands in the map.
get-victim :
    (left now : ℕ) (w : Option (Text × WindowEntry)) (m : Map Text WindowEntry) (k : Text)
    (e : WindowEntry)
    → Distinct m
    → victim left now w m ≡ some (k, e)
    → (w ≡ some (k, e)) ⊎ (Map.get k m ≡ some e)
unfolding victim Map.get
get-victim left now w [] k e d h = inl h
get-victim zero now w (p ∷ m) k e d h = inl h
get-victim (suc left) now w ((j, x) ∷ m) k e d h = elim (Bool-cases (is_over now x)) [
  | inl over ↦
      let (same, entry) = some_pair (rw (over, victim) at h) in inr (get_here j k x e m same entry)
  | inr live ↦ elim (get-victim left now (weaker w j x) m k e d.1 (rw (live, victim) at h)) [
    | inr found ↦ inr (later found)
    | inl at_weaker ↦ elim (weaker-cases w j k x e at_weaker) [
      | inl before ↦ inl before
      | inr (same, entry) ↦ inr (get_here j k x e m same entry)
    ]
  ]
]
  where
    later : Map.get k m ≡ some e → Map.get k ((j, x) ∷ m) ≡ some e
    later found = ground (arith, text_beq_iff j k, get_missing k m)

-- An entry has a lower count than another, or the same count and no later end.
abbrev IsLeast : WindowEntry → WindowEntry → Type 0
IsLeast e x = (e.count < x.count) ⊎ ((e.count ≡ x.count) × (e.reset_at ≤ x.reset_at))

-- The first entries are all in force, and none is less established than `e`.
abbrev pub NoneWeaker : ℕ → ℕ → WindowEntry → Map Text WindowEntry → Type 0
NoneWeaker left now e m = All (λ p. (now < p.1.reset_at) × IsLeast e p.1) (take left m)

abbrev NotWeaker : Option (Text × WindowEntry) → WindowEntry → Type 0
NotWeaker none e = Unit
NotWeaker (some (k, w)) e = IsLeast e w

weaker-NotWeaker :
    (w : Option (Text × WindowEntry)) (j : Text) (x e : WindowEntry)
    → NotWeaker (weaker w j x) e
    → NotWeaker w e × IsLeast e x
weaker-NotWeaker none j x e h = (tt, h)
weaker-NotWeaker (some (k, w)) j x e h = ground arith

at_NotWeaker :
    (w : Option (Text × WindowEntry)) (k : Text) (e : WindowEntry) → w ≡ some (k, e) → NotWeaker w e
at_NotWeaker w k e h = rw h (ground arith)

victim-NoneWeaker :
    (left now : ℕ) (w : Option (Text × WindowEntry)) (m : Map Text WindowEntry) (k : Text)
    (e : WindowEntry)
    → victim left now w m ≡ some (k, e)
    → (is_over now e ≡ true) ⊎ (NotWeaker w e × NoneWeaker left now e m)
unfolding victim
victim-NoneWeaker zero now w [] k e h = inr (at_NotWeaker w k e h, tt)
victim-NoneWeaker (suc left) now w [] k e h = inr (at_NotWeaker w k e h, tt)
victim-NoneWeaker zero now w (p ∷ m) k e h = inr (at_NotWeaker w k e h, tt)
victim-NoneWeaker (suc left) now w ((j, x) ∷ m) k e h = elim (Bool-cases (is_over now x)) [
  | inl over ↦ inl (subst (λ y. is_over now y ≡ true) (some_pair (rw (over, victim) at h)).1 over)
  | inr live ↦ elim (victim-NoneWeaker left now (weaker w j x) m k e (rw (live, victim) at h)) [
    | inl over ↦ inl over
    | inr (before, rest) ↦
        let (a, b) = weaker-NotWeaker w j x e before in inr (a, ((ground (arith, live), b), rest))
  ]
]

victim_found :
    (left now : ℕ) (w : Text × WindowEntry) (m : Map Text WindowEntry)
    → (v : Text × WindowEntry) × (victim left now (some w) m ≡ some v)
unfolding victim
victim_found left now w [] = (w, refl)
victim_found zero now w (p ∷ m) = (w, refl)
victim_found (suc left) now (i, v) ((j, x) ∷ m) = elim (Bool-cases (is_over now x)) [
  | inl over ↦ ((j, x), rw (over, victim) refl)
  | inr live ↦ elim (Bool-cases (is_weaker x v)) [
    | inl b ↦
        let (y, e) = victim_found left now (j, x) m in (y, rw (live, victim) (rw (b, weaker) e))
    | inr b ↦
        let (y, e) = victim_found left now (i, v) m in (y, rw (live, victim) (rw (b, weaker) e))
  ]
]

nothing : {p : Text × WindowEntry} → ◌≡◌ {A = Option (Text × WindowEntry)} none (some p) → ⊥
nothing h = cc

first_victim :
    (left now : ℕ) (m : Map Text WindowEntry)
    → m ≢ []
    → (v : Text × WindowEntry) × (victim (suc left) now none m ≡ some v)
unfolding victim
first_victim left now [] n = absurd (n refl)
first_victim left now ((j, x) ∷ m) n = elim (Bool-cases (is_over now x)) [
  | inl over ↦ ((j, x), rw (over, victim) refl)
  | inr live ↦ let (y, e) = victim_found left now (j, x) m in (y, rw (live, victim) e)
]

in_map :
    (left now : ℕ) (m : Map Text WindowEntry) (k : Text) (e : WindowEntry)
    → Distinct m
    → victim left now none m ≡ some (k, e)
    → Map.get k m ≡ some e
in_map left now m k e d found = elim (get-victim left now none m k e d found) [
  | inl impossible ↦ absurd (nothing impossible)
  | inr there ↦ there
]

-- The eviction takes one entry out of a map that is not empty and has distinct keys. That entry is
-- over, or the first 16 entries of the map, as far as there are so many, are all in force and none
-- of them has a lower count, or the same count and an earlier end.
pub evict_one-NoneWeaker :
    (now : ℕ) (m : Map Text WindowEntry)
    → Distinct m
    → m ≢ []
    → (k : Text) × (e : WindowEntry) × (Map.get k m ≡ some e)
      × (evict_one now m ≡ Map.delete k m)
      × ((is_over now e ≡ true) ⊎ NoneWeaker eviction_scan_limit now e m)
unfolding evict_one
evict_one-NoneWeaker now m d n =
    let ((k, e), found) = first_victim 15 now m n in
    (
      k,
      e,
      in_map eviction_scan_limit now m k e d found,
      rw (found, evict_one) refl,
      elim (victim-NoneWeaker eviction_scan_limit now none m k e found) [
        | inl over ↦ inl over
        | inr (t, rest) ↦ inr rest
      ],
    )
