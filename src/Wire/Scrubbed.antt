-- ===== src/Wire/Scrubbed.antt =====
-- packages/rpc/src/wire.ts: what `decode` lets through.
use celsian.Base.{
  ◌≡◌, refl, subst, text_beq_iff, arith, inl, inr, ℕ, zero, suc, false, Option, none, some, Text,
  codes, ◌==◌, text_eq, Bool-cases,
}
use celsian.Wire.Types.{
  Json, Jsons, Members, Value, Values, Entries, null, boolean, number, string, array, object, nil,
  no_entry, cons, end, member, entry, set, map, AllValues, AllEntries, AllFields,
}
use celsian.Wire.Platform.{Platform, Result, ok, error, ◌>>=◌}
use celsian.Wire.Clean.{
  Inside, whole, letter, item, value, InsideAll, of_array, of_tag, later, InsideMembers, of_object,
  further, IsCarried, carried, IsFree, IsClean,
}
use celsian.Wire.Decode.{
  is_blocked, tagged, array_of, pair_of, next_point, second_point, handed_on, decode_all,
  decode_entries, rebuild, same, add, new_set_from, put, new_map_from, bigint_or_throw, decode_tag,
  decode_object, decode_optional, decode_value, decode, max_decode_depth,
}

-- What a decoding that succeeds ensures of its result.
abbrev Ensures : {A : Type 0} → (A → Type 0) → Result A → Type 0
Ensures P (ok a) = P a
Ensures P (error e) = Unit

module _ {A C : Type 0} (Q : C → Type 0) where
  Ensures-bind :
      (P : A → Type 0) (m : Result A) (f : A → Result C)
      → Ensures P m
      → ((a : A) → P a → Ensures Q (f a))
      → Ensures Q (m >>= f)
  Ensures-bind P (ok a) f h k = k a h
  Ensures-bind P (error e) f h k = tt

ensured : {A : Type 0} (P : A → Type 0) (m : Result A) (a : A) → Ensures P m → m ≡ ok a → P a
ensured P m a h e = rw e at h

free : (k : Text) → is_blocked k ≡ false → IsFree k
free k h = (
  λ e. ground (arith, text_beq_iff k (codes "__proto__")),
  λ e. ground (arith, text_beq_iff k (codes "constructor")),
  λ e. ground (arith, text_beq_iff k (codes "prototype")),
)

module _ {N D B : Type 0} (p : Platform N D B) (root : Json N) where
  abbrev Within : Json N → Type 0
  Within = Inside p root

  abbrev WithinAll : Jsons N → Type 0
  WithinAll = InsideAll p root

  -- A part of an entry, which may be missing.
  abbrev MaybeWithin : Option (Json N) → Type 0
  MaybeWithin none = Unit
  MaybeWithin (some j) = Within j

  second_point_lem :
      (s : Text) (point : Option (Text × Text))
      → Within (string s)
      → MaybeWithin (second_point {N = N} point).0 × MaybeWithin (second_point {N = N} point).1
  second_point_lem s none h = (tt, tt)
  second_point_lem s (some (c, rest)) h = (letter s c h, behind (next_point rest))
    where
      behind :
          (point : Option (Text × Text))
          → MaybeWithin (elim point as (λ o. Option (Json N)) [
            | none ↦ none
            | some (d, tail) ↦ some (string d)
          ])
      behind none = tt
      behind (some (d, tail)) = letter s d h

  pair_of_lem :
      (j : Json N) → Within j → Ensures (λ kv. MaybeWithin kv.0 × MaybeWithin kv.1) (pair_of j)
  pair_of_lem null h = tt
  pair_of_lem (boolean b) h = tt
  pair_of_lem (number n) h = tt
  pair_of_lem (object ms) h = tt
  pair_of_lem (string s) h = second_point_lem s (next_point s) h
  pair_of_lem (array nil) h = (tt, tt)
  pair_of_lem (array (cons k nil)) h = (item k nil (of_array (cons k nil) h), tt)
  pair_of_lem (array (cons k (cons v js))) h =
      let both = of_array (cons k (cons v js)) h in
      (item k (cons v js) both, item v js (later k (cons v js) both))

  module _ (P : Value N D B → Type 0) where
    module _ (f : Json N → Result (Value N D B))
        (each : (j : Json N) → Within j → Ensures P (f j)) where
      decode_all_lem : (js : Jsons N) → WithinAll js → Ensures (AllValues P) (decode_all f js)
      unfolding decode_all
      decode_all_lem nil h = tt
      decode_all_lem (cons j js) h =
          Ensures-bind (AllValues P) P (f j) _ (each j (item j js h)) λ x clean.
            Ensures-bind (AllValues P) (AllValues P) (decode_all f js) _
              (decode_all_lem js (later j js h)) λ xs others. (clean, others)

      rebuild_lem :
          (ms : Members N) → InsideMembers p root ms → Ensures (AllFields P IsFree) (rebuild f ms)
      unfolding rebuild
      rebuild_lem end h = tt
      rebuild_lem (member k j ms) h = elim (Bool-cases (is_blocked k)) [
        | inl blocked ↦ rw blocked (rebuild_lem ms (further k j ms h))
        | inr clear ↦ rw clear (
            Ensures-bind (AllFields P IsFree) P (f j) _ (each j (value k j ms h)) λ x clean.
              Ensures-bind (AllFields P IsFree) (AllFields P IsFree) (rebuild f ms) _
                (rebuild_lem ms (further k j ms h)) λ fs others. (free k clear, clean, others))
      ]

    decode_entries_lem :
        (f : Option (Json N) → Result (Value N D B))
        → ((j : Option (Json N)) → MaybeWithin j → Ensures P (f j))
        → (js : Jsons N) → WithinAll js
        → Ensures (AllEntries P) (decode_entries f js)
    unfolding decode_entries
    decode_entries_lem f each nil h = tt
    decode_entries_lem f each (cons j js) h =
        Ensures-bind (AllEntries P) (λ kv. MaybeWithin kv.0 × MaybeWithin kv.1) (pair_of j) _
          (pair_of_lem j (item j js h))
          λ kv (in_key, in_value).
            Ensures-bind (AllEntries P) P (f kv.0) _ (each kv.0 in_key) λ k key.
              Ensures-bind (AllEntries P) P (f kv.1) _ (each kv.1 in_value) λ v value.
                Ensures-bind (AllEntries P) (AllEntries P) (decode_entries f js) _
                  (decode_entries_lem f each js (later j js h)) λ es others. (key, value, others)

module _ {N D B : Type 0} (p : Platform N D B) (P : Value N D B → Type 0) where
  AllValues-add :
      (x : Value N D B) (xs : Values N D B) → P x → AllValues P xs → AllValues P (add p x xs)
  unfolding add
  AllValues-add x nil h hs = (h, tt)
  AllValues-add x (cons y ys) h (k, ks) = elim (Bool-cases (same p y x)) [
    | inl old ↦ rw old (k, ks)
    | inr new ↦ rw new (k, AllValues-add x ys h ks)
  ]

  AllValues-new_set_from :
      (acc xs : Values N D B)
      → AllValues P acc
      → AllValues P xs
      → AllValues P (new_set_from p acc xs)
  unfolding new_set_from
  AllValues-new_set_from acc nil h hs = h
  AllValues-new_set_from acc (cons x xs) h (k, ks) =
      AllValues-new_set_from (add p x acc) xs (AllValues-add x acc k h) ks

  AllEntries-put :
      (k v : Value N D B) (es : Entries N D B)
      → P k
      → P v
      → AllEntries P es
      → AllEntries P (put p k v es)
  unfolding put
  AllEntries-put k v no_entry a b hs = (a, b, tt)
  AllEntries-put k v (entry j w es) a b (c, d, hs) = elim (Bool-cases (same p j k)) [
    | inl old ↦ rw old (c, b, hs)
    | inr new ↦ rw new (c, d, AllEntries-put k v es a b hs)
  ]

  AllEntries-new_map_from :
      (acc es : Entries N D B)
      → AllEntries P acc
      → AllEntries P es
      → AllEntries P (new_map_from p acc es)
  unfolding new_map_from
  AllEntries-new_map_from acc no_entry h hs = h
  AllEntries-new_map_from acc (entry k v es) h (a, b, hs) =
      AllEntries-new_map_from (put p k v acc) es (AllEntries-put k v acc a b h) hs

array_of_lem : {N : Type 0} (v : Option (Json N)) → Ensures (λ js. v ≡ some (array js)) (array_of v)
array_of_lem none = tt
array_of_lem (some null) = tt
array_of_lem (some (boolean b)) = tt
array_of_lem (some (number n)) = tt
array_of_lem (some (string s)) = tt
array_of_lem (some (object ms)) = tt
array_of_lem (some (array js)) = refl

module _ {N D B : Type 0} (p : Platform N D B) (root : Json N) (n : ℕ) where
  abbrev Clean : ℕ → Value N D B → Type 0
  Clean = IsClean p root

  bigint_or_throw_lem : (b : Option B) → Ensures (Clean (suc n)) (bigint_or_throw b)
  unfolding IsClean
  bigint_or_throw_lem none = tt
  bigint_or_throw_lem (some b) = tt

  handed_on_lem : (j : Json N) → IsCarried p root j → Clean (suc n) (handed_on j)
  unfolding IsClean
  handed_on_lem null h = tt
  handed_on_lem (boolean b) h = tt
  handed_on_lem (number m) h = tt
  handed_on_lem (string s) h = tt
  handed_on_lem (array js) h = h
  handed_on_lem (object ms) h = h

  module _ (item : Json N → Result (Value N D B)) (part : Option (Json N) → Result (Value N D B))
      (each : (j : Json N) → Inside p root j → Ensures (Clean n) (item j))
      (every : (j : Option (Json N)) → MaybeWithin p root j → Ensures (Clean n) (part j)) where
    rebuilt_lem :
        (ms : Members N)
        → Inside p root (object ms)
        → Ensures (Clean (suc n)) (rebuild item ms >>= λ fs. ok (object fs))
    unfolding IsClean
    rebuilt_lem ms h =
        Ensures-bind (Clean (suc n)) (AllFields (Clean n) IsFree) (rebuild item ms) _
          (rebuild_lem p root (Clean n) item each ms (of_object ms h)) λ fs k. k

    -- What stands in the text of a Set or a Map.
    decoded_set_lem :
        (v : Option (Json N))
        → ((js : Jsons N) → v ≡ some (array js) → InsideAll p root js)
        → Ensures
            (Clean (suc n))
            (array_of v >>= λ js. decode_all item js >>= λ xs. ok (set (new_set_from p nil xs)))
    unfolding IsClean
    decoded_set_lem v inner =
        Ensures-bind (Clean (suc n)) (λ js. v ≡ some (array js)) (array_of v) _ (array_of_lem v)
          λ js e.
            Ensures-bind (Clean (suc n)) (AllValues (Clean n)) (decode_all item js) _
              (decode_all_lem p root (Clean n) item each js (inner js e))
              λ xs h. AllValues-new_set_from p (Clean n) nil xs tt h

    decoded_map_lem :
        (v : Option (Json N))
        → ((js : Jsons N) → v ≡ some (array js) → InsideAll p root js)
        → Ensures (Clean (suc n)) (
            array_of v >>= λ js.
            decode_entries part js >>= λ es. ok (map (new_map_from p no_entry es)))
    unfolding IsClean
    decoded_map_lem v inner =
        Ensures-bind (Clean (suc n)) (λ js. v ≡ some (array js)) (array_of v) _ (array_of_lem v)
          λ js e.
            Ensures-bind (Clean (suc n)) (AllEntries (Clean n)) (decode_entries part js) _
              (decode_entries_lem p root (Clean n) part every js (inner js e))
              λ es h. AllEntries-new_map_from p (Clean n) no_entry es tt h

    decode_tag_lem :
        (ms : Members N) (t : Text) (v : Json N)
        → Inside p root (object ms)
        → tagged ms ≡ some (string t, v)
        → Ensures (Clean (suc n)) (decode_tag p item part ms t v)
    unfolding decode_tag IsClean
    decode_tag_lem ms t v h tag =
        let inner = λ (js : Jsons N) (e : p.parse v ≡ some (array js)). of_tag ms t v js h tag e in
        elim (Bool-cases (t == codes "Date")) [
          | inl is ↦ rw is tt
          | inr a ↦ rw a (elim (Bool-cases (t == codes "BigInt")) [
            | inl is ↦ rw is (bigint_or_throw_lem (p.to_bigint v))
            | inr b ↦ rw b (elim (Bool-cases (t == codes "Undefined")) [
              | inl is ↦ rw is tt
              | inr c ↦ rw c (elim (Bool-cases (t == codes "Set")) [
                | inl is ↦ rw is (decoded_set_lem (p.parse v) inner)
                | inr d ↦ rw d (elim (Bool-cases (t == codes "Map")) [
                  | inl is ↦ rw is (decoded_map_lem (p.parse v) inner)
                  | inr e ↦ rw e (elim (Bool-cases (t == codes "RegExp")) [
                    | inr f ↦ rw f (rebuilt_lem ms h)
                    | inl is ↦ rw is (
                        handed_on_lem v (
                          carried ms h (
                            subst (λ x. tagged ms ≡ some (string x, v))
                              ((text_beq_iff t (codes "RegExp")).0 is) tag)))
                  ])
                ])
              ])
            ])
          ])
        ]

    decode_object_lem :
        (ms : Members N) (t : Option (Json N × Json N))
        → Inside p root (object ms)
        → tagged ms ≡ t
        → Ensures (Clean (suc n)) (decode_object p item part ms t)
    unfolding decode_object
    decode_object_lem ms none h e = rebuilt_lem ms h
    decode_object_lem ms (some (string t, v)) h e = decode_tag_lem ms t v h e
    decode_object_lem ms (some (null, v)) h e = rebuilt_lem ms h
    decode_object_lem ms (some (boolean b, v)) h e = rebuilt_lem ms h
    decode_object_lem ms (some (number m, v)) h e = rebuilt_lem ms h
    decode_object_lem ms (some (array js, v)) h e = rebuilt_lem ms h
    decode_object_lem ms (some (object fs, v)) h e = rebuilt_lem ms h

module _ {N D B : Type 0} (p : Platform N D B) (root : Json N) where
  decode_optional_lem :
      (n : ℕ) (f : Json N → Result (Value N D B))
      → ((j : Json N) → Inside p root j → Ensures (IsClean p root n) (f j))
      → (j : Option (Json N)) → MaybeWithin p root j
      → Ensures (IsClean p root n) (decode_optional p n f j)
  unfolding IsClean
  decode_optional_lem n f each (some j) h = each j h
  decode_optional_lem zero f each none h = tt
  decode_optional_lem (suc n) f each none h = tt

  decode_value_lem :
      (n : ℕ) (j : Json N) → Inside p root j → Ensures (IsClean p root n) (decode_value p n j)
  unfolding decode_value IsClean
  decode_value_lem n null h = tt
  decode_value_lem n (boolean b) h = tt
  decode_value_lem n (number m) h = tt
  decode_value_lem n (string s) h = tt
  decode_value_lem zero (array js) h = tt
  decode_value_lem zero (object ms) h = tt
  decode_value_lem (suc n) (array js) h =
      Ensures-bind (IsClean p root (suc n)) (AllValues (IsClean p root n))
        (decode_all (decode_value p n) js) _
        (decode_all_lem p root (IsClean p root n) (decode_value p n) (decode_value_lem n) js
          (of_array js h))
        λ xs k. k
  decode_value_lem (suc n) (object ms) h =
      decode_object_lem p root n (decode_value p n) (decode_optional p n (decode_value p n))
        (decode_value_lem n) (decode_optional_lem n (decode_value p n) (decode_value_lem n)) ms
        (tagged ms) h refl

  -- Whatever JSON a caller sends, a value that `decode` makes of it nests at most 32 levels, has no
  -- object with a key `__proto__`, `constructor` or `prototype`, and no regular expression. The one
  -- thing that is handed on as it was parsed, not looked into, is what a `RegExp` tag inside the JSON
  -- carries.
  pub decode-IsClean : (x : Value N D B) → decode p root ≡ ok x → IsClean p root max_decode_depth x
  decode-IsClean x h =
      ensured (IsClean p root max_decode_depth) (decode p root) x
        (decode_value_lem max_decode_depth root whole) h
