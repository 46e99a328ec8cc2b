-- ===== src/Wire/Decode.antt =====
-- packages/rpc/src/wire.ts: `decode` and its helpers. The fuel is the number of levels that are left
-- of MAX_DECODE_DEPTH, and at none the code throws, so the recursion is the code's own.
use celsian.Base.{
  ℕ, zero, suc, Bool, true, false, ◌||◌, ◌&&◌, Option, none, some, [], ◌∷◌, Text, codes, leb,
  text_eq, ◌==◌, if◌then◌else◌,
}
use celsian.Wire.Platform.{Platform, too_deep, not_an_array, native, Result, ok, error, ◌>>=◌}
use celsian.Wire.Types.{
  Json, Jsons, Members, Value, Values, Entries, Fields, null, boolean, number, string, array,
  object, nil, no_entry, cons, end, member, entry, field, undefined, date, bigint, set, map, parsed,
}

abbrev pub is_blocked : Text → Bool
is_blocked k = k == codes "__proto__" || k == codes "constructor" || k == codes "prototype"

abbrev pub max_decode_depth : ℕ
max_decode_depth = 32

-- The first code point of a text, as an iteration over the text gives it.
abbrev pub is_pair : ℕ → ℕ → Bool
is_pair c d = (leb 0xd800 c && leb c 0xdbff) && (leb 0xdc00 d && leb d 0xdfff)

abbrev pub next_point : Text → Option (Text × Text)
next_point [] = none
next_point (c ∷ []) = some (c ∷ [], [])
next_point (c ∷ d ∷ s) = if is_pair c d then some (c ∷ d ∷ [], s) else some (c ∷ [], d ∷ s)

module _ {N : Type 0} where
  unfoldable pub get_member : Text → Members N → Option (Json N)
  get_member k end = none
  get_member k (member j v ms) = if j == k then some v else get_member k ms

  abbrev pub both : Option (Json N) → Option (Json N) → Option (Json N × Json N)
  both (some t) (some v) = some (t, v)
  both (some t) none = none
  both none v = none

  -- `"__t" in obj && "v" in obj`, with the two fields.
  abbrev pub tagged : Members N → Option (Json N × Json N)
  tagged ms = both (get_member (codes "__t") ms) (get_member (codes "v") ms)

  abbrev pub array_of : Option (Json N) → Result (Jsons N)
  array_of none = error native
  array_of (some (array js)) = ok js
  array_of (some null) = error not_an_array
  array_of (some (boolean b)) = error not_an_array
  array_of (some (number n)) = error not_an_array
  array_of (some (string s)) = error not_an_array
  array_of (some (object ms)) = error not_an_array

  abbrev pub second_point : Option (Text × Text) → Option (Json N) × Option (Json N)
  second_point none = (none, none)
  second_point (some (c, rest)) = (
    some (string c),
    elim (next_point rest) [ none ↦ none | some (d, further) ↦ some (string d) ],
  )

  -- `const [k, val] = entry`
  abbrev pub pair_of : Json N → Result (Option (Json N) × Option (Json N))
  pair_of (array nil) = ok (none, none)
  pair_of (array (cons k nil)) = ok (some k, none)
  pair_of (array (cons k (cons v js))) = ok (some k, some v)
  pair_of (string s) = ok (second_point (next_point s))
  pair_of null = error native
  pair_of (boolean b) = error native
  pair_of (number n) = error native
  pair_of (object ms) = error native

module _ {N D B : Type 0} where
  -- `return v`: what JSON made is handed on.
  abbrev pub handed_on : Json N → Value N D B
  handed_on null = null
  handed_on (boolean b) = boolean b
  handed_on (number n) = number n
  handed_on (string s) = string s
  handed_on (array js) = parsed (array js)
  handed_on (object ms) = parsed (object ms)

  abbrev pub bigint_or_throw : Option B → Result (Value N D B)
  bigint_or_throw none = error native
  bigint_or_throw (some b) = ok (bigint b)

  unfoldable pub decode_all : (Json N → Result (Value N D B)) → Jsons N → Result (Values N D B)
  decode_all f nil = ok nil
  decode_all f (cons j js) = f j >>= λ x. decode_all f js >>= λ xs. ok (cons x xs)

  unfoldable pub decode_entries :
      (Option (Json N) → Result (Value N D B)) → Jsons N → Result (Entries N D B)
  decode_entries f nil = ok no_entry
  decode_entries f (cons j js) = pair_of j >>= λ kv.
      f kv.0 >>= λ k. f kv.1 >>= λ v. decode_entries f js >>= λ es. ok (entry k v es)

  -- The loop of `rebuildPlainObject`.
  unfoldable pub rebuild : (Json N → Result (Value N D B)) → Members N → Result (Fields N D B)
  rebuild f end = ok end
  rebuild f (member k j ms) =
      let rest = rebuild f ms in
      if is_blocked k then rest else (f j >>= λ x. rest >>= λ fs. ok (field k x fs))

module _ {N D B : Type 0} (p : Platform N D B) where
  -- What a Set or a Map takes for one value. Each object that `decode` makes is a new one.
  abbrev pub same : Value N D B → Value N D B → Bool
  same undefined undefined = true
  same null null = true
  same (boolean true) (boolean b) = b
  same (boolean false) (boolean true) = false
  same (boolean false) (boolean false) = true
  same (number m) (number n) = p.same_number m n
  same (string s) (string t) = s == t
  same (bigint a) (bigint b) = p.same_bigint a b
  same _ _ = false

  -- `new Set(values)` and `new Map(entries)`, by insertion in order.
  unfoldable pub add : Value N D B → Values N D B → Values N D B
  add x nil = cons x nil
  add x (cons y ys) = if same y x then cons y ys else cons y (add x ys)

  unfoldable pub new_set_from : Values N D B → Values N D B → Values N D B
  new_set_from acc nil = acc
  new_set_from acc (cons x xs) = new_set_from (add x acc) xs

  unfoldable pub put : Value N D B → Value N D B → Entries N D B → Entries N D B
  put k v no_entry = entry k v no_entry
  put k v (entry j w es) = if same j k then entry j v es else entry j w (put k v es)

  unfoldable pub new_map_from : Entries N D B → Entries N D B → Entries N D B
  new_map_from acc no_entry = acc
  new_map_from acc (entry k v es) = new_map_from (put k v acc) es

  -- The switch over the tag, with the recursive calls as functions.
  unfoldable pub decode_tag :
      (decode_item : Json N → Result (Value N D B))
      (decode_part : Option (Json N) → Result (Value N D B)) (ms : Members N) (tag : Text)
      (v : Json N)
      → Result (Value N D B)
  decode_tag item part ms tag v =
      if tag == codes "Date"
      then ok (date (p.new_date v))
      else if tag == codes "BigInt"
      then bigint_or_throw (p.to_bigint v)
      else if tag == codes "Undefined"
      then ok undefined
      else if tag == codes "Set"
      then (array_of (p.parse v) >>= λ js.
          decode_all item js >>= λ xs. ok (set (new_set_from nil xs)))
      else if tag == codes "Map"
      then (array_of (p.parse v) >>= λ js.
          decode_entries part js >>= λ es. ok (map (new_map_from no_entry es)))
      else if tag == codes "RegExp"
      then ok (handed_on v)
      else (rebuild item ms >>= λ fs. ok (object fs))

  unfoldable pub decode_object :
      (decode_item : Json N → Result (Value N D B))
      (decode_part : Option (Json N) → Result (Value N D B)) (ms : Members N)
      (tag : Option (Json N × Json N))
      → Result (Value N D B)
  decode_object item part ms (some (string t, v)) = decode_tag item part ms t v
  decode_object item part ms _ = rebuild item ms >>= λ fs. ok (object fs)

  -- A part of an entry may not be there; `decodeValue(undefined)` tests the depth first.
  abbrev pub decode_optional :
      ℕ → (Json N → Result (Value N D B)) → Option (Json N) → Result (Value N D B)
  decode_optional n f (some j) = f j
  decode_optional zero f none = error too_deep
  decode_optional (suc n) f none = ok undefined

  unfoldable pub decode_value : ℕ → Json N → Result (Value N D B)
  decode_value n null = ok null
  decode_value n (boolean b) = ok (boolean b)
  decode_value n (number m) = ok (number m)
  decode_value n (string s) = ok (string s)
  decode_value zero (array js) = error too_deep
  decode_value zero (object ms) = error too_deep
  decode_value (suc n) (array js) = decode_all (decode_value n) js >>= λ xs. ok (array xs)
  decode_value (suc n) (object ms) =
      decode_object (decode_value n) (decode_optional n (decode_value n)) ms (tagged ms)

  abbrev pub decode : Json N → Result (Value N D B)
  decode = decode_value max_decode_depth
