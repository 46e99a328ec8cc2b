-- ===== src/Wire/RoundTrip.antt =====
-- packages/rpc/src/wire.ts: `decode` after `encode`.
use celsian.Base.{
  ◌≡◌, refl, ℕ, zero, suc, Bool, true, false, ◌&&◌, Option, none, some, List, [], ◌∷◌, Text, codes,
  text_eq, text_beq, ◌==◌, if◌then◌else◌, Bool-cases, inl, inr, arith,
}
use celsian.Wire.Types.{
  Json, Members, Value, Values, Entries, Fields, null, boolean, number, string, array, object, nil,
  no_entry, cons, end, member, entry, field, undefined, date, bigint, regexp, set, map, parsed,
  AllValues, AllEntries, AllFields,
}
use celsian.Wire.Platform.{
  Platform, keys_of, IsWritable, AreWritable, MembersAreWritable, ReadsBack, Result, ok, ◌>>=◌,
}
use celsian.Wire.Encode.{tagged_value, encode, encode_all, encode_entries, encode_fields}
use celsian.Wire.Decode.{
  is_blocked, get_member, both, tagged, decode_all, decode_entries, rebuild, new_set_from,
  new_map_from, decode_tag, decode_object, decode_optional, decode_value, decode, max_decode_depth,
}

module _ {N D B : Type 0} where
  unfoldable pub has_field : Text → Fields N D B → Bool
  has_field k end = false
  has_field k (field j x fs) = if j == k then true else has_field k fs

  unfoldable pub names_of : Fields N D B → List Text
  names_of end = []
  names_of (field k x fs) = k ∷ names_of fs

  -- An object that `decode` would take for a tagged value.
  abbrev pub looks_tagged : Fields N D B → Bool
  looks_tagged fs = has_field (codes "__t") fs && has_field (codes "v") fs

-- What the two sides can exchange: at most `n` levels, where a tag is one, numbers that JSON writes as
-- they are, dates that are times, no blocked key, no object like a tagged value, the elements of a
-- Set and the keys of a Map distinct, and no regular expression or parsed payload. The fields of an
-- object stand in the order in which the language lists them.
unfoldable pub IsSendable : {N D B : Type 0} → Platform N D B → ℕ → Value N D B → Type 0
IsSendable p n null = Unit
IsSendable p n (boolean b) = Unit
IsSendable p n (number m) = p.is_plain_number m ≡ true
IsSendable p n (string s) = Unit
IsSendable p n (parsed j) = ⊥
IsSendable p n (regexp r) = ⊥
IsSendable p zero undefined = ⊥
IsSendable p zero (date d) = ⊥
IsSendable p zero (bigint b) = ⊥
IsSendable p zero (set xs) = ⊥
IsSendable p zero (map es) = ⊥
IsSendable p zero (array xs) = ⊥
IsSendable p zero (object fs) = ⊥
IsSendable p (suc n) undefined = Unit
IsSendable p (suc n) (date d) = (s : Text) × (p.to_iso_string d ≡ some s)
IsSendable p (suc n) (bigint b) = Unit
IsSendable p (suc n) (set xs) = AllValues (IsSendable p n) xs × (new_set_from p nil xs ≡ xs)
IsSendable p (suc n) (map es) = AllEntries (IsSendable p n) es × (new_map_from p no_entry es ≡ es)
IsSendable p (suc n) (array xs) = AllValues (IsSendable p n) xs
IsSendable p (suc n) (object fs) =
    AllFields (IsSendable p n) (λ k. is_blocked k ≡ false) fs
    × (looks_tagged fs ≡ false)
    × (p.are_own_keys (names_of fs) ≡ true)

-- `m` gives something with `W`, of which `f` makes `b`.
abbrev Travels : {A C : Type 0} → (A → Type 0) → Result A → (A → Result C) → C → Type 0
Travels {A} W m f b = (a : A) × (m ≡ ok a) × (f a ≡ ok b) × W a

arrives :
    {A C : Type 0} (W : A → Type 0) (m : Result A) (f : A → Result C) (b : C)
    → Travels W m f b
    → m >>= f ≡ ok b
arrives W m f b (a, made, read, w) = rw made read

abbrev is_there : {N : Type 0} → Option (Json N) → Bool
is_there none = false
is_there (some j) = true

both-none :
    {N : Type 0} (t v : Option (Json N)) → is_there t && is_there v ≡ false → both t v ≡ none
both-none none v h = refl
both-none (some t) none h = refl
both-none (some t) (some v) h = cc

not_proto : (k : Text) → is_blocked k ≡ false → k == codes "__proto__" ≡ false
not_proto k h = ground arith

module _ {N D B : Type 0} (p : Platform N D B) (P : Value N D B → Type 0) where
  module _ (f : Json N → Result (Value N D B))
      (sent : (x : Value N D B) → P x → Travels (IsWritable p) (encode p x) f x) where
    encode_all-decode_all :
        (xs : Values N D B)
        → AllValues P xs
        → Travels (AreWritable p) (encode_all p xs) (decode_all f) xs
    unfolding encode decode_all IsWritable
    encode_all-decode_all nil h = (nil, refl, refl, tt)
    encode_all-decode_all (cons x xs) (h, hs) =
        let (j, made, read, w) = sent x h in
        let (js, others, reads, ws) = encode_all-decode_all xs hs in
        (cons j js, rw (made, others) refl, rw (read, reads) refl, (w, ws))

    encode_fields-rebuild :
        (fs : Fields N D B)
        → AllFields P (λ k. is_blocked k ≡ false) fs
        → (ms : Members N) × (encode_fields p fs ≡ ok ms)
          × (rebuild f ms ≡ ok fs)
          × MembersAreWritable p ms
          × (keys_of ms ≡ names_of fs)
          × ((key : Text) → is_there (get_member key ms) ≡ has_field key fs)
    unfolding encode rebuild get_member has_field IsWritable keys_of names_of
    encode_fields-rebuild end h = (end, refl, refl, tt, refl, λ key. refl)
    encode_fields-rebuild (field k x fs) (free, h, hs) =
        let (j, made, read, w) = sent x h in
        let (ms, others, reads, ws, keys, same) = encode_fields-rebuild fs hs in
        (
          member k j ms,
          rw (made, others, not_proto k free) refl,
          rw (free, read, reads) refl,
          (w, ws),
          rw keys refl,
          λ key. elim (Bool-cases (k == key)) [
            | inl is ↦ rw is refl
            | inr other ↦ rw other (same key)
          ],
        )

  encode_entries-decode_entries :
      (n : ℕ) (f : Json N → Result (Value N D B))
      (sent : (x : Value N D B) → P x → Travels (IsWritable p) (encode p x) f x)
      (es : Entries N D B)
      → AllEntries P es
      → Travels (AreWritable p) (encode_entries p es) (decode_entries (decode_optional p n f)) es
  unfolding encode decode_entries IsWritable
  encode_entries-decode_entries n f sent no_entry h = (nil, refl, refl, tt)
  encode_entries-decode_entries n f sent (entry k v es) (h, l, hs) =
      let (a, key, reads_key, w) = sent k h in
      let (b, value, reads_value, u) = sent v l in
      let (js, others, reads, ws) = encode_entries-decode_entries n f sent es hs in
      (
        cons (array (cons a (cons b nil))) js,
        rw (key, value, others) refl,
        rw (reads_key, reads_value, reads) refl,
        ((w, (u, tt)), ws),
      )

module _ {N D B : Type 0} (p : Platform N D B) (n : ℕ) where
  decode_value-tagged_value :
      (t : Text) (v : Json N)
      → decode_value p (suc n) (tagged_value t v)
        ≡ decode_tag p
            (decode_value p n)
            (decode_optional p n (decode_value p n))
            (member (codes "__t") (string t) (member (codes "v") v end))
            t
            v
  unfolding decode_value get_member decode_object text_beq
  decode_value-tagged_value t v = refl

module _ {N D B : Type 0} (p : Platform N D B) (back : ReadsBack p) where
  tagged_value-IsWritable : (t : Text) (s : Text) → IsWritable p (tagged_value t (string s))
  unfolding IsWritable keys_of
  tagged_value-IsWritable t s = ((tt, (tt, tt)), back.tag_keys)

  travels :
      (n : ℕ) (x : Value N D B)
      → IsSendable p n x
      → Travels (IsWritable p) (encode p x) (decode_value p n) x
  unfolding encode decode_value decode_tag decode_object text_beq IsSendable IsWritable
  travels n null h = (null, refl, refl, tt)
  travels n (boolean b) h = (boolean b, refl, refl, tt)
  travels n (number m) h = (number m, refl, refl, h)
  travels n (string s) h = (string s, refl, refl, tt)
  travels (suc n) undefined h = (
    tagged_value (codes "Undefined") (string []),
    refl,
    rw (decode_value-tagged_value p n) refl,
    tagged_value-IsWritable (codes "Undefined") [],
  )
  travels (suc n) (bigint b) h = (
    tagged_value (codes "BigInt") (string (p.bigint_to_string b)),
    refl,
    rw (decode_value-tagged_value p n) (rw (back.bigints b) refl),
    tagged_value-IsWritable (codes "BigInt") (p.bigint_to_string b),
  )
  travels (suc n) (date d) (s, time) = (
    tagged_value (codes "Date") (string s),
    rw time refl,
    rw (decode_value-tagged_value p n) (rw (back.dates d s time) refl),
    tagged_value-IsWritable (codes "Date") s,
  )
  travels (suc n) (set xs) (h, distinct) =
      let (js, made, read, w) =
        encode_all-decode_all p (IsSendable p n) (decode_value p n) (travels n) xs h in
      (
        tagged_value (codes "Set") (string (p.stringify (array js))),
        rw made refl,
        rw (decode_value-tagged_value p n) (rw (back.texts (array js) w, read, distinct) refl),
        tagged_value-IsWritable (codes "Set") (p.stringify (array js)),
      )
  travels (suc n) (map es) (h, distinct) =
      let (js, made, read, w) =
        encode_entries-decode_entries p (IsSendable p n) n (decode_value p n) (travels n) es h in
      (
        tagged_value (codes "Map") (string (p.stringify (array js))),
        rw made refl,
        rw (decode_value-tagged_value p n) (rw (back.texts (array js) w, read, distinct) refl),
        tagged_value-IsWritable (codes "Map") (p.stringify (array js)),
      )
  travels (suc n) (array xs) h =
      let (js, made, read, w) =
        encode_all-decode_all p (IsSendable p n) (decode_value p n) (travels n) xs h in
      (array js, rw made refl, rw read refl, w)
  travels (suc n) (object fs) (h, plain, own) =
      let (ms, made, read, ws, keys, same) =
        encode_fields-rebuild p (IsSendable p n) (decode_value p n) (travels n) fs h in
      let untagged : tagged ms ≡ none =
        both-none (get_member (codes "__t") ms) (get_member (codes "v") ms)
          (rw (same (codes "__t"), same (codes "v")) plain) in
      (object ms, rw made refl, rw (untagged, read) refl, (ws, rw keys own))
  travels zero undefined h = elim h [ ]
  travels zero (date d) h = elim h [ ]
  travels zero (bigint b) h = elim h [ ]
  travels zero (set xs) h = elim h [ ]
  travels zero (map es) h = elim h [ ]
  travels zero (array xs) h = elim h [ ]
  travels zero (object fs) h = elim h [ ]
  travels n (regexp r) h = elim h [ ]
  travels n (parsed j) h = elim h [ ]

  -- Where the language reads back what it writes without a loss, `decode` gives back what `encode` was
  -- given: a value of at most 32 levels, a tag counting as one, whose numbers JSON writes as they are
  -- (not NaN, an infinity or the negative zero), whose dates are times, whose Sets and Maps have
  -- distinct elements and keys, whose objects have no blocked key, not both fields of a tag and their
  -- keys in the language's order, and which holds no regular expression and no payload of one.
  pub encode-decode :
      (x : Value N D B) → IsSendable p max_decode_depth x → encode p x >>= decode p ≡ ok x
  encode-decode x h =
      arrives (IsWritable p) (encode p x) (decode p) x (travels max_decode_depth x h)
