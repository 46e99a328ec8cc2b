-- ===== src/Wire/Encode.antt =====
-- packages/rpc/src/wire.ts: `encode`. It throws where a date is no time.
use celsian.Base.{Option, none, some, [], Text, codes, text_eq, ◌==◌, if◌then◌else◌}
use celsian.Wire.Types.{
  Json, Jsons, Members, Value, Values, Entries, Fields, null, boolean, number, string, array,
  object, nil, no_entry, cons, end, member, entry, field, undefined, date, bigint, regexp, set, map,
  parsed,
}
use celsian.Wire.Platform.{Platform, native, Result, ok, error, ◌>>=◌}

module _ {N : Type 0} where
  -- `{ __t: tag, v }`
  abbrev pub tagged_value : Text → Json N → Json N
  tagged_value tag v = object (member (codes "__t") (string tag) (member (codes "v") v end))

  -- `result[k] = value` on a fresh object, for a key that is not there: at `__proto__` it sets the
  -- prototype and makes no field.
  abbrev pub assign : Text → Json N → Members N → Members N
  assign k j ms = if k == codes "__proto__" then ms else member k j ms

  abbrev pub iso_or_throw : Option Text → Result (Json N)
  iso_or_throw none = error native
  iso_or_throw (some s) = ok (tagged_value (codes "Date") (string s))

  unfoldable mutual
    pub encode_parsed : Json N → Json N
    encode_parsed null = null
    encode_parsed (boolean b) = boolean b
    encode_parsed (number n) = number n
    encode_parsed (string s) = string s
    encode_parsed (array js) = array (encode_parsed_all js)
    encode_parsed (object ms) = object (encode_members ms)

    pub encode_parsed_all : Jsons N → Jsons N
    encode_parsed_all nil = nil
    encode_parsed_all (cons j js) = cons (encode_parsed j) (encode_parsed_all js)

    pub encode_members : Members N → Members N
    encode_members end = end
    encode_members (member k j ms) = assign k (encode_parsed j) (encode_members ms)

module _ {N D B : Type 0} (p : Platform N D B) where
  unfoldable mutual
    pub encode : Value N D B → Result (Json N)
    encode undefined = ok (tagged_value (codes "Undefined") (string []))
    encode null = ok null
    encode (boolean b) = ok (boolean b)
    encode (number n) = ok (number n)
    encode (string s) = ok (string s)
    encode (date d) = iso_or_throw (p.to_iso_string d)
    encode (bigint b) = ok (tagged_value (codes "BigInt") (string (p.bigint_to_string b)))
    encode (set xs) =
        encode_all xs >>= λ js. ok (tagged_value (codes "Set") (string (p.stringify (array js))))
    encode (map es) = encode_entries es >>= λ js.
        ok (tagged_value (codes "Map") (string (p.stringify (array js))))
    encode (regexp r) = ok (tagged_value (codes "RegExp") (string r))
    encode (array xs) = encode_all xs >>= λ js. ok (array js)
    encode (object fs) = encode_fields fs >>= λ ms. ok (object ms)
    encode (parsed j) = ok (encode_parsed j)

    pub encode_all : Values N D B → Result (Jsons N)
    encode_all nil = ok nil
    encode_all (cons x xs) = encode x >>= λ j. encode_all xs >>= λ js. ok (cons j js)

    pub encode_entries : Entries N D B → Result (Jsons N)
    encode_entries no_entry = ok nil
    encode_entries (entry k v es) = encode k >>= λ a.
        encode v >>= λ b. encode_entries es >>= λ js. ok (cons (array (cons a (cons b nil))) js)

    pub encode_fields : Fields N D B → Result (Members N)
    encode_fields end = ok end
    encode_fields (field k x fs) = encode x >>= λ j. encode_fields fs >>= λ ms. ok (assign k j ms)
