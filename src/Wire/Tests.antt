-- ===== src/Wire/Tests.antt =====
-- Runs of packages/rpc/src/wire.ts, and its theorems at concrete values.
use celsian.Base.{◌≡◌, refl, ℕ, true, [], ◌∷◌, codes, text_beq, text_eq}
use celsian.Wire.Types.{
  Json, Value, null, boolean, number, string, array, object, nil, no_entry, cons, end, member,
  entry, field, undefined, date, bigint, set, map, parsed,
}
use celsian.Wire.Platform.{ok, ◌>>=◌}
use celsian.Wire.Encode.{tagged_value, encode}
use celsian.Wire.Decode.{
  get_member, decode_all, decode_entries, rebuild, add, new_set_from, put, new_map_from, decode_tag,
  decode_object, decode_value, decode, max_decode_depth,
}
use celsian.Wire.Clean.{IsClean}
use celsian.Wire.Scrubbed.{decode-IsClean}
use celsian.Wire.RoundTrip.{has_field, names_of, IsSendable, encode-decode}
use celsian.Wire.Language.{simple, simple-ReadsBack, read, write, write_text}

abbrev Sent : Type 0
Sent = Value ℕ ℕ ℕ

abbrev order : Sent
order = object (
    field (codes "at") (date 7) (
      field (codes "tags") (set (cons (string (codes "a")) (cons (number 1) nil))) (
        field (codes "by") (map (entry (number 1) undefined no_entry)) (
          field (codes "total") (bigint 900) (field (codes "items") (array (cons null nil)) end)))))

abbrev polluted : Json ℕ
polluted = object (
    member (codes "__proto__") (object (member (codes "admin") (boolean true) end))
      (member (codes "id") (number 3) end))

abbrev plain : Sent
plain = object (field (codes "id") (number 3) end)

order_test : encode simple order >>= decode simple ≡ ok order
unfolding encode decode_value decode_tag decode_object get_member decode_all decode_entries rebuild
    add new_set_from put new_map_from text_beq read write write_text
order_test = refl

scrub_test : decode simple polluted ≡ ok plain
unfolding decode_value decode_object get_member rebuild text_beq
scrub_test = refl

-- What a `RegExp` tag carries is not scrubbed.
regexp_test : decode simple (tagged_value (codes "RegExp") polluted) ≡ ok (parsed polluted)
unfolding decode_value decode_tag decode_object get_member text_beq
regexp_test = refl

decode-IsClean_example : IsClean simple polluted max_decode_depth plain
decode-IsClean_example = decode-IsClean simple polluted plain scrub_test

order-IsSendable : IsSendable simple max_decode_depth order
unfolding IsSendable has_field names_of add new_set_from put new_map_from text_beq
order-IsSendable = (
  (
    refl,
    (7 ∷ [], refl),
    (
      refl,
      ((tt, (refl, tt)), refl),
      (refl, ((refl, tt, tt), refl), (refl, tt, (refl, (tt, tt), tt))),
    ),
  ),
  refl,
  refl,
)

encode-decode_example : encode simple order >>= decode simple ≡ ok order
encode-decode_example = encode-decode simple simple-ReadsBack order order-IsSendable
