-- ===== src/Words/Escapes.antt =====
-- `encodeURIComponent` of the language, on the code units of a text. `none` is the error that it
-- throws on half a surrogate pair.
use celsian.Base.{
  ℕ, ◌+◌, ◌-◌, ◌*◌, ◌/◌, ◌%◌, Bool, ◌&&◌, ◌||◌, Option, none, some, [], ◌∷◌, ◌++◌, Text, codes,
  nat_beq, ltb, leb, any, if◌then◌else◌,
}
use celsian.Cron.Words.{is_digit}

abbrev pub is_unreserved : ℕ → Bool
is_unreserved c =
    is_digit c
    || (leb b'a' c && leb c b'z')
    || (leb b'A' c && leb c b'Z')
    || any (λ d. nat_beq d c) (codes "-_.!~*'()")

abbrev upper_hex : ℕ → ℕ
upper_hex d = if ltb d 10 then d + b'0' else d - 10 + b'A'

abbrev percent : ℕ → Text
percent byte = b'%' ∷ upper_hex (byte / 16) ∷ upper_hex (byte % 16) ∷ []

-- The bytes of a code point in UTF-8, each escaped.
abbrev escaped : ℕ → Text
escaped n =
    if ltb n 0x80
    then percent n
    else if ltb n 0x800
    then percent (0xc0 + n / 64) ++ percent (0x80 + n % 64)
    else if ltb n 0x10000
    then percent (0xe0 + n / 4096) ++ (percent (0x80 + n / 64 % 64) ++ percent (0x80 + n % 64))
    else percent (0xf0 + n / 262144)
      ++ (percent (0x80 + n / 4096 % 64)
          ++ (percent (0x80 + n / 64 % 64) ++ percent (0x80 + n % 64)))

abbrev is_high : ℕ → Bool
is_high c = leb 0xd800 c && leb c 0xdbff

abbrev is_low : ℕ → Bool
is_low c = leb 0xdc00 c && leb c 0xdfff

abbrev before : Text → Option Text → Option Text
before s none = none
before s (some t) = some (s ++ t)

unfoldable pub encode_uri_component : Text → Option Text
encode_uri_component [] = some []
encode_uri_component (c ∷ []) =
    if is_unreserved c
    then some (c ∷ [])
    else if is_high c || is_low c
    then none
    else some (escaped c)
encode_uri_component (c ∷ d ∷ s) =
    let further = encode_uri_component (d ∷ s) in
    let behind = encode_uri_component s in
    if is_unreserved c
    then before (c ∷ []) further
    else if is_low c
    then none
    else if is_high c
    then (if is_low d
        then before (escaped ((c - 0xd800) * 1024 + (d - 0xdc00) + 0x10000)) behind
        else none)
    else before (escaped c) further
