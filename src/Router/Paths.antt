-- ===== src/Router/Paths.antt =====
-- packages/core/src/router.ts: the functions on paths. `decodeURIComponent` is the language's.
use celsian.Base.{
  ℕ, suc, zero, ◌+◌, ◌-◌, ◌*◌, ◌/◌, ◌%◌, Bool, false, not, ◌&&◌, ◌||◌, Option, none, some, List, [],
  ◌∷◌, ◌++◌, Text, codes, nat_beq, ltb, leb, text_beq, split_on, any, if◌then◌else◌,
}

-- `filter(Boolean)`
unfoldable pub non_empty : List Text → List Text
non_empty [] = []
non_empty ([] ∷ parts) = non_empty parts
non_empty ((c ∷ s) ∷ parts) = (c ∷ s) ∷ non_empty parts

unfoldable pub split_path : Text → List Text
split_path path = non_empty (split_on b'/' path)

-- `endsWith("/")`
unfoldable pub ends_with_slash : Text → Bool
ends_with_slash [] = false
ends_with_slash (c ∷ []) = nat_beq c b'/'
ends_with_slash (c ∷ d ∷ s) = ends_with_slash (d ∷ s)

-- `slice(0, -1)`
unfoldable pub drop_last : Text → Text
drop_last [] = []
drop_last (c ∷ []) = []
drop_last (c ∷ d ∷ s) = c ∷ drop_last (d ∷ s)

-- `includes("//")`
unfoldable pub has_double_slash : Text → Bool
has_double_slash [] = false
has_double_slash (c ∷ []) = false
has_double_slash (c ∷ d ∷ s) = (nat_beq c b'/' && nat_beq d b'/') || has_double_slash (d ∷ s)

abbrev pub slash : Text
slash = b'/' ∷ []

unfoldable pub normalize_pathname : Text → Text
normalize_pathname p =
    if text_beq p slash || text_beq p []
    then slash
    else if ends_with_slash p
    then drop_last p
    else p

abbrev pub is_dot_segment : Text → Bool
is_dot_segment seg = text_beq seg (codes ".") || text_beq seg (codes "..")

-- The last test of `canonicalizePath`.
unfoldable pub without_dots : Text → Option Text
without_dots path = if any is_dot_segment (split_on b'/' path) then none else some path

-- The trailing slash, once it is known that there is no empty segment.
unfoldable pub strip_trailing : (ignore_trailing_slash : Bool) → Text → Option Text
strip_trailing ignore path =
    if ends_with_slash path
    then (if ignore
        then (if text_beq (drop_last path) [] then some slash else without_dots (drop_last path))
        else none)
    else without_dots path

abbrev pub is_rooted : Text → Bool
is_rooted [] = false
is_rooted (c ∷ s) = nat_beq c b'/'

unfoldable pub canonicalize_path : Text → (ignore_trailing_slash : Bool) → Option Text
canonicalize_path pathname ignore =
    if text_beq pathname [] || text_beq pathname slash
    then some slash
    else if not (is_rooted pathname)
    then none
    else if has_double_slash pathname
    then none
    else strip_trailing ignore pathname

-- `segments.join("/")`
unfoldable pub join : List Text → Text
join [] = []
join (s ∷ []) = s
join (s ∷ t ∷ ss) = s ++ b'/' ∷ join (t ∷ ss)

abbrev hex_digit : ℕ → Option ℕ
hex_digit c =
    if leb b'0' c && leb c b'9'
    then some (c - b'0')
    else if leb b'a' c && leb c b'f'
    then some (c - b'a' + 10)
    else if leb b'A' c && leb c b'F'
    then some (c - b'A' + 10)
    else none

abbrev hex_byte : ℕ → ℕ → Option ℕ
hex_byte h l = elim (hex_digit h) [
  | none ↦ none
  | some a ↦ elim (hex_digit l) [ none ↦ none | some b ↦ some (a * 16 + b) ]
]

-- The code units of a code point.
abbrev code_units : ℕ → Text
code_units n =
    if ltb n 0x10000 then n ∷ [] else (0xd800 + (n - 0x10000) / 0x400) ∷ (0xdc00 + n % 0x400) ∷ []

-- A code point of more than one byte: not overlong, not a surrogate, not too large.
abbrev well_formed : (least n : ℕ) → Bool
well_formed least n = leb least n && not (leb 0xd800 n && leb n 0xdfff) && leb n 0x10ffff

-- What a byte that begins a code point says: how many bytes follow, the least code point of that
-- length, and its own bits.
abbrev lead_byte : ℕ → Option (ℕ × ℕ × ℕ)
lead_byte b =
    if ltb b 0x80
    then some (0, 0, b)
    else if leb 0xc0 b && ltb b 0xe0
    then some (1, 0x80, b - 0xc0)
    else if leb 0xe0 b && ltb b 0xf0
    then some (2, 0x800, b - 0xe0)
    else if leb 0xf0 b && ltb b 0xf8
    then some (3, 0x10000, b - 0xf0)
    else none

abbrev prepend : Text → Option Text → Option Text
prepend s none = none
prepend s (some t) = some (s ++ t)

-- `decodeURIComponent`, with the bytes of the code point that are still to come, its least value and
-- the bits read so far. `none` is the error that the language throws.
unfoldable pub decode_from : (pending least bits : ℕ) → Text → Option Text
decode_from zero least bits [] = some []
decode_from (suc pending) least bits [] = none
decode_from pending least bits (c ∷ []) =
    if nat_beq c b'%' || not (nat_beq pending 0) then none else some (c ∷ [])
decode_from pending least bits (c ∷ d ∷ []) =
    if nat_beq c b'%' || not (nat_beq pending 0)
    then none
    else prepend (c ∷ []) (decode_from 0 0 0 (d ∷ []))
decode_from zero least bits (c ∷ h ∷ l ∷ s) =
    let plain = prepend (c ∷ []) (decode_from 0 0 0 (h ∷ l ∷ s)) in
    let escaped : Option Text = elim (hex_byte h l) [
      | none ↦ none
      | some b ↦ elim (lead_byte b) [
        | none ↦ none
        | some (n, low, first) ↦
            if nat_beq n 0
            then prepend (first ∷ []) (decode_from 0 0 0 s)
            else decode_from n low first s
      ]
    ] in
    if nat_beq c b'%' then escaped else plain
decode_from (suc pending) least bits (c ∷ h ∷ l ∷ s) =
    if nat_beq c b'%'
    then elim (hex_byte h l) [
      | none ↦ none
      | some b ↦
          let n = bits * 64 + (b - 0x80) in
          let done = prepend (code_units n) (decode_from 0 0 0 s) in
          let more = decode_from pending least n s in
          if leb 0x80 b && ltb b 0xc0
          then (if nat_beq pending 0 then (if well_formed least n then done else none) else more)
          else none
    ]
    else none

unfoldable pub decode_uri_component : Text → Option Text
decode_uri_component s = decode_from 0 0 0 s
