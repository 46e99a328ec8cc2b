-- ===== src/RateLimit/Address.antt =====
-- packages/rate-limit/src/ip.ts. A regular expression is written out as the test that it makes. The
-- groups of an IPv6 address have 16 bits, and the value of an IPv4 address has 32.
pub mod Printed
pub mod Groups
pub mod Canonical
use Prim.Native.Nat.{bit_and}
use celsian.Base.{
  ℕ, zero, suc, ◌+◌, ◌-◌, ◌*◌, ◌/◌, ◌%◌, ◌^◌, min, Bool, true, false, not, ◌&&◌, ◌||◌, Option, none,
  some, List, [], ◌∷◌, ◌++◌, Text, codes, text_eq, ◌==◌, nat_beq, ltb, leb, length, drop, any,
  decimal, split_on, if◌then◌else◌,
}
use celsian.Words.{lower_case, is_hex_letter, join_with}
use celsian.Cache.Store.{starts_with}
use celsian.Cron.Words.{trim, is_digit, digits_from, includes}

pub data ParsedIp : Type 0 where
  version4 : (value : ℕ) → ParsedIp
  version6 : (groups : List ℕ) → ParsedIp

-- `(?::\d+)?$`
abbrev pub all_digits : Text → Bool
all_digits [] = true
all_digits (c ∷ s) = if is_digit c then all_digits s else false

abbrev is_port : Text → Bool
is_port [] = true
is_port (c ∷ []) = false
is_port (c ∷ d ∷ s) = nat_beq c b':' && all_digits (d ∷ s)

-- `.`
abbrev in_line : ℕ → Bool
in_line c = not (nat_beq c 10 || nat_beq c 13 || nat_beq c 0x2028 || nat_beq c 0x2029)

abbrev is_empty : Text → Bool
is_empty [] = true
is_empty (c ∷ s) = false

-- `(.+)\](?::\d+)?$`, which takes as much as it can, after what is read already.
unfoldable pub bracketed_from : Text → Text → Option Text
bracketed_from cur [] = none
bracketed_from cur (c ∷ s) =
    let longer : Option Text = if in_line c then bracketed_from (cur ++ c ∷ []) s else none in
    let here = if nat_beq c b']' && not (is_empty cur) && is_port s then some cur else none in
    elim longer [ some found ↦ some found | none ↦ here ]

unfoldable pub bracketed : Text → Option Text
bracketed [] = none
bracketed (c ∷ s) = if nat_beq c b'[' then bracketed_from [] s else none

-- `split(":")` when it has two parts: the first.
abbrev first_of_two : List Text → Text → Text
first_of_two (a ∷ b ∷ []) whole = a
first_of_two _ whole = whole

unfoldable pub without_port : Text → Text
without_port value = if includes b'.' value then first_of_two (split_on b':' value) value else value

-- `/^\d{1,3}$/`
unfoldable pub is_short_number : Text → Bool
is_short_number [] = false
is_short_number (c ∷ s) = ltb (length s) 3 && all_digits (c ∷ s)

abbrev is_dotted : List Text → Bool
is_dotted (a ∷ b ∷ c ∷ d ∷ []) =
    is_short_number a && is_short_number b && is_short_number c && is_short_number d
is_dotted _ = false

-- `/^::ffff:((?:\d{1,3}\.){3}\d{1,3})$/i`
unfoldable pub mapped : Text → Option Text
mapped value =
    if starts_with (codes "::ffff:") (lower_case value) && is_dotted (split_on b'.' (drop 7 value))
    then some (drop 7 value)
    else none

abbrev pub unmapped : Text → Option Text → Text
unmapped value none = value
unmapped value (some v4) = v4

abbrev pub unwrapped : Text → Option Text → Text
unwrapped value (some inner) = inner
unwrapped value none = unmapped (without_port value) (mapped (without_port value))

unfoldable pub normalize : Text → Text
normalize raw = unwrapped (trim raw) (bracketed (trim raw))

-- A part of an IPv4 address.
unfoldable pub octet : Text → Option ℕ
octet part =
    if is_short_number part && leb (digits_from 0 part) 255 then some (digits_from 0 part) else none

unfoldable pub octets : ℕ → List Text → Option ℕ
octets result [] = some result
octets result (part ∷ parts) = elim (octet part) [
  | none ↦ none
  | some n ↦ octets (result * 256 + n) parts
]

unfoldable pub parse_ipv4 : Text → Option ℕ
parse_ipv4 value =
    if nat_beq (length (split_on b'.' value)) 4 then octets 0 (split_on b'.' value) else none

-- `split("::")`
unfoldable pub split_double_from : Text → Text → List Text
split_double_from cur [] = cur ∷ []
split_double_from cur (c ∷ []) = (cur ++ c ∷ []) ∷ []
split_double_from cur (c ∷ d ∷ s) =
    let closed = cur ∷ split_double_from [] s in
    let longer = split_double_from (cur ++ c ∷ []) (d ∷ s) in
    if nat_beq c b':' && nat_beq d b':' then closed else longer

unfoldable pub split_double : Text → List Text
split_double s = split_double_from [] s

-- A hexadecimal digit in either case, as a number.
unfoldable pub hex_value : ℕ → Option ℕ
hex_value c =
    if is_digit c
    then some (c - b'0')
    else if leb b'a' c && leb c b'f'
    then some (c - b'a' + 10)
    else if leb b'A' c && leb c b'F'
    then some (c - b'A' + 10)
    else none

-- `parseInt(part, 16)`, where every character is a digit.
unfoldable pub hex_number : ℕ → Text → Option ℕ
hex_number n [] = some n
hex_number n (c ∷ s) = elim (hex_value c) [ none ↦ none | some d ↦ hex_number (n * 16 + d) s ]

-- `/^[0-9a-f]{1,4}$/i` and the number.
unfoldable pub group : Text → Option ℕ
group [] = none
group (c ∷ s) = if ltb (length s) 4 then hex_number 0 (c ∷ s) else none

unfoldable pub groups_of : List Text → Option (List ℕ)
groups_of [] = some []
groups_of (part ∷ parts) = elim (group part) [
  | none ↦ none
  | some n ↦ elim (groups_of parts) [ none ↦ none | some ns ↦ some (n ∷ ns) ]
]

unfoldable pub to_groups : Text → Option (List ℕ)
to_groups [] = some []
to_groups (c ∷ s) = groups_of (split_on b':' (c ∷ s))

abbrev pub zeros : ℕ → List ℕ
zeros zero = []
zeros (suc n) = 0 ∷ zeros n

-- `fill < 0` is a head and a tail that are too long together.
abbrev pub filled : List ℕ → List ℕ → Option (List ℕ)
filled head tail =
    if ltb 8 (length head + length tail)
    then none
    else some (head ++ (zeros (8 - (length head + length tail)) ++ tail))

abbrev pub exactly_eight : List ℕ → Option (List ℕ)
exactly_eight head = if nat_beq (length head) 8 then some head else none

abbrev pub whole : Option (List ℕ) → Option (List ℕ)
whole none = none
whole (some head) = exactly_eight head

abbrev pub both : Option (List ℕ) → Option (List ℕ) → Option (List ℕ)
both none t = none
both (some head) none = none
both (some head) (some tail) = filled head tail

abbrev pub from_halves : List Text → Option (List ℕ)
from_halves [] = none
from_halves (a ∷ []) = whole (to_groups a)
from_halves (a ∷ b ∷ []) = both (to_groups a) (to_groups b)
from_halves (a ∷ b ∷ c ∷ rest) = none

unfoldable pub parse_ipv6 : Text → Option (List ℕ)
parse_ipv6 value = if includes b':' value then from_halves (split_double value) else none

abbrev pub version6_of : Option (List ℕ) → Option ParsedIp
version6_of none = none
version6_of (some gs) = some (version6 gs)

abbrev pub either_version : Option ℕ → Option ParsedIp → Option ParsedIp
either_version (some v) v6 = some (version4 v)
either_version none v6 = v6

unfoldable pub parse_ip : Text → Option ParsedIp
parse_ip raw =
    either_version (parse_ipv4 (normalize raw)) (version6_of (parse_ipv6 (normalize raw)))

-- `(v >>> k) & 0xff`
abbrev byte_at : ℕ → ℕ → ℕ
byte_at v k = v % 2 ^ 32 / 2 ^ k % 256

abbrev pub hex_char : ℕ → ℕ
hex_char d = if ltb d 10 then d + b'0' else d - 10 + b'a'

-- `group.toString(16).padStart(4, "0")` of 16 bits.
abbrev pub hex_group : ℕ → Text
hex_group g =
    hex_char (g / 4096 % 16)
    ∷ hex_char (g / 256 % 16)
    ∷ hex_char (g / 16 % 16)
    ∷ hex_char (g % 16)
    ∷ []

abbrev pub hex_groups : List ℕ → List Text
hex_groups [] = []
hex_groups (g ∷ gs) = hex_group g ∷ hex_groups gs

unfoldable pub format_ip : ParsedIp → Text
format_ip (version4 v) = join_with (codes ".") (
    decimal (byte_at v 24)
    ∷ decimal (byte_at v 16)
    ∷ decimal (byte_at v 8)
    ∷ decimal (byte_at v 0)
    ∷ [])
format_ip (version6 groups) = join_with (codes ":") (hex_groups groups)

abbrev pub formatted : Option ParsedIp → Option Text
formatted none = none
formatted (some ip) = some (format_ip ip)

unfoldable pub canonicalize_ip : Text → Option Text
canonicalize_ip raw = formatted (parse_ip raw)

pub record Cidr : Type 0 where
  pub ip : ParsedIp
  pub prefix : ℕ

abbrev max_prefix : ParsedIp → ℕ
max_prefix (version4 v) = 32
max_prefix (version6 gs) = 128

abbrev with_prefix : ParsedIp → List Text → Option Cidr
with_prefix ip [] = some (record { ip = ip; prefix = max_prefix ip })
with_prefix ip (part ∷ rest) =
    if not (is_short_number part)
    then none
    else if ltb (max_prefix ip) (digits_from 0 part)
    then none
    else some (record { ip = ip; prefix = digits_from 0 part })

abbrev cidr_of : List Text → Option Cidr
cidr_of [] = none
cidr_of ([] ∷ parts) = none
cidr_of ((c ∷ s) ∷ parts) = elim (parse_ip (c ∷ s)) [ none ↦ none | some ip ↦ with_prefix ip parts ]

unfoldable pub parse_cidr : Text → Option Cidr
parse_cidr raw = cidr_of (split_on b'/' (trim raw))

-- `(0xffffffff << (32 - prefix)) >>> 0`, and all ones for 32.
abbrev mask32 : ℕ → ℕ
mask32 prefix = if nat_beq prefix 32 then 0xffffffff else 0xffffffff * 2 ^ (32 - prefix) % 2 ^ 32

unfoldable pub ipv4_in_cidr : (value network prefix : ℕ) → Bool
ipv4_in_cidr value network prefix =
    if nat_beq prefix 0
    then true
    else nat_beq (bit_and value (mask32 prefix)) (bit_and network (mask32 prefix))

abbrev mask16 : ℕ → ℕ
mask16 bits = if nat_beq bits 16 then 0xffff else 0xffff * 2 ^ (16 - bits) % 2 ^ 16

-- The loop over the groups, while bits of the prefix remain.
unfoldable pub ipv6_in_cidr : (groups network : List ℕ) (remaining : ℕ) → Bool
ipv6_in_cidr [] network remaining = true
ipv6_in_cidr (g ∷ gs) [] remaining = true
ipv6_in_cidr (g ∷ gs) (n ∷ ns) remaining =
    let bits = min 16 remaining in
    let further = ipv6_in_cidr gs ns (remaining - bits) in
    if nat_beq remaining 0
    then true
    else if nat_beq (bit_and g (mask16 bits)) (bit_and n (mask16 bits))
    then further
    else false

abbrev in_network : ParsedIp → ParsedIp → ℕ → Bool
in_network (version4 v) (version4 n) prefix = ipv4_in_cidr v n prefix
in_network (version6 gs) (version6 ns) prefix = ipv6_in_cidr gs ns prefix
in_network (version4 v) (version6 ns) prefix = false
in_network (version6 gs) (version4 n) prefix = false

unfoldable pub ip_in_cidr : ParsedIp → Cidr → Bool
ip_in_cidr ip cidr = in_network ip cidr.ip cidr.prefix

unfoldable pub is_trusted_proxy : Text → List Cidr → Bool
is_trusted_proxy raw trusted = elim (parse_ip raw) [
  | none ↦ false
  | some ip ↦ any (ip_in_cidr ip) trusted
]
