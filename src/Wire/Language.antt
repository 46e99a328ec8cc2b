-- ===== src/Wire/Language.antt =====
-- A language for the runs of packages/rpc/src/wire.ts: numbers, dates and big integers are naturals,
-- and JSON is written backwards, each value after its parts, for a machine with a stack to read.
use celsian.Base.{
  ◌≡◌, refl, ℕ, zero, suc, true, false, Option, none, some, List, [], ◌∷◌, Text, nat_beq,
  if◌then◌else◌,
}
use celsian.Wire.Types.{
  Json, Jsons, Members, null, boolean, number, string, array, object, nil, cons, end, member,
}
use celsian.Wire.Platform.{Platform, ReadsBack}

pub data Part : Type 0 where
  json : Json ℕ → Part
  jsons : Jsons ℕ → Part
  members : Members ℕ → Part
  text : Text → Part

abbrev wrap_array : List Part → List Part
wrap_array (jsons js ∷ st) = json (array js) ∷ st
wrap_array _ = []

abbrev wrap_object : List Part → List Part
wrap_object (members ms ∷ st) = json (object ms) ∷ st
wrap_object _ = []

abbrev wrap_text : List Part → List Part
wrap_text (text s ∷ st) = json (string s) ∷ st
wrap_text _ = []

abbrev push_unit : List Part → List Part
push_unit (json (number c) ∷ text s ∷ st) = text (c ∷ s) ∷ st
push_unit _ = []

abbrev push_json : List Part → List Part
push_json (json j ∷ jsons js ∷ st) = jsons (cons j js) ∷ st
push_json _ = []

abbrev push_member : List Part → List Part
push_member (text k ∷ json j ∷ members ms ∷ st) = members (member k j ms) ∷ st
push_member _ = []

abbrev apply : ℕ → List Part → List Part
apply op st =
    if nat_beq op 0
    then json null ∷ st
    else if nat_beq op 1
    then json (boolean true) ∷ st
    else if nat_beq op 2
    then json (boolean false) ∷ st
    else if nat_beq op 3
    then text [] ∷ st
    else if nat_beq op 4
    then push_unit st
    else if nat_beq op 5
    then wrap_text st
    else if nat_beq op 6
    then jsons nil ∷ st
    else if nat_beq op 7
    then push_json st
    else if nat_beq op 8
    then wrap_array st
    else if nat_beq op 9
    then members end ∷ st
    else if nat_beq op 10
    then push_member st
    else wrap_object st

-- A number is its successor, and an operation stands behind a zero.
unfoldable pub read : Text → List Part → List Part
read [] st = st
read (zero ∷ []) st = []
read (zero ∷ op ∷ rest) st = read rest (apply op st)
read (suc n ∷ rest) st = read rest (json (number n) ∷ st)

unfoldable pub write_text : Text → Text → Text
write_text [] rest = 0 ∷ 3 ∷ rest
write_text (c ∷ s) rest = write_text s (suc c ∷ 0 ∷ 4 ∷ rest)

unfoldable mutual
  pub write : Json ℕ → Text → Text
  write null rest = 0 ∷ 0 ∷ rest
  write (boolean true) rest = 0 ∷ 1 ∷ rest
  write (boolean false) rest = 0 ∷ 2 ∷ rest
  write (number n) rest = suc n ∷ rest
  write (string s) rest = write_text s (0 ∷ 5 ∷ rest)
  write (array js) rest = write_all js (0 ∷ 8 ∷ rest)
  write (object ms) rest = write_members ms (0 ∷ 11 ∷ rest)

  pub write_all : Jsons ℕ → Text → Text
  write_all nil rest = 0 ∷ 6 ∷ rest
  write_all (cons j js) rest = write_all js (write j (0 ∷ 7 ∷ rest))

  pub write_members : Members ℕ → Text → Text
  write_members end rest = 0 ∷ 9 ∷ rest
  write_members (member k j ms) rest = write_members ms (write j (write_text k (0 ∷ 10 ∷ rest)))

read-write_text :
    (s rest : Text) (st : List Part) → read (write_text s rest) st ≡ read rest (text s ∷ st)
unfolding read write_text
read-write_text [] rest st = refl
read-write_text (c ∷ s) rest st = rw (read-write_text s (suc c ∷ 0 ∷ 4 ∷ rest) st) refl

mutual
  unfolding read write

  read-write :
      (j : Json ℕ) (rest : Text) (st : List Part) → read (write j rest) st ≡ read rest (json j ∷ st)
  read-write null rest st = refl
  read-write (boolean true) rest st = refl
  read-write (boolean false) rest st = refl
  read-write (number n) rest st = refl
  read-write (string s) rest st = rw (read-write_text s (0 ∷ 5 ∷ rest) st) refl
  read-write (array js) rest st = rw (read-write_all js (0 ∷ 8 ∷ rest) st) refl
  read-write (object ms) rest st = rw (read-write_members ms (0 ∷ 11 ∷ rest) st) refl

  read-write_all :
      (js : Jsons ℕ) (rest : Text) (st : List Part)
      → read (write_all js rest) st ≡ read rest (jsons js ∷ st)
  read-write_all nil rest st = refl
  read-write_all (cons j js) rest st =
      rw
        (read-write_all js (write j (0 ∷ 7 ∷ rest)) st, read-write j (0 ∷ 7 ∷ rest) (jsons js ∷ st))
        refl

  read-write_members :
      (ms : Members ℕ) (rest : Text) (st : List Part)
      → read (write_members ms rest) st ≡ read rest (members ms ∷ st)
  read-write_members end rest st = refl
  read-write_members (member k j ms) rest st =
      rw
        (
          read-write_members ms (write j (write_text k (0 ∷ 10 ∷ rest))) st,
          read-write j (write_text k (0 ∷ 10 ∷ rest)) (members ms ∷ st),
          read-write_text k (0 ∷ 10 ∷ rest) (json j ∷ members ms ∷ st),
        )
        refl

abbrev top : List Part → Option (Json ℕ)
top (json j ∷ []) = some j
top _ = none

abbrev first_unit : Json ℕ → Option ℕ
first_unit (string (c ∷ s)) = some c
first_unit _ = none

abbrev or_zero : Option ℕ → ℕ
or_zero none = 0
or_zero (some c) = c

abbrev parse_text : Json ℕ → Option (Json ℕ)
parse_text (string s) = top (read s [])
parse_text _ = none

abbrev pub simple : Platform ℕ ℕ ℕ
simple = record {
  to_iso_string = λ d. some (d ∷ []);
  new_date = λ j. or_zero (first_unit j);
  bigint_to_string = λ b. b ∷ [];
  to_bigint = first_unit;
  stringify = λ j. write j [];
  parse = parse_text;
  same_number = nat_beq;
  same_bigint = nat_beq;
  is_plain_number = λ n. true;
  are_own_keys = λ ks. true;
}

read_time :
    (d : ℕ) (s : Text)
    → ◌≡◌ {A = Option Text} (some (d ∷ [])) (some s)
    → or_zero (first_unit (string s)) ≡ d
read_time d [] h = cc
read_time d (c ∷ s) h = cc

pub simple-ReadsBack : ReadsBack simple
unfolding read write
simple-ReadsBack = record {
  dates = read_time;
  bigints = λ b. refl;
  texts = λ j w. rw (read-write j [] []) refl;
  tag_keys = refl;
}
