-- ===== src/Wire/Platform.antt =====
-- packages/rpc/src/wire.ts: what it calls of the language, and how it fails.
use celsian.Base.{◌≡◌, Bool, true, Option, some, List, [], ◌∷◌, Text, codes}
use celsian.Wire.Types.{
  Json, Jsons, Members, null, boolean, number, string, array, object, nil, cons, end, member,
}

-- The parts of the language that wire.ts calls: a field takes what JSON gives where the code casts
-- it to a string, since the language converts it. `none` is a throw. `is_plain_number` is true of the
-- numbers that JSON writes as they are, so not of NaN, the infinities and the negative zero, and
-- `are_own_keys` of the keys of an object in the order in which the language lists them.
pub record Platform (N D B : Type 0) : Type 0 where
  pub to_iso_string : D → Option Text
  pub new_date : Json N → D
  pub bigint_to_string : B → Text
  pub to_bigint : Json N → Option B
  pub stringify : Json N → Text
  pub parse : Json N → Option (Json N)
  pub same_number : N → N → Bool
  pub same_bigint : B → B → Bool
  pub is_plain_number : N → Bool
  pub are_own_keys : List Text → Bool

-- `native` is what the language throws: a SyntaxError or a TypeError.
pub data WireError : Type 0 where
  too_deep : WireError
  not_an_array : WireError
  native : WireError

pub data Result (A : Type 0) : Type 0 where
  ok : A → Result A
  error : WireError → Result A

infixl 5 ◌>>=◌
abbrev pub ◌>>=◌ : {A B : Type 0} → Result A → (A → Result B) → Result B
ok a >>= f = f a
error e >>= f = error e

module _ {N : Type 0} where
  unfoldable pub keys_of : Members N → List Text
  keys_of end = []
  keys_of (member k j ms) = k ∷ keys_of ms

-- What JSON writes without a loss.
module _ {N D B : Type 0} (p : Platform N D B) where
  unfoldable mutual
    pub IsWritable : Json N → Type 0
    IsWritable null = Unit
    IsWritable (boolean b) = Unit
    IsWritable (number n) = p.is_plain_number n ≡ true
    IsWritable (string s) = Unit
    IsWritable (array js) = AreWritable js
    IsWritable (object ms) = MembersAreWritable ms × (p.are_own_keys (keys_of ms) ≡ true)

    pub AreWritable : Jsons N → Type 0
    AreWritable nil = Unit
    AreWritable (cons j js) = IsWritable j × AreWritable js

    pub MembersAreWritable : Members N → Type 0
    MembersAreWritable end = Unit
    MembersAreWritable (member k j ms) = IsWritable j × MembersAreWritable ms

-- The language reads back what it writes. An object keeps the two keys of a tag in their order.
pub record ReadsBack {N D B : Type 0} (p : Platform N D B) : Type 0 where
  pub dates : (d : D) (s : Text) → p.to_iso_string d ≡ some s → p.new_date (string s) ≡ d
  pub bigints : (b : B) → p.to_bigint (string (p.bigint_to_string b)) ≡ some b
  pub texts : (j : Json N) → IsWritable p j → p.parse (string (p.stringify j)) ≡ some j
  pub tag_keys : p.are_own_keys (codes "__t" ∷ codes "v" ∷ []) ≡ true
