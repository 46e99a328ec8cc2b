-- ===== src/Wire/Types.antt =====
-- packages/rpc/src/wire.ts: the values that travel. Numbers, dates and big integers are the
-- platform's, `N`, `D` and `B`. Functions and symbols are left out, and an object is its own
-- enumerable fields, with distinct keys.
use celsian.Base.{Bool, Text}

-- What `JSON.parse` gives.
mutual
  pub data Json (N : Type 0) : Type 0 where
    null : Json N
    boolean : Bool → Json N
    number : N → Json N
    string : Text → Json N
    array : Jsons N → Json N
    object : Members N → Json N

  pub data Jsons (N : Type 0) : Type 0 where
    nil : Jsons N
    cons : Json N → Jsons N → Jsons N

  pub data Members (N : Type 0) : Type 0 where
    end : Members N
    member : Text → Json N → Members N → Members N

-- `parsed` is an array or an object that is handed on as `JSON.parse` made it.
mutual
  pub data Value (N D B : Type 0) : Type 0 where
    undefined : Value N D B
    null : Value N D B
    boolean : Bool → Value N D B
    number : N → Value N D B
    string : Text → Value N D B
    date : D → Value N D B
    bigint : B → Value N D B
    regexp : Text → Value N D B
    set : Values N D B → Value N D B
    map : Entries N D B → Value N D B
    array : Values N D B → Value N D B
    object : Fields N D B → Value N D B
    parsed : Json N → Value N D B

  pub data Values (N D B : Type 0) : Type 0 where
    nil : Values N D B
    cons : Value N D B → Values N D B → Values N D B

  pub data Entries (N D B : Type 0) : Type 0 where
    no_entry : Entries N D B
    entry : Value N D B → Value N D B → Entries N D B → Entries N D B

  pub data Fields (N D B : Type 0) : Type 0 where
    end : Fields N D B
    field : Text → Value N D B → Fields N D B → Fields N D B

module _ {N D B : Type 0} (P : Value N D B → Type 0) where
  abbrev pub AllValues : Values N D B → Type 0
  AllValues nil = Unit
  AllValues (cons x xs) = P x × AllValues xs

  abbrev pub AllEntries : Entries N D B → Type 0
  AllEntries no_entry = Unit
  AllEntries (entry k v es) = P k × P v × AllEntries es

  abbrev pub AllFields : (Text → Type 0) → Fields N D B → Type 0
  AllFields K end = Unit
  AllFields K (field k x fs) = K k × P x × AllFields K fs
