-- ===== src/Wire/Clean.antt =====
-- packages/rpc/src/wire.ts: what stands inside the JSON of a call, and the values that `decode` may
-- make of it.
use celsian.Base.{◌≡◌, ◌≢◌, ℕ, zero, suc, some, Text, codes, text_eq}
use celsian.Wire.Types.{
  Json, Jsons, Members, Value, null, boolean, number, string, array, object, cons, member,
  undefined, date, bigint, regexp, set, map, parsed, AllValues, AllEntries, AllFields,
}
use celsian.Wire.Platform.{Platform}
use celsian.Wire.Decode.{tagged}

-- The JSON inside a payload: its parts, the letters of a text, and what stands in the text of a tag.
mutual
  pub data Inside {N D B : Type 0} (p : Platform N D B) (root : Json N) : Json N → Type 0 where
    whole : Inside p root root
    letter : (s c : Text) → Inside p root (string s) → Inside p root (string c)
    item : (j : Json N) (js : Jsons N) → InsideAll p root (cons j js) → Inside p root j
    value :
        (k : Text) (j : Json N) (ms : Members N)
        → InsideMembers p root (member k j ms)
        → Inside p root j

  pub data InsideAll {N D B : Type 0} (p : Platform N D B) (root : Json N) : Jsons N → Type 0 where
    of_array : (js : Jsons N) → Inside p root (array js) → InsideAll p root js
    of_tag :
        (ms : Members N) (t : Text) (v : Json N) (js : Jsons N)
        → Inside p root (object ms)
        → tagged ms ≡ some (string t, v)
        → p.parse v ≡ some (array js)
        → InsideAll p root js
    later : (j : Json N) (js : Jsons N) → InsideAll p root (cons j js) → InsideAll p root js

  pub data InsideMembers {N D B : Type 0} (p : Platform N D B) (root : Json N)
      : Members N → Type 0 where
    of_object : (ms : Members N) → Inside p root (object ms) → InsideMembers p root ms
    further :
        (k : Text) (j : Json N) (ms : Members N)
        → InsideMembers p root (member k j ms)
        → InsideMembers p root ms

-- What a `RegExp` tag inside the payload carries.
pub data IsCarried {N D B : Type 0} (p : Platform N D B) (root : Json N) (v : Json N) : Type 0 where
  carried :
      (ms : Members N)
      → Inside p root (object ms)
      → tagged ms ≡ some (string (codes "RegExp"), v)
      → IsCarried p root v

-- A key that sets no prototype.
abbrev pub IsFree : Text → Type 0
IsFree k = (k ≢ codes "__proto__") × (k ≢ codes "constructor") × (k ≢ codes "prototype")

-- Containers nest at most `n` levels, no object has a blocked key, there is no expression, and what
-- is handed on as it was parsed is what a `RegExp` tag inside the payload carries.
unfoldable pub IsClean : {N D B : Type 0} → Platform N D B → Json N → ℕ → Value N D B → Type 0
IsClean p root n undefined = Unit
IsClean p root n null = Unit
IsClean p root n (boolean b) = Unit
IsClean p root n (number m) = Unit
IsClean p root n (string s) = Unit
IsClean p root n (date d) = Unit
IsClean p root n (bigint b) = Unit
IsClean p root n (parsed j) = IsCarried p root j
IsClean p root n (regexp r) = ⊥
IsClean p root zero (set xs) = ⊥
IsClean p root zero (map es) = ⊥
IsClean p root zero (array xs) = ⊥
IsClean p root zero (object fs) = ⊥
IsClean p root (suc n) (set xs) = AllValues (IsClean p root n) xs
IsClean p root (suc n) (map es) = AllEntries (IsClean p root n) es
IsClean p root (suc n) (array xs) = AllValues (IsClean p root n) xs
IsClean p root (suc n) (object fs) = AllFields (IsClean p root n) IsFree fs
