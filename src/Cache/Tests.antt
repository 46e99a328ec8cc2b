-- ===== src/Cache/Tests.antt =====
-- Runs of the store and the globs of packages/cache/src/store.ts, and their theorems at concrete
-- inputs.
use celsian.Base.{
  ℕ, ◌≡◌, ◌≢◌, ◌≤◌, ◌<◌, ◌+◌, List, refl, inr, true, false, none, some, [], ◌∷◌, arith, Text, codes,
  text_beq, text_beq_iff, text_eq,
}
use celsian.Base.Int.{pos}
use celsian.Map
use celsian.Cache.Glob.{literal, star, parse_glob, match_glob}
use celsian.Cache.Glob.Equivalence.{matches, match_glob-eq-matches}
use celsian.Cache.Store.{
  number, other, MemoryEntry, MemoryKvStore, StoreOp, get_op, set_op, run_ops, init, get, set,
}
use celsian.Cache.Store.Validity.{IsValid, run_ops-IsValid}
use celsian.Cache.Store.Kept.{get-run_ops-set}

globs_run :
    (match_glob (parse_glob (codes "a:*:z")) (codes "a:bc:z") ≡ true)
    × (match_glob (parse_glob (codes "a:*:z")) (codes "a:b:c:z") ≡ false)
    × (match_glob (parse_glob (codes "a:***:z?")) (codes "a:b:c:zz") ≡ true)
unfolding parse_glob match_glob
globs_run = (refl, refl, refl)

match_glob-eq-matches_example :
    match_glob (star ∷ literal b'z' ∷ []) (codes "xyz")
    ≡ matches (star ∷ literal b'z' ∷ []) (codes "xyz")
match_glob-eq-matches_example = match_glob-eq-matches (star ∷ literal b'z' ∷ []) (codes "xyz")

abbrev k : Text
k = codes "k"

abbrev entry : MemoryEntry ℕ
entry = record { value = number (pos 5); expires_at = some 90 }

-- One entry, in a store that holds one.
abbrev small : MemoryKvStore ℕ
small = record { store = (k, entry) ∷ []; max_entries = 1 }

run_ops-IsValid_example :
    IsValid (run_ops (set_op 0 k (other 3) none ∷ get_op 1 k ∷ []) (init {A = ℕ} (some 1)))
run_ops-IsValid_example = run_ops-IsValid (some 1) (set_op 0 k (other 3) none ∷ get_op 1 k ∷ [])

-- Two entries fit, and one call is made between; the time to live ends at 10.
abbrev wide : MemoryKvStore ℕ
wide = record { store = (k, entry) ∷ []; max_entries = 2 }

wide-IsValid : IsValid wide
wide-IsValid = record { distinct = (tt, tt); bounded = inr (omega arith) }

abbrev others : List (StoreOp ℕ)
others = set_op 4 (codes "j") (other 8) none ∷ []

j-IsOfOther : codes "j" ≢ k
unfolding text_beq
j-IsOfOther h = let same : false ≡ true = (text_beq_iff (codes "j") k).1 h in cc

get-run_ops-set_example :
    (9 < 1 + 9 → (get 9 k (run_ops others (set 1 k (other 3) (some 9) wide))).1 ≡ some (other 3))
    × (1 + 9 ≤ 9 → (get 9 k (run_ops others (set 1 k (other 3) (some 9) wide))).1 ≡ none)
get-run_ops-set_example =
    get-run_ops-set 1 9 k (other 3) (some 9) others wide wide-IsValid (j-IsOfOther, tt)
      (inr (omega arith))
