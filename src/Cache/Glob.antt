-- ===== src/Cache/Glob.antt =====
-- packages/cache/src/store.ts: `parseGlob` and the dynamic-programming matcher `matchGlob`.
pub mod Equivalence
pub mod Literals
use celsian.Base.{
  ℕ, zero, suc, ◌+◌, Bool, true, false, not, ◌&&◌, ◌||◌, List, [], ◌∷◌, Text, nat_beq,
  if◌then◌else◌,
}

pub data GlobToken : Type 0 where
  literal : ℕ → GlobToken
  single : GlobToken
  star : GlobToken
  globstar : GlobToken

-- The token of a run of stars, none for an empty run.
abbrev pub close_run : ℕ → List GlobToken → List GlobToken
close_run zero ts = ts
close_run (suc zero) ts = star ∷ ts
close_run (suc (suc n)) ts = globstar ∷ ts

abbrev pub plain_token : ℕ → GlobToken
plain_token c = if nat_beq c b'?' then single else literal c

-- The loop of `parseGlob`, with the length of the run of stars that it stands behind.
parse_from : ℕ → Text → List GlobToken
parse_from run [] = close_run run []
parse_from run (c ∷ s) =
    let longer = parse_from (run + 1) s in
    let closed = close_run run (plain_token c ∷ parse_from 0 s) in
    if nat_beq c b'*' then longer else closed

unfoldable pub parse_glob : Text → List GlobToken
unfolding parse_from
parse_glob pattern = parse_from 0 pattern

-- `next[0]` of a token, from `row[0]`.
first_cell : GlobToken → Bool → Bool
first_cell (literal ch) here = false
first_cell single here = false
first_cell star here = here
first_cell globstar here = here

-- `next[i]` for i > 0, from `row[i - 1]`, `next[i - 1]`, `key[i - 1]` and `row[i]`.
cell : GlobToken → (before made : Bool) → ℕ → (here : Bool) → Bool
cell (literal ch) before made c here = before && nat_beq c ch
cell single before made c here = before
cell star before made c here = here || (made && not (nat_beq c b':'))
cell globstar before made c here = here || made

-- The inner loop from i > 0 on.
fill : GlobToken → (before made : Bool) → List Bool → Text → List Bool
fill t before made (here ∷ row) (c ∷ key) =
    cell t before made c here ∷ fill t here (cell t before made c here) row key
fill t before made _ _ = []

next_row : GlobToken → List Bool → Text → List Bool
next_row t [] key = []
next_row t (here ∷ row) key = first_cell t here ∷ fill t here (first_cell t here) row key

-- The loop over the tokens.
rows : List GlobToken → List Bool → Text → List Bool
rows [] row key = row
rows (t ∷ ts) row key = rows ts (next_row t row key) key

-- `new Array(n + 1).fill(false)` with its first cell set.
blank : Text → List Bool
blank [] = []
blank (c ∷ key) = false ∷ blank key

-- `row[n] === true`
last_cell : List Bool → Bool
last_cell [] = false
last_cell (b ∷ []) = b
last_cell (b ∷ c ∷ row) = last_cell (c ∷ row)

unfoldable pub match_glob : List GlobToken → Text → Bool
unfolding rows next_row fill cell first_cell blank last_cell
match_glob tokens key = last_cell (rows tokens (true ∷ blank key) key)
