-- ===== src/Cache/Glob/Equivalence.antt =====
-- The table of `matchGlob` agrees with the definition of a match by cases on the pattern.
use celsian.Base.{
  ℕ, suc, ◌≡◌, refl, sym, ap, ◌∙◌, Bool, true, false, not, ◌&&◌, ◌||◌, List, [], ◌∷◌, Text, arith,
  nat_beq, length,
}
use celsian.Cache.Glob.{
  GlobToken, literal, single, star, globstar, match_glob, rows, next_row, fill, cell, first_cell,
  blank, last_cell,
}

-- What the documentation says that a pattern matches, token by token, without a table: `*` any run
-- of characters but ':', `**` any run, `?` one character, and a literal itself.
unfoldable pub matches : List GlobToken → Text → Bool
matches [] [] = true
matches [] (c ∷ s) = false
matches (literal ch ∷ ts) [] = false
matches (literal ch ∷ ts) (c ∷ s) = nat_beq c ch && matches ts s
matches (single ∷ ts) [] = false
matches (single ∷ ts) (c ∷ s) = matches ts s
matches (star ∷ ts) [] = matches ts []
matches (star ∷ ts) (c ∷ s) = matches ts (c ∷ s) || (not (nat_beq c b':') && matches (star ∷ ts) s)
matches (globstar ∷ ts) [] = matches ts []
matches (globstar ∷ ts) (c ∷ s) = matches ts (c ∷ s) || matches (globstar ∷ ts) s

-- Some marked position of a row from which the tokens match the rest of the key.
accepts : List Bool → Text → List GlobToken → Bool
accepts [] s ts = false
accepts (b ∷ row) [] ts = b && matches ts []
accepts (b ∷ row) (c ∷ s) ts = (b && matches ts (c ∷ s)) || accepts row s ts

-- A token that has reached the position before `c` and goes on over it.
cross : GlobToken → (before made : Bool) → ℕ → Text → List GlobToken → Bool
cross (literal ch) before made c s ts = before && (nat_beq c ch && matches ts s)
cross single before made c s ts = before && matches ts s
cross star before made c s ts = made && (not (nat_beq c b':') && matches (star ∷ ts) s)
cross globstar before made c s ts = made && matches (globstar ∷ ts) s

accepts-fill :
    (t : GlobToken) (before made : Bool) (row : List Bool) (c : ℕ) (s : Text) (ts : List GlobToken)
    → length row ≡ suc (length s)
    → accepts (fill t before made row (c ∷ s)) s ts
      ≡ (cross t before made c s ts || accepts row s (t ∷ ts))
unfolding accepts fill cell cross matches
accepts-fill t before made [] c s ts h = absurd (omega arith)
accepts-fill (literal ch) before made (here ∷ row) c [] ts h = ground arith
accepts-fill single before made (here ∷ row) c [] ts h = ground arith
accepts-fill star before made (here ∷ row) c [] ts h = ground arith
accepts-fill globstar before made (here ∷ row) c [] ts h = ground arith
accepts-fill (literal ch) before made (here ∷ row) c (d ∷ s) ts h = ground (
  arith,
  accepts-fill (literal ch) here (cell (literal ch) before made c here) row d s ts (omega arith),
)
accepts-fill single before made (here ∷ row) c (d ∷ s) ts h =
    ground
      (arith, accepts-fill single here (cell single before made c here) row d s ts (omega arith))
accepts-fill star before made (here ∷ row) c (d ∷ s) ts h =
    ground (arith, accepts-fill star here (cell star before made c here) row d s ts (omega arith))
accepts-fill globstar before made (here ∷ row) c (d ∷ s) ts h =
    ground (
      arith,
      accepts-fill globstar here (cell globstar before made c here) row d s ts (omega arith),
    )

accepts-next_row :
    (t : GlobToken) (row : List Bool) (s : Text) (ts : List GlobToken)
    → length row ≡ suc (length s)
    → accepts (next_row t row s) s ts ≡ accepts row s (t ∷ ts)
unfolding next_row first_cell accepts matches cross fill
accepts-next_row t [] s ts h = absurd (omega arith)
accepts-next_row (literal ch) (here ∷ row) [] ts h = ground arith
accepts-next_row single (here ∷ row) [] ts h = ground arith
accepts-next_row star (here ∷ row) [] ts h = ground arith
accepts-next_row globstar (here ∷ row) [] ts h = ground arith
accepts-next_row (literal ch) (here ∷ row) (d ∷ s) ts h =
    ground (arith, accepts-fill (literal ch) here false row d s ts (omega arith))
accepts-next_row single (here ∷ row) (d ∷ s) ts h =
    ground (arith, accepts-fill single here false row d s ts (omega arith))
accepts-next_row star (here ∷ row) (d ∷ s) ts h =
    ground (arith, accepts-fill star here here row d s ts (omega arith))
accepts-next_row globstar (here ∷ row) (d ∷ s) ts h =
    ground (arith, accepts-fill globstar here here row d s ts (omega arith))

length-fill :
    (t : GlobToken) (before made : Bool) (row : List Bool) (s : Text)
    → length row ≡ length s
    → length (fill t before made row s) ≡ length row
unfolding fill
length-fill t before made [] s h = refl
length-fill t before made (here ∷ row) [] h = absurd (omega arith)
length-fill t before made (here ∷ row) (c ∷ s) h =
    ap suc (length-fill t here (cell t before made c here) row s (omega arith))

length-next_row :
    (t : GlobToken) (row : List Bool) (s : Text)
    → length row ≡ suc (length s)
    → length (next_row t row s) ≡ suc (length s)
unfolding next_row
length-next_row t [] s h = absurd (omega arith)
length-next_row t (here ∷ row) s h =
    omega (arith, length-fill t here (first_cell t here) row s (omega arith))

-- Without tokens, only the end of the key is accepted.
accepts-last_cell :
    (row : List Bool) (s : Text) → length row ≡ suc (length s) → accepts row s [] ≡ last_cell row
unfolding accepts last_cell matches
accepts-last_cell [] s h = absurd (omega arith)
accepts-last_cell (b ∷ []) [] h = ground arith
accepts-last_cell (b ∷ x ∷ row) [] h = absurd (omega arith)
accepts-last_cell (b ∷ []) (c ∷ s) h = absurd (omega arith)
accepts-last_cell (b ∷ x ∷ row) (c ∷ s) h =
    ground (arith, accepts-last_cell (x ∷ row) s (omega arith))

last_cell-rows :
    (ts : List GlobToken) (row : List Bool) (s : Text)
    → length row ≡ suc (length s)
    → last_cell (rows ts row s) ≡ accepts row s ts
unfolding rows
last_cell-rows [] row s h = sym (accepts-last_cell row s h)
last_cell-rows (t ∷ ts) row s h =
    last_cell-rows ts (next_row t row s) s (length-next_row t row s h)
    ∙ accepts-next_row t row s ts h

length-blank : (s : Text) → length (blank s) ≡ length s
unfolding blank
length-blank [] = refl
length-blank (c ∷ s) = ap suc (length-blank s)

accepts-blank : (s : Text) (ts : List GlobToken) → accepts (false ∷ blank s) s ts ≡ false
unfolding accepts blank
accepts-blank [] ts = refl
accepts-blank (c ∷ s) ts = accepts-blank s ts

start : (ts : List GlobToken) (key : Text) → accepts (true ∷ blank key) key ts ≡ matches ts key
unfolding accepts blank
start ts [] = ground arith
start ts (c ∷ s) = ground (arith, accepts-blank s ts)

-- `matchGlob`, which keeps one row of a table for each token, decides for every list of tokens and
-- every key the match that is defined token by token.
pub match_glob-eq-matches : (ts : List GlobToken) (key : Text) → match_glob ts key ≡ matches ts key
unfolding match_glob
match_glob-eq-matches ts key =
    last_cell-rows ts (true ∷ blank key) key (omega (arith, length-blank key)) ∙ start ts key
