-- ===== src/Cache/Glob/Literals.antt =====
-- A pattern without wildcards.
use celsian.Base.{◌≡◌, refl, ◌∙◌, ◌≢◌, [], ◌∷◌, Text, text_beq, arith, All}
use celsian.Cache.Glob.{parse_glob, parse_from, match_glob}
use celsian.Cache.Glob.Equivalence.{matches, match_glob-eq-matches}

abbrev pub IsPlain : Text → Type 0
IsPlain = All (λ c. (c ≢ b'*') × (c ≢ b'?'))

matches-parse_from_plain :
    (pattern key : Text)
    → IsPlain pattern
    → matches (parse_from 0 pattern) key ≡ text_beq pattern key
unfolding parse_from matches text_beq
matches-parse_from_plain [] [] h = refl
matches-parse_from_plain [] (d ∷ key) h = refl
matches-parse_from_plain (c ∷ pattern) [] (n, h) = ground arith
matches-parse_from_plain (c ∷ pattern) (d ∷ key) (n, h) =
    ground (arith, matches-parse_from_plain pattern key h)

-- A pattern with neither `*` nor `?` matches one key only, the pattern itself.
pub match_glob-parse_glob_plain :
    (pattern key : Text)
    → IsPlain pattern
    → match_glob (parse_glob pattern) key ≡ text_beq pattern key
unfolding parse_glob
match_glob-parse_glob_plain pattern key h =
    match_glob-eq-matches (parse_from 0 pattern) key ∙ matches-parse_from_plain pattern key h
