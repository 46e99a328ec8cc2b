-- ===== src/Edge/Matching/Patterns.antt =====
-- packages/edge-router/src/match.ts: what a pattern means, read off its text, and the regular
-- expression that `compileRoute` makes of it.
use celsian.Base.{
  ℕ, ◌≡◌, ◌≢◌, refl, sym, ap, ◌⊎◌, inl, inr, Bool, true, false, ◌&&◌, none, some, List, [], ◌∷◌,
  ◌++◌, append_assoc, map, Text, nat_beq, nat_beq_iff, Bool-cases, All, All-imp, arith,
  if◌then◌else◌, subst, text_eq,
}
use celsian.Edge.Matching.{
  RouteToken, Piece, unit, segment, rest, names_param, tokens_from, pieces, tokenize, match_pieces,
  in_segment, in_rest, push_literal,
}
use celsian.Edge.Matching.Captures.{
  CanFill, fill, Allows, ends-true, match_pieces_sound, match_pieces_found,
}

abbrev pub IsTerminator : ℕ → Type 0
IsTerminator c = (c ≡ 10) ⊎ (c ≡ 13) ⊎ (c ≡ 0x2028) ⊎ (c ≡ 0x2029)

-- A pattern makes a path: `:name` stands for a text that is not empty and has no slash, `*` for any
-- text on one line, and each other character for itself. In the name of a parameter, the pattern
-- goes on at the next slash.
pub data Makes : (in_name : Bool) → Text → Text → Type 0 where
  at_end : (in_name : Bool) → Makes in_name [] []
  in_its_name : (c : ℕ) (p s : Text) → c ≢ b'/' → Makes true p s → Makes true (c ∷ p) s
  after_name : (p s : Text) → Makes false p s → Makes true (b'/' ∷ p) (b'/' ∷ s)
  parameter :
      (c : ℕ) (p g s : Text)
      → c ≢ b'/'
      → g ≢ []
      → All (λ d. d ≢ b'/') g
      → Makes true (c ∷ p) s
      → Makes false (b':' ∷ c ∷ p) (g ++ s)
  anything :
      (p g s : Text)
      → All (λ d. IsTerminator d → ⊥) g
      → Makes false p s
      → Makes false (b'*' ∷ p) (g ++ s)
  itself :
      (c : ℕ) (p s : Text)
      → c ≢ b'*'
      → (c ≡ b':' → names_param p ≡ false)
      → Makes false p s
      → Makes false (c ∷ p) (c ∷ s)

-- The pieces of a pattern, from its text.
unfoldable pieces_of : (in_name : Bool) → Text → List Piece
pieces_of in_name [] = []
pieces_of true (c ∷ p) = if nat_beq c b'/' then unit c ∷ pieces_of false p else pieces_of true p
pieces_of false (c ∷ p) =
    let named = segment ∷ pieces_of true p in
    let starred = rest ∷ pieces_of false p in
    let plain = unit c ∷ pieces_of false p in
    if nat_beq c b':' && names_param p then named else if nat_beq c b'*' then starred else plain

map_unit-append : (s : Text) (c : ℕ) → map unit (s ++ c ∷ []) ≡ map unit s ++ unit c ∷ []
map_unit-append [] c = refl
map_unit-append (d ∷ s) c = ap (λ x. unit d ∷ x) (map_unit-append s c)

pieces-push_literal :
    (s : Text) (ts : List RouteToken) → pieces (push_literal s ts) ≡ map unit s ++ pieces ts
unfolding pieces
pieces-push_literal [] ts = refl
pieces-push_literal (c ∷ s) ts = refl

mutual
  unfolding tokens_from pieces pieces_of

  pieces-tokens_false :
      (cur p : Text) → pieces (tokens_from false cur p) ≡ map unit cur ++ pieces_of false p
  pieces-tokens_false cur [] = pieces-push_literal cur []
  pieces-tokens_false cur (c ∷ p) = elim (Bool-cases (nat_beq c b':' && names_param p)) [
    | inl named ↦ rw named (rw (pieces-push_literal cur, pieces-tokens_true [] p) refl)
    | inr no_name ↦ elim (Bool-cases (nat_beq c b'*')) [
      | inl star ↦ rw (no_name, star) (rw (pieces-push_literal cur, pieces-tokens_false [] p) refl)
      | inr plain ↦
          rw (no_name, plain)
            (rw (pieces-tokens_false (cur ++ c ∷ []) p, map_unit-append cur c, append_assoc) refl)
    ]
  ]

  pieces-tokens_true : (cur p : Text) → pieces (tokens_from true cur p) ≡ segment ∷ pieces_of true p
  pieces-tokens_true cur [] = refl
  pieces-tokens_true cur (c ∷ p) = elim (Bool-cases (nat_beq c b'/')) [
    | inl ends ↦ rw ends (ap (λ x. segment ∷ x) (pieces-tokens_false (c ∷ []) p))
    | inr goes_on ↦ rw goes_on (pieces-tokens_true (cur ++ c ∷ []) p)
  ]

no_slash : (c : ℕ) → in_segment c ≡ true → c ≢ b'/'
no_slash c h e = ground (arith, nat_beq_iff c b'/')

slash_free : (g : Text) → All (λ c. in_segment c ≡ true) g → All (λ c. c ≢ b'/') g
slash_free g h = All-imp no_slash g h

Allows-segment : (g : Text) → Allows in_segment false g → (g ≢ []) × All (λ c. c ≢ b'/') g
Allows-segment [] (inside, end) = cc
Allows-segment (c ∷ g) (inside, end) = (λ e. cc, slash_free (c ∷ g) inside)

segment-Allows : (g : Text) → g ≢ [] → All (λ c. c ≢ b'/') g → Allows in_segment false g
segment-Allows [] some_char free = absurd (some_char refl)
segment-Allows (c ∷ g) some_char free =
    (All-imp (λ d out. ground (arith, nat_beq_iff d b'/')) (c ∷ g) free, refl)

rest-IsTerminator : (c : ℕ) → in_rest c ≡ true → IsTerminator c → ⊥
rest-IsTerminator c h t = ground (arith)

IsTerminator-rest : (c : ℕ) → (IsTerminator c → ⊥) → in_rest c ≡ true
IsTerminator-rest c h = ground (arith)

-- The pieces, one step of the pattern at a time.
pieces_of-in_name : (c : ℕ) (p : Text) → c ≢ b'/' → pieces_of true (c ∷ p) ≡ pieces_of true p
unfolding pieces_of
pieces_of-in_name c p out = ground (arith, nat_beq_iff c b'/')

pieces_of-slash : (p : Text) → pieces_of true (b'/' ∷ p) ≡ unit b'/' ∷ pieces_of false p
unfolding pieces_of
pieces_of-slash p = refl

pieces_of-named :
    (c : ℕ) (p : Text)
    → c ≢ b'/'
    → pieces_of false (b':' ∷ c ∷ p) ≡ segment ∷ pieces_of true (c ∷ p)
unfolding pieces_of
pieces_of-named c p out = ground (arith, nat_beq_iff c b'/')

pieces_of-star : (p : Text) → pieces_of false (b'*' ∷ p) ≡ rest ∷ pieces_of false p
unfolding pieces_of
pieces_of-star p = refl

pieces_of-plain :
    (c : ℕ) (p : Text)
    → c ≢ b'*'
    → (c ≡ b':' → names_param p ≡ false)
    → pieces_of false (c ∷ p) ≡ unit c ∷ pieces_of false p
unfolding pieces_of
pieces_of-plain c p plain no_name = elim (Bool-cases (nat_beq c b':')) [
  | inl colon ↦
      rw (colon, no_name ((nat_beq_iff c b':').0 colon)) (ground (arith, nat_beq_iff c b'*'))
  | inr other ↦ rw other (ground (arith, nat_beq_iff c b'*'))
]

-- The pieces can be filled so that the path comes out.
abbrev Fills : List Piece → Text → Type 0
Fills ps s = (gs : List Text) × CanFill ps gs × (fill ps gs ≡ s)

module _ (ps : List Piece) (s : Text) where
  Fills-unit : (c : ℕ) → Fills ps s → Fills (unit c ∷ ps) (c ∷ s)
  unfolding CanFill fill
  Fills-unit c (gs, fits, same) = (gs, fits, ap (λ x. c ∷ x) same)

  Fills-segment :
      (g : Text) → Allows in_segment false g → Fills ps s → Fills (segment ∷ ps) (g ++ s)
  unfolding CanFill fill
  Fills-segment g allowed (gs, fits, same) = (g ∷ gs, (allowed, fits), ap (λ x. g ++ x) same)

  Fills-rest : (g : Text) → Allows in_rest true g → Fills ps s → Fills (rest ∷ ps) (g ++ s)
  unfolding CanFill fill
  Fills-rest g allowed (gs, fits, same) = (g ∷ gs, (allowed, fits), ap (λ x. g ++ x) same)

Makes-Fills : (in_name : Bool) (p s : Text) → Makes in_name p s → Fills (pieces_of in_name p) s
Makes-Fills _ _ _ (at_end in_name) = unfold pieces_of CanFill fill in ([], tt, refl)
Makes-Fills _ _ _ (in_its_name c p s out h) =
    subst (λ x. Fills x s) (sym (pieces_of-in_name c p out)) (Makes-Fills true p s h)
Makes-Fills _ _ _ (after_name p s h) =
    subst (λ x. Fills x (b'/' ∷ s)) (sym (pieces_of-slash p))
      (Fills-unit _ s b'/' (Makes-Fills false p s h))
Makes-Fills _ _ _ (parameter c p g s out some_char free h) =
    subst (λ x. Fills x (g ++ s)) (sym (pieces_of-named c p out))
      (Fills-segment _ s g (segment-Allows g some_char free) (Makes-Fills true (c ∷ p) s h))
Makes-Fills _ _ _ (anything p g s free h) =
    subst (λ x. Fills x (g ++ s)) (sym (pieces_of-star p))
      (Fills-rest _ s g (All-imp IsTerminator-rest g free, ends-true g) (Makes-Fills false p s h))
Makes-Fills _ _ _ (itself c p s plain no_name h) =
    subst (λ x. Fills x (c ∷ s)) (sym (pieces_of-plain c p plain no_name))
      (Fills-unit _ s c (Makes-Fills false p s h))

abbrev MakesAll : Bool → Text → List Piece → Type 0
MakesAll in_name p ps = (gs : List Text) → CanFill ps gs → Makes in_name p (fill ps gs)

parameter-fill :
    (c : ℕ) (p : Text) (ps : List Piece)
    → c ≢ b'/'
    → MakesAll true (c ∷ p) ps
    → MakesAll false (b':' ∷ c ∷ p) (segment ∷ ps)
unfolding CanFill fill
parameter-fill c p ps out made [] h = elim h [ ]
parameter-fill c p ps out made (g ∷ gs) (allowed, h) =
    let (some_char, free) = Allows-segment g allowed in
    parameter c p g (fill ps gs) out some_char free (made gs h)

anything-fill :
    (p : Text) (ps : List Piece) → MakesAll false p ps → MakesAll false (b'*' ∷ p) (rest ∷ ps)
unfolding CanFill fill
anything-fill p ps made [] h = elim h [ ]
anything-fill p ps made (g ∷ gs) ((inside, _), h) =
    anything p g (fill ps gs) (All-imp rest-IsTerminator g inside) (made gs h)

slash-fill :
    (p : Text) (ps : List Piece) → MakesAll false p ps → MakesAll true (b'/' ∷ p) (unit b'/' ∷ ps)
unfolding CanFill fill
slash-fill p ps made gs h = after_name p (fill ps gs) (made gs h)

itself-fill :
    (c : ℕ) (p : Text) (ps : List Piece)
    → c ≢ b'*'
    → (c ≡ b':' → names_param p ≡ false)
    → MakesAll false p ps
    → MakesAll false (c ∷ p) (unit c ∷ ps)
unfolding CanFill fill
itself-fill c p ps plain no_name made gs h = itself c p (fill ps gs) plain no_name (made gs h)

end-fill : (in_name : Bool) → MakesAll in_name [] []
unfolding CanFill fill
end-fill in_name [] h = at_end in_name
end-fill in_name (g ∷ gs) h = elim h [ ]

unnamed-fill :
    (c : ℕ) (p : Text)
    → (c ≡ b':' → names_param p ≡ false)
    → MakesAll false p (pieces_of false p)
    → MakesAll false (c ∷ p) (pieces_of false (c ∷ p))
unnamed-fill c p no_name made = elim (Bool-cases (nat_beq c b'*')) [
  | inl star ↦
      subst (λ d. MakesAll false (d ∷ p) (pieces_of false (d ∷ p)))
        (sym ((nat_beq_iff c b'*').0 star))
        (subst (MakesAll false (b'*' ∷ p)) (sym (pieces_of-star p)) (anything-fill p _ made))
  | inr other ↦
      let plain : c ≢ b'*' = λ e. absurd (ground (arith, nat_beq_iff c b'*')) in
      subst (MakesAll false (c ∷ p)) (sym (pieces_of-plain c p plain no_name))
        (itself-fill c p _ plain no_name made)
]

made_by : (in_name : Bool) (p : Text) → MakesAll in_name p (pieces_of in_name p)
made_by in_name [] = unfold pieces_of in end-fill in_name
made_by true (c ∷ p) =
    let named = made_by true p in
    let closed = made_by false p in
    elim (Bool-cases (nat_beq c b'/')) [
      | inl ends ↦
          subst (λ d. MakesAll true (d ∷ p) (pieces_of true (d ∷ p)))
            (sym ((nat_beq_iff c b'/').0 ends))
            (subst (MakesAll true (b'/' ∷ p)) (sym (pieces_of-slash p)) (slash-fill p _ closed))
      | inr goes_on ↦
          let out : c ≢ b'/' = λ e. absurd (ground (arith, nat_beq_iff c b'/')) in
          subst (MakesAll true (c ∷ p)) (sym (pieces_of-in_name c p out))
            (λ gs h. in_its_name c p _ out (named gs h))
    ]
made_by false (c ∷ []) = unnamed-fill c [] (λ e. refl) (made_by false [])
made_by false (c ∷ d ∷ p) =
    let named = made_by true (d ∷ p) in
    let unnamed = made_by false (d ∷ p) in
    elim (Bool-cases (nat_beq d b'/')) [
      | inl slash ↦ unnamed-fill c (d ∷ p) (λ e. rw slash refl) unnamed
      | inr no_slash ↦
          let out : d ≢ b'/' = λ e. absurd (ground (arith, nat_beq_iff d b'/')) in
          elim (Bool-cases (nat_beq c b':')) [
            | inr other ↦
                unnamed-fill c (d ∷ p) (λ e. absurd (ground (arith, nat_beq_iff c b':'))) unnamed
            | inl colon ↦
                subst (λ e. MakesAll false (e ∷ d ∷ p) (pieces_of false (e ∷ d ∷ p)))
                  (sym ((nat_beq_iff c b':').0 colon))
                  (subst (MakesAll false (b':' ∷ d ∷ p)) (sym (pieces_of-named d p out))
                    (parameter-fill d p _ out named))
          ]
    ]

pieces-tokenize : (p : Text) → pieces (tokenize p) ≡ pieces_of false p
unfolding tokenize
pieces-tokenize p = pieces-tokens_false [] p

-- The regular expression of a pattern matches the paths that the pattern makes, and no others.
pub match_pieces-Makes :
    (p s : Text) (gs : List Text) → match_pieces (pieces (tokenize p)) s ≡ some gs → Makes false p s
match_pieces-Makes p s gs h =
    let (fits, same) =
      match_pieces_sound (pieces_of false p) s gs
        (subst (λ x. match_pieces x s ≡ some gs) (pieces-tokenize p) h) in
    subst (Makes false p) same (made_by false p gs fits)

pub match_pieces-none :
    (p s : Text) → match_pieces (pieces (tokenize p)) s ≡ none → Makes false p s → ⊥
match_pieces-none p s h made =
    let (gs, fits, same) = Makes-Fills false p s made in
    match_pieces_found (pieces_of false p) gs fits (
      subst (λ x. match_pieces (pieces_of false p) x ≡ none) (sym same)
        (subst (λ x. match_pieces x s ≡ none) (pieces-tokenize p) h))
