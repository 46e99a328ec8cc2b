-- ===== src/Edge/Matching/Captures.antt =====
-- packages/edge-router/src/match.ts: the regular expression of a route against the paths that can be
-- made from it.
use celsian.Base.{
  ℕ, ◌≡◌, ◌≢◌, refl, sym, ap, ◌∙◌, inl, inr, Bool, true, false, Option, none, some, List, [], ◌∷◌,
  ◌++◌, append_assoc, append-nil, Text, nat_beq_iff, Bool-cases, Option-cases, All, arith,
  if◌then◌else◌, subst,
}
use celsian.Edge.Matching.{
  Piece, unit, segment, rest, in_segment, in_rest, group, match_pieces, some_first,
}

-- Whether a group may end: one that wants a character has one.
abbrev pub ends : Bool → Text → Bool
ends may_end [] = may_end
ends may_end (c ∷ s) = true

abbrev pub Allows : (ℕ → Bool) → Bool → Text → Type 0
Allows allowed may_end g = All (λ c. allowed c ≡ true) g × (ends may_end g ≡ true)

-- The texts of the groups can be put in the places of the pattern.
unfoldable pub CanFill : List Piece → List Text → Type 0
CanFill [] [] = Unit
CanFill [] (g ∷ gs) = ⊥
CanFill (unit k ∷ ps) gs = CanFill ps gs
CanFill (segment ∷ ps) [] = ⊥
CanFill (segment ∷ ps) (g ∷ gs) = Allows in_segment false g × CanFill ps gs
CanFill (rest ∷ ps) [] = ⊥
CanFill (rest ∷ ps) (g ∷ gs) = Allows in_rest true g × CanFill ps gs

unfoldable pub fill : List Piece → List Text → Text
fill [] gs = []
fill (unit k ∷ ps) gs = k ∷ fill ps gs
fill (segment ∷ ps) [] = []
fill (segment ∷ ps) (g ∷ gs) = g ++ fill ps gs
fill (rest ∷ ps) [] = []
fill (rest ∷ ps) (g ∷ gs) = g ++ fill ps gs

none-ne-some : {A : Type 0} (a : A) → ◌≡◌ {A = Option A} none (some a) → ⊥
none-ne-some a h = cc

some-inj : {A : Type 0} {a b : A} → some a ≡ some b → a ≡ b
some-inj h = cc

pub ends-true : (g : Text) → ends true g ≡ true
ends-true [] = refl
ends-true (c ∷ g) = refl

module _ (allowed : ℕ → Bool) (next : Text → Option (List Text)) where
  -- What a group that matches has read.
  abbrev Reads : Bool → Text → Text → List Text → Type 0
  Reads may_end cur s gs =
      (g : Text) × (t : Text) × (hs : List Text) × (s ≡ g ++ t)
      × Allows allowed may_end g
      × (gs ≡ (cur ++ g) ∷ hs)
      × (next t ≡ some hs)

  ends_here :
      (may_end : Bool) (cur s : Text) (gs : List Text)
      → (if may_end then some_first cur (next s) else none) ≡ some gs
      → Reads may_end cur s gs
  ends_here false cur s gs h = cc
  ends_here true cur s gs h = elim (Option-cases (next s)) [
    | inl e ↦ absurd (none-ne-some gs (rw e at h))
    | inr (hs, e) ↦ ([], s, hs, refl, (tt, refl), rw append-nil (cc), e)
  ]

  group_sound :
      (may_end : Bool) (cur s : Text) (gs : List Text)
      → group allowed next may_end cur s ≡ some gs
      → Reads may_end cur s gs
  unfolding group
  group_sound may_end cur [] gs h = ends_here may_end cur [] gs h
  group_sound may_end cur (c ∷ s) gs h = elim (Bool-cases (allowed c)) [
    | inr out ↦ ends_here may_end cur (c ∷ s) gs (rw out at h)
    | inl take ↦ elim (Option-cases (group allowed next true (cur ++ c ∷ []) s)) [
      | inl shorter ↦ ends_here may_end cur (c ∷ s) gs (rw shorter at (rw take at h))
      | inr (gs', longer) ↦
          let (g, t, hs, split, (inside, _), text, rest_found) =
            group_sound true (cur ++ c ∷ []) s gs (longer ∙ (rw longer at (rw take at h))) in
          (
            c ∷ g,
            t,
            hs,
            ap (λ x. c ∷ x) split,
            ((take, inside), refl),
            rw append_assoc at text,
            rest_found,
          )
    ]
  ]

  group_complete :
      (may_end : Bool) (cur g t : Text)
      → Allows allowed may_end g
      → group allowed next may_end cur (g ++ t) ≡ none
      → next t ≡ none
  unfolding group
  group_complete false cur [] t (inside, end) h = cc
  group_complete true cur [] [] (inside, end) h = ground (arith)
  group_complete true cur [] (c ∷ t) (inside, end) h = ground (arith)
  group_complete may_end cur (c ∷ g) t ((take, inside), end) h =
      group_complete true (cur ++ c ∷ []) g t (inside, ends-true g) (ground (arith))

pub match_pieces_sound :
    (ps : List Piece) (s : Text) (gs : List Text)
    → match_pieces ps s ≡ some gs
    → CanFill ps gs × (fill ps gs ≡ s)
unfolding match_pieces CanFill fill
match_pieces_sound [] [] gs h = subst (λ x. CanFill [] x × (fill [] x ≡ [])) (some-inj h) (tt, refl)
match_pieces_sound [] (c ∷ s) gs h = cc
match_pieces_sound (unit k ∷ ps) [] gs h = cc
match_pieces_sound (unit k ∷ ps) (c ∷ s) gs h =
    ground (arith, nat_beq_iff k c, match_pieces_sound ps s gs)
match_pieces_sound (segment ∷ ps) s gs h =
    let (g, t, hs, split, inside, text, found) =
      group_sound in_segment (match_pieces ps) false [] s gs h in
    let (fits, back) = match_pieces_sound ps t hs found in
    subst (λ x. CanFill (segment ∷ ps) x × (fill (segment ∷ ps) x ≡ s)) (sym text)
      ((inside, fits), ap (λ x. g ++ x) back ∙ sym split)
match_pieces_sound (rest ∷ ps) s gs h =
    let (g, t, hs, split, inside, text, found) =
      group_sound in_rest (match_pieces ps) true [] s gs h in
    let (fits, back) = match_pieces_sound ps t hs found in
    subst (λ x. CanFill (rest ∷ ps) x × (fill (rest ∷ ps) x ≡ s)) (sym text)
      ((inside, fits), ap (λ x. g ++ x) back ∙ sym split)

pub match_pieces_found :
    (ps : List Piece) (gs : List Text) → CanFill ps gs → match_pieces ps (fill ps gs) ≢ none
unfolding match_pieces CanFill fill
match_pieces_found [] [] fits h = cc
match_pieces_found [] (g ∷ gs) fits h = fits
match_pieces_found (unit k ∷ ps) gs fits h =
    match_pieces_found ps gs fits (ground (arith, nat_beq_iff k k))
match_pieces_found (segment ∷ ps) [] fits h = fits
match_pieces_found (segment ∷ ps) (g ∷ gs) (inside, fits) h =
    match_pieces_found ps gs fits
      (group_complete in_segment (match_pieces ps) false [] g (fill ps gs) inside h)
match_pieces_found (rest ∷ ps) [] fits h = fits
match_pieces_found (rest ∷ ps) (g ∷ gs) (inside, fits) h =
    match_pieces_found ps gs fits
      (group_complete in_rest (match_pieces ps) true [] g (fill ps gs) inside h)
