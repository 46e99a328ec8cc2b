-- ===== src/Edge/Matching/Routes.antt =====
-- packages/edge-router/src/match.ts: `matchRoute` on compiled entries against what their patterns
-- mean.
use celsian.Base.{
  ◌≡◌, refl, ap, ◌⊎◌, inl, inr, Bool, true, false, Option, none, some, List, [], ◌∷◌, ◌++◌, map,
  Text, Bool-cases, Option-cases, All, arith, codes, text_eq, ◌==◌, ◌||◌, any, text_beq_iff,
}
use celsian.Edge.Matching.{
  RouteEntry, compile_route, compile_routes, match_pieces, RouteMatch, takes_method, match_upper,
  match_route,
}
use celsian.Map.{Map}
use celsian.Words.{upper_case}
use celsian.Edge.Matching.Patterns.{Makes, match_pieces-Makes, match_pieces-none}

-- An entry is for a request: it has the method, in any case, or `*`, and its pattern makes the path.
abbrev pub HasMethod : Text → List Text → Type 0
HasMethod w [] = ⊥
HasMethod w (m ∷ ms) = (upper_case m ≡ w) ⊎ HasMethod w ms

abbrev pub IsFor : Text → Text → RouteEntry → Type 0
IsFor path method e =
    (HasMethod (upper_case method) e.methods ⊎ HasMethod (codes "*") e.methods)
    × Makes false e.pattern path

abbrev pub IsFirstFor : Text → Text → List RouteEntry → RouteEntry → Type 0
IsFirstFor path method es e =
    (before : List RouteEntry) × (after : List RouteEntry) × (es ≡ before ++ e ∷ after)
    × All (λ o. IsFor path method o → ⊥) before
    × IsFor path method e

HasMethod-any :
    (w : Text) (ms : List Text) → HasMethod w ms → any (λ m. m == w) (map upper_case ms) ≡ true
HasMethod-any w [] h = elim h [ ]
HasMethod-any w (m ∷ ms) (inl same) = rw ((text_beq_iff (upper_case m) w).1 same)
HasMethod-any w (m ∷ ms) (inr more) = rw (HasMethod-any w ms more) (ground (arith))

any-HasMethod :
    (w : Text) (ms : List Text) → any (λ m. m == w) (map upper_case ms) ≡ true → HasMethod w ms
any-HasMethod w [] h = cc
any-HasMethod w (m ∷ ms) h = elim (Bool-cases (upper_case m == w)) [
  | inl same ↦ inl ((text_beq_iff (upper_case m) w).0 same)
  | inr other ↦ inr (any-HasMethod w ms (rw other at h))
]

or-cases : (a b : Bool) → a || b ≡ true → (a ≡ true) ⊎ (b ≡ true)
or-cases true b h = inl refl
or-cases false b h = inr h

takes_method_sound :
    (e : RouteEntry) (w : Text)
    → takes_method (compile_route e) w ≡ true
    → HasMethod w e.methods ⊎ HasMethod (codes "*") e.methods
unfolding compile_route
takes_method_sound e w h = elim (or-cases _ _ h) [
  | inl named ↦ inl (any-HasMethod w e.methods named)
  | inr all ↦ inr (any-HasMethod (codes "*") e.methods all)
]

takes_method_complete :
    (e : RouteEntry) (w : Text)
    → HasMethod w e.methods ⊎ HasMethod (codes "*") e.methods
    → takes_method (compile_route e) w ≡ true
unfolding compile_route
takes_method_complete e w (inl named) = rw (HasMethod-any w e.methods named)
takes_method_complete e w (inr all) = rw (HasMethod-any (codes "*") e.methods all) (ground (arith))

-- A route that is passed over.
passed :
    (e : RouteEntry) (path method : Text)
    → (takes_method (compile_route e) (upper_case method) ≡ false)
      ⊎ (match_pieces (compile_route e).regex path ≡ none)
    → IsFor path method e
    → ⊥
unfolding compile_route
passed e path method (inl other) (has, made) =
    let takes = takes_method_complete e (upper_case method) has in cc
passed e path method (inr missed) (has, made) = match_pieces-none e.pattern path missed made

reached :
    (e : RouteEntry) (path method : Text) (gs : List Text)
    → takes_method (compile_route e) (upper_case method) ≡ true
    → match_pieces (compile_route e).regex path ≡ some gs
    → IsFor path method e
unfolding compile_route
reached e path method gs takes matched =
    (takes_method_sound e (upper_case method) takes, match_pieces-Makes e.pattern path gs matched)

later :
    (e o : RouteEntry) (path method : Text) (es : List RouteEntry)
    → (IsFor path method o → ⊥)
    → IsFirstFor path method es e
    → IsFirstFor path method (o ∷ es) e
later e o path method es out (before, after, split, others, h) =
    (o ∷ before, after, ap (λ x. o ∷ x) split, (out, others), h)

-- What the answer says of the entries: `none` is the error of a parameter that cannot be decoded.
abbrev pub Answers : Text → Text → List RouteEntry → Option (Option RouteMatch) → Type 0
Answers path method es none = (e : RouteEntry) × IsFirstFor path method es e
Answers path method es (some none) = All (λ e. IsFor path method e → ⊥) es
Answers path method es (some (some m)) = IsFirstFor path method es m.route.entry

Answers-later :
    (o : RouteEntry) (path method : Text) (es : List RouteEntry) (r : Option (Option RouteMatch))
    → (IsFor path method o → ⊥)
    → Answers path method es r
    → Answers path method (o ∷ es) r
Answers-later o path method es none out (e, h) = (e, later e o path method es out h)
Answers-later o path method es (some none) out h = (out, h)
Answers-later o path method es (some (some m)) out h = later m.route.entry o path method es out h

answered :
    (e : RouteEntry) (path method : Text) (es : List RouteEntry)
    → IsFor path method e
    → (params : Option (Map Text Text))
    → Answers path method (e ∷ es) (elim params [
      | none ↦ none
      | some found ↦ some (some (record { route = compile_route e; params = found }))
    ])
unfolding compile_route
answered e path method es h none = (e, ([], es, refl, tt, h))
answered e path method es h (some found) = ([], es, refl, tt, h)

match_upper-Answers :
    (path method : Text) (es : List RouteEntry)
    → Answers path method es (match_upper (compile_routes es) path (upper_case method))
unfolding match_upper
match_upper-Answers path method [] = tt
match_upper-Answers path method (e ∷ es) =
    let more = match_upper-Answers path method es in
    elim (Bool-cases (takes_method (compile_route e) (upper_case method))) [
      | inl takes ↦ elim (Option-cases (match_pieces (compile_route e).regex path)) [
        | inl missed ↦
            let out = passed e path method (inr missed) in
            rw (takes, missed) (Answers-later e path method es _ out more)
        | inr (gs, matched) ↦
            let found = reached e path method gs takes matched in
            rw (takes, matched) (answered e path method es found _)
      ]
      | inr other ↦
          let out = passed e path method (inl other) in
          rw other (Answers-later e path method es _ out more)
    ]

-- On the compiled entries, `matchRoute` answers with the first entry that has the method, or `*`,
-- and whose pattern makes the path; it answers null only where no entry has both, and it fails, on a
-- parameter that cannot be decoded, only where some entry has both.
pub match_route-Answers :
    (path method : Text) (es : List RouteEntry)
    → Answers path method es (match_route (compile_routes es) path method)
unfolding match_route
match_route-Answers path method es = match_upper-Answers path method es
