-- ===== src/Router/Match.antt =====
-- packages/core/src/router.ts: `matchNode`, `_hasPath` and `_collectMethods` on the tree. An object of
-- parameters is a `Map`, passed on from branch to branch as the code changes it.
use celsian.Base.{
  ℕ, Bool, false, not, ◌&&◌, ◌||◌, Option, none, some, List, [], ◌∷◌, ◌++◌, Text, nat_beq, length,
  text_eq, any, if◌then◌else◌,
}
use celsian.Map
use celsian.Map.{Map}
use celsian.Router.Types.{
  RouteMethod, method_eq, RadixNode, radix_node, Children, Slot, vacant, taken,
}
use celsian.Router.Paths.{decode_uri_component, join}
use celsian.Router.Tree.{is_truthy, routes, get_child}

pub data HttpError : Type 0 where
  malformed_uri : HttpError
  invalid_path_param : HttpError

pub data Outcome (A : Type 0) : Type 0 where
  returned : A → Outcome A
  thrown : HttpError → Outcome A

infixl 5 ◌>>=◌
abbrev pub ◌>>=◌ : {A B : Type 0} → Outcome A → (A → Outcome B) → Outcome B
returned a >>= f = f a
thrown e >>= f = thrown e

-- `decodeSegment`
unfoldable pub decode_segment : Text → Outcome Text
decode_segment seg = elim (decode_uri_component seg) [
  | none ↦ thrown malformed_uri
  | some s ↦ returned s
]

-- `/[/\\\0]/`
abbrev pub is_separator : ℕ → Bool
is_separator c = nat_beq c b'/' || nat_beq c 92 || nat_beq c 0

unfoldable pub decode_param : (strict : Bool) → Text → Outcome Text
decode_param strict seg = decode_segment seg >>= λ decoded.
    if strict && any is_separator decoded then thrown invalid_path_param else returned decoded

-- The parameters, decoded and as they stood.
pub record Captured : Type 0 where
  pub params : Map Text Text
  pub raw_params : Map Text Text

abbrev pub capture : Text → Text → Text → Captured → Captured
capture name value raw c = record {
  params = Map.set name value c.params;
  raw_params = Map.set name raw c.raw_params;
}

abbrev pub release : Text → Captured → Captured
release name c = record {
  params = Map.delete name c.params;
  raw_params = Map.delete name c.raw_params;
}

abbrev pub no_params : Captured
no_params = record { params = []; raw_params = [] }

module _ {H : Type 0} where
  -- One way to match, and the next one if it finds nothing.
  abbrev pub or_next :
      Outcome (Captured × Option (RadixNode H))
      → (Captured → Outcome (Captured × Option (RadixNode H)))
      → Outcome (Captured × Option (RadixNode H))
  or_next (thrown e) next = thrown e
  or_next (returned (c, some n)) next = returned (c, some n)
  or_next (returned (c, none)) next = next c

  -- `delete params[name]` when the parameter's child finds nothing.
  abbrev pub release_missed :
      Text → Captured × Option (RadixNode H) → Captured × Option (RadixNode H)
  release_missed name (c, some n) = (c, some n)
  release_missed name (c, none) = (release name c, none)

  -- The three ways of `matchNode`, where `next` matches the remaining segments from a child.
  unfoldable pub match_fixed :
      (RadixNode H → Captured → Outcome (Captured × Option (RadixNode H)))
      → Text
      → Children H
      → Captured
      → Outcome (Captured × Option (RadixNode H))
  match_fixed next seg cs c = elim (get_child seg cs) [
    | none ↦ returned (c, none)
    | some child ↦ next child c
  ]

  unfoldable pub match_param :
      (strict : Bool)
      → (RadixNode H → Captured → Outcome (Captured × Option (RadixNode H)))
      → Text
      → Slot H
      → Captured
      → Outcome (Captured × Option (RadixNode H))
  match_param strict next seg vacant c = returned (c, none)
  match_param strict next seg (taken name child) c =
      let tried = decode_param strict seg >>= λ value.
      next child (capture name value seg c) >>= λ found. returned (release_missed name found) in
      if is_truthy name then tried else returned (c, none)

  unfoldable pub match_wildcard :
      List Text → RouteMethod → Slot H → Captured → Outcome (Captured × Option (RadixNode H))
  match_wildcard segs method vacant c = returned (c, none)
  match_wildcard segs method (taken name n) c =
      let rest = decode_segment (join segs) >>= λ value.
      returned (capture name value (join segs) c, some n) in
      if is_truthy name && Map.has method (routes n) then rest else returned (c, none)

  -- `matchNode`
  unfoldable pub match_node :
      (strict : Bool)
      → RouteMethod
      → List Text
      → RadixNode H
      → Captured
      → Outcome (Captured × Option (RadixNode H))
  match_node strict method [] n c = returned (c, if Map.has method (routes n) then some n else none)
  match_node strict method (seg ∷ segs) (radix_node s cs p w rs) c =
      or_next
        (or_next (match_fixed (match_node strict method segs) seg cs c)
          (match_param strict (match_node strict method segs) seg p))
        (match_wildcard (seg ∷ segs) method w)

  -- `_hasPath`, and `_collectMethods` with the set it fills as a list.
  unfoldable pub node_has_path : List Text → RadixNode H → Bool
  node_has_path [] n = not (nat_beq (length (routes n)) 0)
  node_has_path (seg ∷ segs) (radix_node s cs p w rs) =
      elim (get_child seg cs) [ none ↦ false | some child ↦ node_has_path segs child ]
      || elim p [ vacant ↦ false | taken name child ↦ node_has_path segs child ]

  unfoldable pub collect_methods : List Text → RadixNode H → List RouteMethod
  collect_methods [] n = Map.keys (routes n)
  collect_methods (seg ∷ segs) (radix_node s cs p w rs) =
      elim (get_child seg cs) [ none ↦ [] | some child ↦ collect_methods segs child ]
      ++ elim p [ vacant ↦ [] | taken name child ↦ collect_methods segs child ]
