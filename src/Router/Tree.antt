-- ===== src/Router/Tree.antt =====
-- packages/core/src/router.ts: the loop of `addRoute` down the tree, `findFirstRouteUrl` and
-- `collectRoutes`. A thrown error is a value; `addRoute` can throw when it has made nodes already,
-- so the new node stands beside it.
use celsian.Base.{
  Bool, true, false, ◌&&◌, Option, none, some, List, [], ◌∷◌, ◌++◌, Text, codes, nat_beq, text_eq,
  ◌==◌, map, if◌then◌else◌, ◌≡◌, ◌⊎◌, refl, inl, inr,
}
use celsian.Map
use celsian.Map.{Map}
use celsian.Router.Types.{
  RouteMethod, method_eq, InternalRoute, RadixNode, radix_node, Children, leaf, branch, Slot,
  vacant, taken,
}

-- The truth value of a string.
abbrev pub is_truthy : Text → Bool
is_truthy [] = false
is_truthy (c ∷ s) = true

pub data RouteError : Type 0 where
  -- The url and its parameter, with the route and the parameter that are there already.
  conflicting_param : (url name existing current : Text) → RouteError
  duplicate_route : RouteMethod → (url existing : Text) → RouteError

-- The first character of a segment says what it is: `:name`, `*name` or fixed.
pub data SegmentKind : Type 0 where
  param_segment : Text → SegmentKind
  wildcard_segment : Text → SegmentKind
  fixed_segment : SegmentKind

unfoldable pub segment_kind : Text → SegmentKind
segment_kind [] = fixed_segment
segment_kind (c ∷ name) =
    if nat_beq c b':'
    then param_segment name
    else if nat_beq c b'*'
    then wildcard_segment (if is_truthy name then name else codes "*")
    else fixed_segment

abbrev pub is_fixed : SegmentKind → Bool
is_fixed fixed_segment = true
is_fixed _ = false

-- `isStatic` after the loop of `addRoute`.
abbrev pub all_fixed : List Text → Bool
all_fixed [] = true
all_fixed (seg ∷ segs) = is_fixed (segment_kind seg) && all_fixed segs

pub SegmentKind-cases :
    (k : SegmentKind)
    → (k ≡ fixed_segment)
      ⊎ (((name : Text) × (k ≡ param_segment name)) ⊎ ((name : Text) × (k ≡ wildcard_segment name)))
SegmentKind-cases fixed_segment = inl refl
SegmentKind-cases (param_segment name) = inr (inl (name, refl))
SegmentKind-cases (wildcard_segment name) = inr (inr (name, refl))

-- `findFirstRouteUrl`'s `if (found) return found`, before the rest is searched.
abbrev found_or : Option Text → Option Text → Option Text
found_or none rest = rest
found_or (some url) rest = if is_truthy url then some url else rest

abbrev url_or : Option Text → Text → Text
url_or none name = b':' ∷ name
url_or (some url) name = url

module _ {H : Type 0} where
  abbrev pub create_node : Text → RadixNode H
  create_node segment = radix_node segment leaf vacant vacant []

  abbrev pub routes : RadixNode H → Map RouteMethod (InternalRoute H)
  routes (radix_node s cs p w rs) = rs

  -- `children.get` and `children.set`
  unfoldable pub get_child : Text → Children H → Option (RadixNode H)
  get_child k leaf = none
  get_child k (branch j n cs) = if j == k then some n else get_child k cs

  unfoldable pub set_child : Text → RadixNode H → Children H → Children H
  set_child k n leaf = branch k n leaf
  set_child k n (branch j o cs) = if j == k then branch j n cs else branch j o (set_child k n cs)

  abbrev pub child_or_new : Text → Option (RadixNode H) → RadixNode H
  child_or_new seg none = create_node seg
  child_or_new seg (some n) = n

  abbrev first_url : Map RouteMethod (InternalRoute H) → Option Text → Option Text
  first_url [] rest = rest
  first_url ((m, route) ∷ rs) rest = some route.url

unfoldable mutual
  pub find_first_route_url : {H : Type 0} → RadixNode H → Option Text
  find_first_route_url (radix_node s cs p w rs) =
      first_url rs (found_or (find_in_children cs) (found_or (find_in_slot p) (find_in_slot w)))

  pub find_in_children : {H : Type 0} → Children H → Option Text
  find_in_children leaf = none
  find_in_children (branch k n cs) = found_or (find_first_route_url n) (find_in_children cs)

  pub find_in_slot : {H : Type 0} → Slot H → Option Text
  find_in_slot vacant = none
  find_in_slot (taken name n) = find_first_route_url n

unfoldable mutual
  -- `collectRoutes`
  pub collect_routes : {H : Type 0} → RadixNode H → List (InternalRoute H)
  collect_routes (radix_node s cs p w rs) =
      map (λ e. e.1) rs ++ (collect_children cs ++ (collect_slot p ++ collect_slot w))

  pub collect_children : {H : Type 0} → Children H → List (InternalRoute H)
  collect_children leaf = []
  collect_children (branch k n cs) = collect_routes n ++ collect_children cs

  pub collect_slot : {H : Type 0} → Slot H → List (InternalRoute H)
  collect_slot vacant = []
  collect_slot (taken name n) = collect_routes n

module _ {H : Type 0} where
  -- The end of `addRoute`: the node that the segments lead to takes the route.
  unfoldable pub put_route : InternalRoute H → RadixNode H → RadixNode H × Option RouteError
  put_route route (radix_node s cs p w rs) = elim (Map.get route.method rs) [
    | some duplicate ↦
        (radix_node s cs p w rs, some (duplicate_route route.method route.url duplicate.url))
    | none ↦ (radix_node s cs p w (Map.set route.method route rs), none)
  ]

  abbrev conflict : InternalRoute H → Text → Text → RadixNode H → RouteError
  conflict route name current n =
      conflicting_param route.url name (url_or (find_first_route_url n) current) current

  -- One round of the loop of `addRoute` for each kind of segment; `next` is the rest of it.
  unfoldable pub add_fixed :
      (RadixNode H → RadixNode H × Option RouteError)
      → Text
      → RadixNode H
      → RadixNode H × Option RouteError
  add_fixed next seg (radix_node s cs p w rs) =
      let (child, error) = next (child_or_new seg (get_child seg cs)) in
      (radix_node s (set_child seg child cs) p w rs, error)

  unfoldable pub add_param :
      (RadixNode H → RadixNode H × Option RouteError)
      → InternalRoute H
      → (seg name : Text) → RadixNode H
      → RadixNode H × Option RouteError
  add_param next route seg name (radix_node s cs vacant w rs) =
      let (child, error) = next (create_node seg) in
      (radix_node s cs (taken name child) w rs, error)
  add_param next route seg name (radix_node s cs (taken current n) w rs) =
      let (child, error) = next n in
      if current == name
      then (radix_node s cs (taken current child) w rs, error)
      else (radix_node s cs (taken current n) w rs, some (conflict route name current n))

  unfoldable pub add_wildcard :
      InternalRoute H → (seg name : Text) → RadixNode H → RadixNode H × Option RouteError
  add_wildcard route seg name (radix_node s cs p vacant rs) =
      let (child, error) = put_route route (create_node seg) in
      (radix_node s cs p (taken name child) rs, error)
  add_wildcard route seg name (radix_node s cs p (taken current n) rs) =
      let (child, error) = put_route route n in (radix_node s cs p (taken current child) rs, error)

  -- The loop of `addRoute`, from a node down its segments, and its end.
  unfoldable pub add_at :
      InternalRoute H → List Text → RadixNode H → RadixNode H × Option RouteError
  add_at route [] n = put_route route n
  add_at route (seg ∷ segs) n = elim (segment_kind seg) [
    | fixed_segment ↦ add_fixed (add_at route segs) seg n
    | param_segment name ↦ add_param (add_at route segs) route seg name n
    | wildcard_segment name ↦ add_wildcard route seg name n
  ]
