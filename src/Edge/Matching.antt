-- ===== src/Edge/Matching.antt =====
-- packages/edge-router/src/match.ts. The regular expression that `compileRoute` builds is the list of
-- its pieces, which the language matches from the left, a group taking as much as it can.
pub mod Captures
pub mod Patterns
pub mod Routes
use celsian.Base.{
  ℕ, Bool, true, false, not, ◌&&◌, ◌||◌, Option, none, some, List, [], ◌∷◌, ◌++◌, map, Text, codes,
  text_eq, ◌==◌, nat_beq, any, if◌then◌else◌,
}
use celsian.Map
use celsian.Map.{Map}
use celsian.Words.{upper_case}
use celsian.Router.Paths.{decode_uri_component}

pub record RouteEntry : Type 0 where
  pub pattern : Text
  pub methods : List Text
  pub origin : Text
  pub rewrite : Option Text
  pub headers : Option (Map Text Text)

pub data RouteToken : Type 0 where
  literal : Text → RouteToken
  param : Text → RouteToken
  wildcard : RouteToken

-- What stands in the regular expression: an escaped character, `([^/]+)` or `(.*)`.
pub data Piece : Type 0 where
  unit : ℕ → Piece
  segment : Piece
  rest : Piece

pub record CompiledRoute : Type 0 where
  pub entry : RouteEntry
  pub regex : List Piece
  pub param_names : List Text
  pub methods : List Text

abbrev pub push_literal : Text → List RouteToken → List RouteToken
push_literal [] ts = ts
push_literal (c ∷ s) ts = literal (c ∷ s) ∷ ts

-- Whether `:` begins a parameter: `[^/]+` wants one character at least.
abbrev pub names_param : Text → Bool
names_param [] = false
names_param (c ∷ s) = not (nat_beq c b'/')

-- The loop of `tokenRegex.exec`, in the literal read so far or in the name of a parameter.
unfoldable pub tokens_from : (in_name : Bool) → Text → Text → List RouteToken
tokens_from true cur [] = param cur ∷ []
tokens_from false cur [] = push_literal cur []
tokens_from true cur (c ∷ s) =
    let closed = param cur ∷ tokens_from false (c ∷ []) s in
    let longer = tokens_from true (cur ++ c ∷ []) s in if nat_beq c b'/' then closed else longer
tokens_from false cur (c ∷ s) =
    let named = push_literal cur (tokens_from true [] s) in
    let starred = push_literal cur (wildcard ∷ tokens_from false [] s) in
    let longer = tokens_from false (cur ++ c ∷ []) s in
    if nat_beq c b':' && names_param s then named else if nat_beq c b'*' then starred else longer

unfoldable pub tokenize : Text → List RouteToken
unfolding tokens_from
tokenize pattern = tokens_from false [] pattern

unfoldable pub pieces : List RouteToken → List Piece
pieces [] = []
pieces (literal s ∷ ts) = map unit s ++ pieces ts
pieces (param name ∷ ts) = segment ∷ pieces ts
pieces (wildcard ∷ ts) = rest ∷ pieces ts

unfoldable pub names : List RouteToken → List Text
names [] = []
names (literal s ∷ ts) = names ts
names (param name ∷ ts) = name ∷ names ts
names (wildcard ∷ ts) = names ts

unfoldable pub compile_route : RouteEntry → CompiledRoute
compile_route entry = record {
  entry = entry;
  regex = pieces (tokenize entry.pattern);
  param_names = names (tokenize entry.pattern);
  methods = map upper_case entry.methods;
}

abbrev pub compile_routes : List RouteEntry → List CompiledRoute
compile_routes = map compile_route

abbrev pub in_segment : ℕ → Bool
in_segment c = not (nat_beq c b'/')

-- `.` is any character but a line terminator.
abbrev pub in_rest : ℕ → Bool
in_rest c = not (nat_beq c 10 || nat_beq c 13 || nat_beq c 0x2028 || nat_beq c 0x2029)

abbrev pub some_first : Text → Option (List Text) → Option (List Text)
some_first g none = none
some_first g (some gs) = some (g ∷ gs)

abbrev pub or_shorter : Option (List Text) → Option (List Text) → Option (List Text)
or_shorter none r = r
or_shorter (some gs) r = some gs

-- A group that has read `cur`: the longest way to go on, or else the way from here, where the
-- group may end.
unfoldable pub group :
    (allowed : ℕ → Bool) (next : Text → Option (List Text)) (may_end : Bool)
    → Text
    → Text
    → Option (List Text)
group allowed next may_end cur [] = if may_end then some_first cur (next []) else none
group allowed next may_end cur (c ∷ s) =
    let longer = group allowed next true (cur ++ c ∷ []) s in
    let here = if may_end then some_first cur (next (c ∷ s)) else none in
    if allowed c then or_shorter longer here else here

-- `pathname.match(regex)`, with the texts of the groups.
unfoldable pub match_pieces : List Piece → Text → Option (List Text)
match_pieces [] [] = some []
match_pieces [] (c ∷ s) = none
match_pieces (unit k ∷ ps) [] = none
match_pieces (unit k ∷ ps) (c ∷ s) =
    let next = match_pieces ps s in if nat_beq k c then next else none
match_pieces (segment ∷ ps) s = group in_segment (match_pieces ps) false [] s
match_pieces (rest ∷ ps) s = group in_rest (match_pieces ps) true [] s

pub record RouteMatch : Type 0 where
  pub route : CompiledRoute
  pub params : Map Text Text

-- The loop over `paramNames`: the i-th name has the i-th group. `none` is the error that
-- `decodeURIComponent` throws.
unfoldable pub decode_params : List Text → List Text → Map Text Text → Option (Map Text Text)
decode_params [] groups params = some params
decode_params (name ∷ ns) [] params = decode_params ns [] (Map.set name (codes "undefined") params)
decode_params (name ∷ ns) (g ∷ gs) params = elim (decode_uri_component g) [
  | none ↦ none
  | some value ↦ decode_params ns gs (Map.set name value params)
]

abbrev pub takes_method : CompiledRoute → Text → Bool
takes_method route method =
    any (λ m. m == method) route.methods || any (λ m. m == codes "*") route.methods

-- `matchRoute`: `none` is a throw, and `some none` is null.
unfoldable pub match_upper : List CompiledRoute → Text → Text → Option (Option RouteMatch)
match_upper [] pathname method = some none
match_upper (route ∷ routes) pathname method =
    let others = match_upper routes pathname method in
    if takes_method route method
    then elim (match_pieces route.regex pathname) [
      | none ↦ others
      | some groups ↦ elim (decode_params route.param_names groups []) [
        | none ↦ none
        | some params ↦ some (some (record { route = route; params = params }))
      ]
    ]
    else others

unfoldable pub match_route : List CompiledRoute → Text → Text → Option (Option RouteMatch)
match_route routes pathname method = match_upper routes pathname (upper_case method)

abbrev param_or_empty : Text → Map Text Text → Text
param_or_empty name params = elim (Map.get name params) [ none ↦ [] | some v ↦ v ]

-- `rewrite.replace(/:([^/]+)/g, ...)`
unfoldable pub rewrite_from : (in_name : Bool) → Text → Text → Map Text Text → Text
rewrite_from true cur [] params = param_or_empty cur params
rewrite_from false cur [] params = []
rewrite_from true cur (c ∷ s) params =
    let closed = param_or_empty cur params ++ c ∷ rewrite_from false [] s params in
    let longer = rewrite_from true (cur ++ c ∷ []) s params in
    if nat_beq c b'/' then closed else longer
rewrite_from false cur (c ∷ s) params =
    let named = rewrite_from true [] s params in
    let plain = c ∷ rewrite_from false [] s params in
    if nat_beq c b':' && names_param s then named else plain

unfoldable pub apply_rewrite : Text → Map Text Text → Text
unfolding rewrite_from
apply_rewrite rewrite params = rewrite_from false [] rewrite params
