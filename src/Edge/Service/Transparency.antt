-- ===== src/Edge/Service/Transparency.antt =====
-- packages/edge-router/src/router.ts: the handler with its cache against a router without one.
use celsian.Base.{
  ℕ, ◌≡◌, refl, sym, ap, inl, inr, false, Option, none, some, List, [], ◌∷◌, ◌++◌, map, Text, codes,
  text_eq, nat_beq, leb, ◌&&◌, ◌==◌, length, Bool-cases, Option-cases, All, if◌then◌else◌, arith,
}
use mathlib.Core.List.{tail}
use celsian.Map
use celsian.Map.{Map}
use celsian.Map.Laws.{All-set, All-get, All-delete}
use celsian.Edge.Matching.{RouteEntry, CompiledRoute, RouteMatch, compile_routes, match_route}
use celsian.Edge.RouteCache
use celsian.Edge.RouteCache.{RouteCache, max_cache_size}
use celsian.Edge.Cors.{CorsConfig}
use celsian.Edge.Proxy.{Url, Request, ProxyRequest}
use celsian.Edge.Updates.{UpdateBody, Checked, ok, error, handle_update_routes, error_status}
use celsian.Edge.Service.{
  health, updated, refused, listing, reply, header, or_empty, listed_route, is_preflight, preflight,
  replied, Response, EdgeRouter, create_edge_router, cache_key, cached_match, apply_update, answer,
  match_and_answer, fetch,
}

-- A method is a token of HTTP, in which no colon stands.
abbrev pub HasNoColon : Text → Type 0
HasNoColon = All (λ c. nat_beq c b':' ≡ false)

-- What the cache says of a key is what the matcher says of every request with that key.
abbrev Right : List CompiledRoute → Text × Option RouteMatch → Type 0
Right routes (key, found) =
    (request : Request)
    → HasNoColon request.method
    → cache_key request ≡ key
    → match_route routes request.url.pathname request.method ≡ some found

abbrev Faithful : EdgeRouter → Type 0
Faithful r = All (Right r.routes) r.match_cache.map

cons-inj : {a b : ℕ} {s t : Text} → a ∷ s ≡ b ∷ t → (a ≡ b) × (s ≡ t)
cons-inj e = (cc, cc)

key_parts :
    (m n p q : Text)
    → HasNoColon m
    → HasNoColon n
    → m ++ codes ":" ++ p ≡ n ++ codes ":" ++ q
    → (m ≡ n) × (p ≡ q)
key_parts [] [] p q hm hn e = (refl, ap tail e)
key_parts [] (d ∷ n) p q hm (hd, hn) e = absurd (ground (arith, cons-inj e))
key_parts (c ∷ m) [] p q (hc, hm) hn e = absurd (ground (arith, cons-inj e))
key_parts (c ∷ m) (d ∷ n) p q (hc, hm) (hd, hn) e =
    let (same, rest) = key_parts m n p q hm hn (ap tail e) in (cc ((cons-inj e).0, same), rest)

-- The same handler without a cache, whose state is the table alone.
module _ (parse_url : Text → Option Url) (backend_fetch : ProxyRequest → Option Response)
    (cors : Option CorsConfig) (api_key : Option Text) (parse_body : Text → UpdateBody) where
  abbrev Table : Type 0
  Table = List CompiledRoute

  abbrev plain_update : Checked Table → Table → Table × Option Response
  plain_update (error e) table = (table, some (reply (error_status e) (refused e)))
  plain_update (ok t) table = (t, some (reply 200 (updated (length t))))

  abbrev plain_answer : Request → Option (Option RouteMatch) → Option Response
  plain_answer request none = none
  plain_answer request (some found) =
      answer parse_url backend_fetch cors api_key parse_body request found

  unfoldable pub plain_fetch : Request → Table → Table × Option Response
  plain_fetch request table =
      if request.url.pathname == codes "/__health"
      then (table, some (reply 200 (health (length table))))
      else if request.url.pathname == codes "/__routes" && request.method == codes "POST"
      then plain_update
          (handle_update_routes parse_url (header (codes "authorization") request)
            (parse_body request.body) api_key)
          table
      else if request.url.pathname == codes "/__routes" && request.method == codes "GET"
      then (table, some (reply 200 (listing (map listed_route table))))
      else if is_preflight request cors
      then (table, some (preflight cors (or_empty (header (codes "origin") request))))
      else (table, plain_answer request (match_route table request.url.pathname request.method))

  pub plain_run : List Request → Table → List (Option Response)
  plain_run [] table = []
  plain_run (q ∷ qs) table =
      let (table', response) = plain_fetch q table in response ∷ plain_run qs table'

  pub run : List Request → EdgeRouter → List (Option Response)
  run [] r = []
  run (q ∷ qs) r =
      let (r', response) = fetch parse_url backend_fetch cors api_key parse_body q r in
      response ∷ run qs r'

  -- A step that agrees with one of the table and keeps the cache faithful.
  record Agrees (a : EdgeRouter × Option Response) (b : Table × Option Response) : Type 0 where
    table : a.0.routes ≡ b.0
    response : a.1 ≡ b.1
    faithful : Faithful a.0

  evict-Faithful :
      (table : Table) (m : Map Text (Option RouteMatch)) (ks : List Text)
      → All (Right table) m
      → All (Right table) (RouteCache.evict (record { map = m; keys = ks })).map
  unfolding RouteCache.evict
  evict-Faithful table m [] h = h
  evict-Faithful table m (k ∷ ks) h = All-delete (Right table) k m h

  set-Faithful :
      (table : Table) (k : Text) (found : Option RouteMatch) (c : RouteCache (Option RouteMatch))
      → Right table (k, found)
      → All (Right table) c.map
      → All (Right table) (RouteCache.set k found c).map
  unfolding RouteCache.set RouteCache.make_room
  set-Faithful table k found c right h = elim (Bool-cases (Map.has k c.map)) [
    | inl known ↦ rw known (All-set (Right table) k found c.map right h)
    | inr new ↦ rw new (elim (Bool-cases (leb max_cache_size (length c.keys))) [
      | inl full ↦ rw full (
          All-set (Right table) k found (RouteCache.evict c).map right
            (evict-Faithful table c.map c.keys h))
      | inr free ↦ rw free (All-set (Right table) k found c.map right h)
    ])
  ]

  Right-key :
      (table : Table) (q : Request) (found : Option RouteMatch)
      → HasNoColon q.method
      → match_route table q.url.pathname q.method ≡ some found
      → Right table (cache_key q, found)
  Right-key table q found hq e other ho same =
      let (methods, paths) =
        key_parts other.method q.method other.url.pathname q.url.pathname ho hq same in
      rw (methods, paths) e

  -- What `cached_match` gives, by the cache and then by the matcher.
  CachedMatch : Request → EdgeRouter → Option (EdgeRouter × Option RouteMatch) → Type 0
  CachedMatch q r none = match_route r.routes q.url.pathname q.method ≡ none
  CachedMatch q r (some (r', found)) =
      (match_route r.routes q.url.pathname q.method ≡ some found)
      × (r'.routes ≡ r.routes)
      × Faithful r'

  cached_match_lem :
      (q : Request) (r : EdgeRouter)
      → HasNoColon q.method
      → Faithful r
      → CachedMatch q r (cached_match q r)
  unfolding CachedMatch cached_match
  cached_match_lem q r hq h = elim (Option-cases (RouteCache.get (cache_key q) r.match_cache)) [
    | inr (found, hit) ↦
        rw (hit, cached_match)
          (
            All-get (Right r.routes) (cache_key q) found r.match_cache.map
                (unfold RouteCache.get in hit) h q hq refl,
            refl,
            h,
          )
    | inl miss ↦ elim (Option-cases (match_route r.routes q.url.pathname q.method)) [
      | inl thrown ↦ rw (miss, thrown, cached_match) thrown
      | inr (found, matched) ↦
          rw (miss, matched, cached_match)
            (
              matched,
              refl,
              set-Faithful r.routes (cache_key q) found r.match_cache
                  (Right-key r.routes q found hq matched) h,
            )
    ]
  ]

  answered :
      (q : Request) (r : EdgeRouter) (m : Option (EdgeRouter × Option RouteMatch))
      → CachedMatch q r m
      → Faithful r
      → Agrees
          (elim m [
            | none ↦ (r, none)
            | some (r', found) ↦
                (r', answer parse_url backend_fetch cors api_key parse_body q found)
          ])
          (r.routes, plain_answer q (match_route r.routes q.url.pathname q.method))
  unfolding CachedMatch
  answered q r none thrown h = rw thrown (record { table = refl; response = refl; faithful = h })
  answered q r (some (r', found)) (matched, same, h') h =
      rw matched (record { table = same; response = refl; faithful = h' })

  match_and_answer-Agrees :
      (q : Request) (r : EdgeRouter)
      → HasNoColon q.method
      → Faithful r
      → Agrees
          (match_and_answer parse_url backend_fetch cors api_key parse_body q r)
          (r.routes, plain_answer q (match_route r.routes q.url.pathname q.method))
  unfolding match_and_answer
  match_and_answer-Agrees q r hq h = answered q r (cached_match q r) (cached_match_lem q r hq h) h

  update-Agrees :
      (u : Checked Table) (r : EdgeRouter)
      → Faithful r
      → Agrees (replied (apply_update u r)) (plain_update u r.routes)
  unfolding apply_update RouteCache.clear
  update-Agrees (error e) r h = record { table = refl; response = refl; faithful = h }
  update-Agrees (ok t) r h = record { table = refl; response = refl; faithful = tt }

  fetch-Agrees :
      (q : Request) (r : EdgeRouter)
      → HasNoColon q.method
      → Faithful r
      → Agrees (fetch parse_url backend_fetch cors api_key parse_body q r) (plain_fetch q r.routes)
  unfolding fetch plain_fetch
  fetch-Agrees q r hq h = elim (Bool-cases (q.url.pathname == codes "/__health")) [
    | inl yes_health ↦ rw yes_health (record { table = refl; response = refl; faithful = h })
    | inr a ↦
        rw a (elim (Bool-cases (q.url.pathname == codes "/__routes" && q.method == codes "POST")) [
          | inl post ↦ rw post (update-Agrees _ r h)
          | inr b ↦
              rw b
                (elim (Bool-cases
                  (q.url.pathname == codes "/__routes" && q.method == codes "GET")) [
                    | inl list ↦ rw list (record { table = refl; response = refl; faithful = h })
                    | inr c ↦ rw c (elim (Bool-cases (is_preflight q cors)) [
                      | inl options ↦
                          rw options (record { table = refl; response = refl; faithful = h })
                      | inr d ↦ rw d (match_and_answer-Agrees q r hq h)
                    ])
                  ])
        ])
  ]

  run_lem :
      (qs : List Request) (r : EdgeRouter)
      → All (λ q. HasNoColon q.method) qs
      → Faithful r
      → run qs r ≡ plain_run qs r.routes
  unfolding run plain_run
  run_lem [] r hs h = refl
  run_lem (q ∷ qs) r (hq, hs) h =
      let step = fetch-Agrees q r hq h in
      rw (step.response, sym step.table)
        (ap (λ x. (plain_fetch q r.routes).1 ∷ x)
          (run_lem qs (fetch parse_url backend_fetch cors api_key parse_body q r).0 hs
            step.faithful))

  -- The cache is not seen: for every list of requests, with updates of the table among them, the
  -- router answers as one that matches each request against the table of the moment.
  pub run-eq-plain_run :
      (entries : List RouteEntry) (qs : List Request)
      → All (λ q. HasNoColon q.method) qs
      → run qs (create_edge_router entries) ≡ plain_run qs (compile_routes entries)
  unfolding create_edge_router
  run-eq-plain_run entries qs hs = run_lem qs (create_edge_router entries) hs tt
