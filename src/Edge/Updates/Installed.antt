-- ===== src/Edge/Updates/Installed.antt =====
-- packages/edge-router/src/update-routes.ts: what an update can put into the table.
use celsian.Base.{
  ◌≡◌, refl, inl, inr, true, false, ◌||◌, ltb, length, Option, none, some, List, [], ◌∷◌, Text,
  Bool-cases, All,
}
use celsian.Map.{Map}
use celsian.Edge.Matching.{RouteEntry, CompiledRoute, compile_route, compile_routes}
use celsian.Edge.Proxy.{Url, is_internal_url}
use celsian.Edge.Updates.{
  Field, falsy, text, other, MethodsField, listed, RawRoute, null, object, UpdateBody, malformed,
  no_routes, routes, Checked, ok, error, ◌>>=◌, is_rooted, is_http, is_valid_method, check_pattern,
  check_methods, check_origin, check_url, validate_route_entry, check_route, check_routes,
  check_body, is_missing, methods_missing, check_methods_field, UpdateError, is_authorized,
  handle_update_routes,
}

-- What a check that succeeds ensures of its result.
abbrev Ensures : {A : Type 0} → (A → Type 0) → Checked A → Type 0
Ensures P (ok a) = P a
Ensures P (error e) = Unit

error-ne-ok : {A : Type 0} {e : UpdateError} {a : A} → ◌≡◌ {A = Checked A} (error e) (ok a) → ⊥
error-ne-ok h = cc

module _ {A B : Type 0} (P : A → Type 0) (Q : B → Type 0) where
  Ensures-bind :
      (m : Checked A) (f : A → Checked B)
      → Ensures P m
      → ((a : A) → P a → Ensures Q (f a))
      → Ensures Q (m >>= f)
  Ensures-bind (ok a) f h k = k a h
  Ensures-bind (error e) f h k = tt

ensured : {A : Type 0} (P : A → Type 0) (m : Checked A) (a : A) → Ensures P m → m ≡ ok a → P a
ensured P m a h e = rw e at h

module _ (parse_url : Text → Option Url) where
  -- An origin outside, over http.
  abbrev IsOutside : Text → Type 0
  IsOutside origin =
      (url : Url) × (parse_url origin ≡ some url)
      × (is_http url.protocol ≡ true)
      × (is_internal_url url ≡ false)

  abbrev AreMethods : List Text → Type 0
  AreMethods = All (λ m. is_valid_method m ≡ true)

  pub record IsSafe (entry : RouteEntry) : Type 0 where
    pub rooted : is_rooted entry.pattern ≡ true
    pub methods_known : AreMethods entry.methods
    pub outside : IsOutside entry.origin

  check_pattern_lem : (f : Field) → Ensures (λ p. is_rooted p ≡ true) (check_pattern f)
  unfolding check_pattern
  check_pattern_lem falsy = tt
  check_pattern_lem other = tt
  check_pattern_lem (text q) = elim (Bool-cases (is_rooted q)) [
    | inr bare ↦ rw bare tt
    | inl rooted ↦ rw rooted (elim (Bool-cases (ltb 500 (length q))) [
      | inl long ↦ rw long tt
      | inr short ↦ rw short rooted
    ])
  ]

  check_methods_lem : (fs : List Field) → Ensures AreMethods (check_methods fs)
  unfolding check_methods
  check_methods_lem [] = tt
  check_methods_lem (falsy ∷ fs) = tt
  check_methods_lem (other ∷ fs) = tt
  check_methods_lem (text m ∷ fs) = elim (Bool-cases (is_valid_method m)) [
    | inr unknown ↦ rw unknown tt
    | inl known ↦ rw known (
        Ensures-bind AreMethods AreMethods (check_methods fs) _ (check_methods_lem fs)
          (λ ms h. (known, h)))
  ]

  check_methods_field_lem : (f : MethodsField) → Ensures AreMethods (check_methods_field f)
  check_methods_field_lem falsy = tt
  check_methods_field_lem other = tt
  check_methods_field_lem (listed fs) = check_methods_lem fs

  check_url_lem :
      (o : Text) (url : Option Url) → parse_url o ≡ url → Ensures IsOutside (check_url o url)
  check_url_lem o none found = tt
  check_url_lem o (some url) found = elim (Bool-cases (is_http url.protocol)) [
    | inr scheme ↦ rw scheme tt
    | inl http ↦ rw http (elim (Bool-cases (is_internal_url url)) [
      | inl inside ↦ rw inside tt
      | inr outside ↦ rw outside (url, found, http, outside)
    ])
  ]

  check_origin_lem : (f : Field) → Ensures IsOutside (check_origin parse_url f)
  unfolding check_origin
  check_origin_lem falsy = tt
  check_origin_lem other = tt
  check_origin_lem (text o) = check_url_lem o (parse_url o) refl

  validate_route_entry_lem :
      (p : Field) (ms : MethodsField) (o : Field) (rewrite : Option Text)
      (headers : Option (Map Text Text))
      → Ensures IsSafe (validate_route_entry parse_url p ms o rewrite headers)
  unfolding validate_route_entry
  validate_route_entry_lem p ms o rewrite headers =
      Ensures-bind (λ q. is_rooted q ≡ true) IsSafe (check_pattern p) _ (check_pattern_lem p)
        λ q rooted.
          Ensures-bind AreMethods IsSafe (check_methods_field ms) _ (check_methods_field_lem ms)
            λ known methods_known.
              Ensures-bind IsOutside IsSafe (check_origin parse_url o) _ (check_origin_lem o)
                λ origin outside. record {
                  rooted = rooted;
                  methods_known = methods_known;
                  outside = outside;
                }

  check_route_lem : (r : RawRoute) → Ensures IsSafe (check_route parse_url r)
  unfolding check_route
  check_route_lem null = tt
  check_route_lem (object p ms o rewrite headers) =
      elim (Bool-cases (is_missing p || methods_missing ms || is_missing o)) [
        | inl missing ↦ rw missing tt
        | inr there ↦ rw there (validate_route_entry_lem p ms o rewrite headers)
      ]

  check_routes_lem : (rs : List RawRoute) → Ensures (All IsSafe) (check_routes parse_url rs)
  unfolding check_routes
  check_routes_lem [] = tt
  check_routes_lem (r ∷ rs) =
      Ensures-bind IsSafe (All IsSafe) (check_route parse_url r) _ (check_route_lem r) λ entry safe.
        Ensures-bind (All IsSafe) (All IsSafe) (check_routes parse_url rs) _ (check_routes_lem rs)
          λ es others. (safe, others)

  check_body_lem : (body : UpdateBody) → Ensures (All IsSafe) (check_body parse_url body)
  unfolding check_body
  check_body_lem malformed = tt
  check_body_lem no_routes = tt
  check_body_lem (routes rs) = check_routes_lem rs

  abbrev AreSafe : List CompiledRoute → Type 0
  AreSafe = All (λ r. IsSafe r.entry)

  compile_routes_lem : (es : List RouteEntry) → All IsSafe es → AreSafe (compile_routes es)
  unfolding compile_route
  compile_routes_lem [] h = tt
  compile_routes_lem (e ∷ es) (h, hs) = (h, compile_routes_lem es hs)

  abbrev Authorized : Option Text → Option Text → List CompiledRoute → Type 0
  Authorized key auth table = (is_authorized key auth ≡ true) × AreSafe table

  -- An update changes the table only if it is authorized, and every route that it puts there begins
  -- with a slash, has only known methods, and has an origin over http or https that is not internal.
  pub handle_update_routes-IsSafe :
      (auth : Option Text) (body : UpdateBody) (key : Option Text) (table : List CompiledRoute)
      → handle_update_routes parse_url auth body key ≡ ok table
      → (is_authorized key auth ≡ true) × AreSafe table
  unfolding handle_update_routes
  handle_update_routes-IsSafe auth body key table h = elim (Bool-cases (is_authorized key auth)) [
    | inr refused ↦ absurd (error-ne-ok (rw refused at h))
    | inl allowed ↦ (
      allowed,
      ensured AreSafe (check_body parse_url body >>= λ entries. ok (compile_routes entries)) table
          (Ensures-bind (All IsSafe) AreSafe (check_body parse_url body) _ (check_body_lem body)
            compile_routes_lem)
          (rw allowed at h),
    )
  ]
