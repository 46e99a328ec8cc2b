-- ===== src/Edge/Cors/Credentials.antt =====
-- packages/edge-router/src/cors.ts: to whom a response with credentials is shown.
use celsian.Base.{
  ◌≡◌, refl, inl, inr, Bool, true, false, not, ◌&&◌, Option, none, some, List, [], ◌∷◌, Text, codes,
  text_eq, text_beq, Bool-cases, if◌then◌else◌,
}
use celsian.Map
use celsian.Map.{Map}
use celsian.Edge.Cors.{
  CorsConfig, is_origin_allowed, is_wildcard, allow_origin, allow_credentials, vary, exposed,
  cors_headers,
}

-- The headers but for the list of exposed ones, by the two tests of the code.
abbrev told : Bool → Bool → Text → Map Text Text
told wild credentials origin =
    let named = Map.set allow_origin (if wild then codes "*" else origin) [] in
    let trusted =
      if credentials && not wild then Map.set allow_credentials (codes "true") named else named in
    if not wild then Map.set vary (codes "Origin") trusted else trusted

abbrev Specific : Bool → Bool → Text → Map Text Text → Type 0
Specific wild credentials origin h =
    (Map.has allow_credentials h ≡ true)
    → (wild ≡ false)
      × (credentials ≡ true)
      × (Map.get allow_origin h ≡ some origin)
      × (Map.get vary h ≡ some (codes "Origin"))

told-Specific :
    (wild credentials : Bool) (origin : Text) (expose : Option (List Text))
    → Specific wild credentials origin (exposed expose (told wild credentials origin))
unfolding exposed Map.set Map.has Map.get text_beq
told-Specific true true origin none h = cc
told-Specific true true origin (some []) h = cc
told-Specific true true origin (some (n ∷ ns)) h = cc
told-Specific true false origin none h = cc
told-Specific true false origin (some []) h = cc
told-Specific true false origin (some (n ∷ ns)) h = cc
told-Specific false true origin none h = (refl, refl, refl, refl)
told-Specific false true origin (some []) h = (refl, refl, refl, refl)
told-Specific false true origin (some (n ∷ ns)) h = (refl, refl, refl, refl)
told-Specific false false origin none h = cc
told-Specific false false origin (some []) h = cc
told-Specific false false origin (some (n ∷ ns)) h = cc

-- If the CORS headers for an origin allow credentials, then the configuration asks for that and is
-- not the wildcard, the origin is one that it allows, the response names this very origin and
-- nothing wider, and it varies by it.
pub cors_headers-credentials :
    (origin : Text) (config : CorsConfig)
    → Map.has allow_credentials (cors_headers origin config) ≡ true
    → (is_wildcard config.origin ≡ false)
      × (config.credentials ≡ true)
      × (is_origin_allowed origin config ≡ true)
      × (Map.get allow_origin (cors_headers origin config) ≡ some origin)
      × (Map.get vary (cors_headers origin config) ≡ some (codes "Origin"))
unfolding cors_headers
cors_headers-credentials origin config h = elim (Bool-cases (is_origin_allowed origin config)) [
  | inr refused ↦ unfold Map.has in cc (rw refused at h)
  | inl allowed ↦ rw allowed (
      let (a, b, c, d) =
        told-Specific (is_wildcard config.origin) config.credentials origin config.expose_headers
          (rw allowed at h) in
      (a, b, refl, c, d))
]
