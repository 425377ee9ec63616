-- ===== src/Auth/Guard.antt =====
-- `role_required` behind the middleware of tenant.py: which requests reach a handler, with which
-- user, and to which tenant their session is scoped (`get_db` of apps/api/db.py).
use stock_analyst.Shared.{
  ℕ, Text, codes, List, [], ◌∷◌, ◌++◌, Bool, true, ◌||◌, Option, none, some, ltb, any, drop, length,
  same_text, starts_with, Bool-cases, Option-cases, ◌≡◌, refl, ◌⊎◌, inl, inr, arith, if◌then◌else◌,
}
use stock_analyst.Http.{Reply, answer, problem, crashed, ◌>>=◌, >>=-eq-answer}
use stock_analyst.Auth.{
  Provider, Cache, Decoded, claims, expired, invalid, TokenPayload, CurrentUser, role_level,
  tenant_claim, decode_token, accept_claims, get_jwks,
}
use stock_analyst.Auth.Users.{UserTables, get_current_user}
use stock_analyst.Auth.Claims.{IsNamed, user_of-IsNamed}

-- `role_required(minimum_role)`
unfoldable pub role_required : Text → CurrentUser → Reply CurrentUser
role_required minimum u =
    if ltb (role_level u.role) (role_level minimum)
    then problem 403 (codes "Role '" ++ (minimum ++ codes "' or higher required"))
    else answer u

-- `_SKIP_PREFIXES`
abbrev pub skip_prefixes : List Text
skip_prefixes = codes "/health" ∷ codes "/docs" ∷ codes "/openapi.json" ∷ codes "/redoc" ∷ []

unfoldable pub is_skipped : Text → Bool
is_skipped path =
    any (λ prefix. same_text path prefix || starts_with path (prefix ++ codes "/")) skip_prefixes

pub record Request : Type 0 where
  pub path : Text
  pub authorization : Option Text

abbrev pub header : Option Text → Text
header none = []
header (some h) = h

module _ (p : Provider) where
  -- The claims of the middleware: the tenant that the request is scoped to.
  unfoldable pub scope_of : Option Decoded → Reply Text
  scope_of none = crashed (codes "HTTPError")
  scope_of (some (expired detail)) = problem 401 (codes "Invalid or expired token: " ++ detail)
  scope_of (some (invalid detail)) = problem 401 (codes "Invalid or expired token: " ++ detail)
  scope_of (some (claims payload)) = elim (tenant_claim payload) [
    | none ↦ problem 403 (codes "Missing tenant_id claim in token")
    | some raw ↦ answer raw
  ]

  -- The token of the header, decoded.
  unfoldable pub enter : ℕ → Text → Cache p → Reply (Option Text) × Cache p
  enter now token cache =
      let decoded = decode_token p now token cache in
      (scope_of decoded.0 >>= (λ raw. answer (some raw)), decoded.1)

  -- `TenantMiddleware.dispatch`, up to the next handler: the scope, which a skipped path has not.
  unfoldable pub dispatch : ℕ → Request → Cache p → Reply (Option Text) × Cache p
  dispatch now r cache =
      if is_skipped r.path
      then (answer none, cache)
      else if starts_with (header r.authorization) (codes "Bearer ")
      then enter now (drop (length (codes "Bearer ")) (header r.authorization)) cache
      else (problem 401 (codes "Bearer token is required"), cache)

  -- A request to an endpoint with a minimum role, at the two times at which its token is decoded:
  -- the scope of the session, the user, and the tables. `credentials_of` is the security scheme of
  -- the framework, which takes the credentials from the header.
  unfoldable pub serve :
      (Option Text → Option Text)
      → Text
      → ℕ
      → ℕ
      → Request
      → UserTables
      → Cache p
      → Reply (Option Text × CurrentUser × UserTables)
  serve credentials_of minimum at_entry at_handler r t cache =
      let entry = dispatch at_entry r cache in
      entry.0 >>= λ scope.
      (get_current_user p at_handler (credentials_of r.authorization) t entry.1).0 >>= λ found.
      role_required minimum found.0 >>= λ u. answer (scope, u, found.1)

  -- The decoded claims come of the keys of the cache.
  pub decode_token-keys :
      (now : ℕ) (token : Text) (cache : Cache p) (d : Decoded)
      → (decode_token p now token cache).0 ≡ some d
      → (keys : p.Keys) × ((get_jwks p now cache).0 ≡ some keys) × (p.decode keys token ≡ d)
  unfolding decode_token
  decode_token-keys now token cache d h = elim (Option-cases (get_jwks p now cache).0) [
    | inl failed ↦ absurd (ground (arith, failed))
    | inr (keys, got) ↦ (keys, got, ground (arith, got))
  ]

  pub accept_claims-payload :
      (rejection refusal : ℕ) (email_of : Text → Option Text → Text) (d : Option Decoded)
      (u : CurrentUser)
      → accept_claims p rejection refusal email_of d ≡ answer u
      → (payload : TokenPayload) × (d ≡ some (claims payload)) × IsNamed p payload email_of u
  unfolding accept_claims
  accept_claims-payload rejection refusal email_of none u h = cc
  accept_claims-payload rejection refusal email_of (some (expired detail)) u h = cc
  accept_claims-payload rejection refusal email_of (some (invalid detail)) u h = cc
  accept_claims-payload rejection refusal email_of (some (claims payload)) u h =
      (payload, refl, user_of-IsNamed p refusal email_of payload u h)

  scope_of-payload :
      (d : Option Decoded) (raw : Text)
      → scope_of d ≡ answer raw
      → (payload : TokenPayload) × (d ≡ some (claims payload)) × (tenant_claim payload ≡ some raw)
  unfolding scope_of
  scope_of-payload none raw h = cc
  scope_of-payload (some (expired detail)) raw h = cc
  scope_of-payload (some (invalid detail)) raw h = cc
  scope_of-payload (some (claims payload)) raw h = elim (Option-cases (tenant_claim payload)) [
    | inl missing ↦ absurd (ground (arith, missing))
    | inr (claim, given) ↦ (payload, refl, ground (arith, given))
  ]

  -- The bearer token of a header, and the claims that some keys find in it.
  abbrev pub HasClaims : Text → TokenPayload → Type 0
  HasClaims token payload = (keys : p.Keys) × (p.decode keys token ≡ claims payload)

  abbrev pub IsScoped : Request → Option Text → Type 0
  IsScoped r scope =
      (raw : Text) × (payload : TokenPayload) × (scope ≡ some raw)
      × (starts_with (header r.authorization) (codes "Bearer ") ≡ true)
      × HasClaims (drop (length (codes "Bearer ")) (header r.authorization)) payload
      × (tenant_claim payload ≡ some raw)

  enter-payload :
      (now : ℕ) (token : Text) (cache : Cache p) (scope : Option Text)
      → (enter now token cache).0 ≡ answer scope
      → (raw : Text) × (payload : TokenPayload) × (scope ≡ some raw)
        × HasClaims token payload
        × (tenant_claim payload ≡ some raw)
  unfolding enter
  enter-payload now token cache scope h =
      let (raw, scoped, given) = >>=-eq-answer (scope_of (decode_token p now token cache).0) _ h in
      let (payload, decoded, claim) =
        scope_of-payload (decode_token p now token cache).0 raw scoped in
      let (keys, got, found) = decode_token-keys now token cache (claims payload) decoded in
      (raw, payload, ground arith, (keys, found), claim)

  pub dispatch-IsScoped :
      (now : ℕ) (r : Request) (cache : Cache p) (scope : Option Text)
      → (dispatch now r cache).0 ≡ answer scope
      → (is_skipped r.path ≡ true) ⊎ IsScoped r scope
  unfolding dispatch
  dispatch-IsScoped now r cache scope h = elim (Bool-cases (is_skipped r.path)) [
    | inl skipped ↦ inl skipped
    | inr checked ↦ elim (Bool-cases (starts_with (header r.authorization) (codes "Bearer "))) [
      | inl bearer ↦
          let (raw, payload, scoped, found, claim) =
            enter-payload now (drop (length (codes "Bearer ")) (header r.authorization)) cache scope
              (rw (checked, bearer, dispatch) at h) in
          inr (raw, payload, scoped, bearer, found, claim)
      | inr other ↦ absurd (ground (arith, checked, other))
    ]
  ]
