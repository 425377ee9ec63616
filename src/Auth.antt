-- ===== src/Auth.antt =====
-- The authentication of apps/api/middleware/auth.py and tenant.py: the cache of the identity
-- provider's keys, the claims of a token, the user that they name and the row that it is given, the
-- guard of a role, and the middleware that scopes a request to a tenant.
pub mod Keys
pub mod Users
pub mod Sessions
pub mod Claims
pub mod Guard
pub mod Served
mod Examples
use stock_analyst.Shared.{
  ℕ, ◌+◌, Text, codes, List, [], ◌∷◌, ◌++◌, map, Bool, true, false, ◌&&◌, ◌||◌, not, Option, none,
  some, ltb, ◌==◌, any, find_first, filter_by, is_empty, same_text, starts_with, drop,
  if◌then◌else◌,
}
use stock_analyst.Shared.Regex.{is_some}
use stock_analyst.Http.{Reply, answer, problem, crashed, ◌>>=◌}

-- `ROLE_HIERARCHY`
abbrev pub role_hierarchy : List (Text × ℕ)
role_hierarchy =
    (codes "viewer", 0)
    ∷ (codes "analyst", 1)
    ∷ (codes "senior_analyst", 2)
    ∷ (codes "admin", 3)
    ∷ []

pub level_in : Text → List (Text × ℕ) → Option ℕ
level_in name [] = none
level_in name ((key, level) ∷ rest) =
    let later = level_in name rest in if same_text key name then some level else later

-- `ROLE_HIERARCHY.get(role, 0)`
unfoldable pub role_level : Text → ℕ
unfolding level_in
role_level name = elim (level_in name role_hierarchy) [ none ↦ 0 | some level ↦ level ]

-- The claims of a token that the program reads.
pub record TokenPayload : Type 0 where
  pub sub : Option Text
  pub tenant_id : Option Text
  pub roles : List Text
  pub email : Option Text

-- How `jwt.decode` ends: the claims, `ExpiredSignatureError`, or another `JWTError`.
pub data Decoded : Type 0 where
  claims : TokenPayload → Decoded
  expired : Text → Decoded
  invalid : Text → Decoded

pub record CurrentUser : Type 0 where
  pub user_id : ℕ
  pub tenant_id : ℕ
  pub role : Text
  pub email : Text

pub data UserRole : Type 0 where
  viewer analyst senior_analyst admin : UserRole

-- A row of `users`.
pub record User : Type 0 where
  pub id : ℕ
  pub tenant_id : ℕ
  pub email : Text
  pub role : UserRole

-- `UserRoleEnum(role)`, which raises for another text.
unfoldable pub user_role : Text → Option UserRole
user_role name =
    if same_text name (codes "viewer")
    then some viewer
    else if same_text name (codes "analyst")
    then some analyst
    else if same_text name (codes "senior_analyst")
    then some senior_analyst
    else if same_text name (codes "admin")
    then some admin
    else none

-- The first known role of the token, or the lowest.
unfoldable pub role_of : List Text → Text
role_of roles = elim (filter_by (λ r. is_some (level_in r role_hierarchy)) roles) [
  | [] ↦ codes "viewer"
  | role ∷ _ ↦ role
]

-- `raw_tenant_id`, where it is neither missing nor empty.
unfoldable pub tenant_claim : TokenPayload → Option Text
tenant_claim payload = elim payload.tenant_id [
  | none ↦ none
  | some raw ↦ if is_empty raw then none else some raw
]

-- The identity provider and the libraries: the keys that it serves at a time, which a failed call
-- does not give; `jwt.decode` with the issuer and the audience of the settings; `uuid.UUID`.
pub record Provider : Type 1 where
  pub Keys : Type 0
  pub fetch : ℕ → Option Keys
  pub decode : Keys → Text → Decoded
  pub parse_uuid : Text → Option ℕ

abbrev pub jwks_ttl : ℕ
jwks_ttl = 300

module _ (p : Provider) where
  open p use {Keys, fetch, decode, parse_uuid}

  -- `_jwks_cache`: the keys, and the time at which they expire.
  abbrev pub Cache : Type 0
  Cache = Option (Keys × ℕ)

  abbrev pub refreshed : ℕ → Cache → Option Keys → Option Keys × Cache
  refreshed now cache none = (none, cache)
  refreshed now cache (some keys) = (some keys, some (keys, now + jwks_ttl))

  -- `_get_jwks`; the lock makes the calls follow one another.
  unfoldable pub get_jwks : ℕ → Cache → Option Keys × Cache
  get_jwks now none = refreshed now none (fetch now)
  get_jwks now (some (keys, expires_at)) =
      if ltb now expires_at
      then (some keys, some (keys, expires_at))
      else refreshed now (some (keys, expires_at)) (fetch now)

  -- `_decode_token`: nothing where the keys cannot be had.
  unfoldable pub decode_token : ℕ → Text → Cache → Option Decoded × Cache
  decode_token now token cache =
      let r = get_jwks now cache in
      (elim r.0 [ none ↦ none | some keys ↦ some (decode keys token) ], r.1)

  -- `UUID(text)`
  abbrev pub user_uuid : Text → Reply ℕ
  user_uuid t = elim (parse_uuid t) [
    | none ↦ crashed (codes "badly formed hexadecimal UUID string")
    | some n ↦ answer n
  ]

  -- `payload["sub"]`
  abbrev pub subject : TokenPayload → Reply Text
  subject payload = elim payload.sub [ none ↦ crashed (codes "'sub'") | some s ↦ answer s ]

  abbrev pub email_or : Text → Option Text → Text
  email_or default none = default
  email_or default (some email) = if is_empty email then default else email

  -- The user that the claims name, with the text of its tenant.
  unfoldable pub named : (Text → Option Text → Text) → TokenPayload → Text → Reply CurrentUser
  named email_of payload raw = do
    sub ← subject payload
    id ← user_uuid sub
    tenant ← user_uuid raw
    answer (record {
      user_id = id;
      tenant_id = tenant;
      role = role_of payload.roles;
      email = email_of sub payload.email;
    })

  -- Without a tenant the request is refused with this status.
  unfoldable pub user_of : ℕ → (Text → Option Text → Text) → TokenPayload → Reply CurrentUser
  user_of refusal email_of payload = elim (tenant_claim payload) [
    | none ↦ problem refusal (codes "Missing tenant_id claim in token")
    | some raw ↦ named email_of payload raw
  ]

  -- The handlers of the two exceptions of a token.
  unfoldable pub accept_claims :
      ℕ → ℕ → (Text → Option Text → Text) → Option Decoded → Reply CurrentUser
  accept_claims rejection refusal email_of none = crashed (codes "HTTPError")
  accept_claims rejection refusal email_of (some (claims payload)) =
      user_of refusal email_of payload
  accept_claims rejection refusal email_of (some (expired _)) =
      problem rejection (codes "Token has expired")
  accept_claims rejection refusal email_of (some (invalid detail)) =
      problem rejection (codes "Invalid token: " ++ detail)

  -- `payload.get("email") or f"{sub}@keycloak.local"`
  abbrev pub local_email : Text → Option Text → Text
  local_email sub = email_or (sub ++ codes "@keycloak.local")

  -- `payload.get("email", "")`
  abbrev pub plain_email : Text → Option Text → Text
  plain_email sub email = elim email [ none ↦ [] | some e ↦ e ]
