-- ===== src/Auth/Examples.antt =====
-- A small provider: the claims of a token are those of one analyst, and keys are served at any time.
use stock_analyst.Shared.{
  ℕ, ◌+◌, ◌≤◌, ◌<◌, Text, codes, [], ◌∷◌, Option, none, some, drop, ◌≡◌, refl, arith,
}
use stock_analyst.Http.{answer, problem}
use stock_analyst.Auth.{
  Provider, TokenPayload, CurrentUser, UserRole, analyst, viewer, claims, level_in, role_level,
  role_of, tenant_claim, get_jwks, decode_token, accept_claims, user_of, named, user_role,
}
use stock_analyst.Auth.Keys.{start, next, jwks_fresh}
use stock_analyst.Auth.Users.{UserTables, Updates, upsert_user, provision, get_current_user}
use stock_analyst.Auth.Sessions.{AreDistinct, get_current_user-Refines}
use stock_analyst.Auth.Guard.{
  Request, header, is_skipped, role_required, scope_of, enter, dispatch, serve,
}
use stock_analyst.Auth.Served.{IsDocumented, IsAdmitted, serve-IsAdmitted}

abbrev analyst_claims : TokenPayload
analyst_claims = record {
  sub = some (codes "u");
  tenant_id = some (codes "t");
  roles = codes "offline_access" ∷ codes "analyst" ∷ [];
  email = some (codes "a@b");
}

abbrev first_code : Text → Option ℕ
first_code [] = none
first_code (c ∷ _) = some c

abbrev provider : Provider
provider = record {
  Keys = ℕ;
  fetch = λ t. some t;
  decode = λ k t. claims analyst_claims;
  parse_uuid = first_code;
}

-- A user of another role and another address before.
abbrev tables : UserTables
tables = record {
  tenants = b't' ∷ [];
  users =
      record { id = b'x'; tenant_id = b't'; email = codes "c@d"; role = viewer }
      ∷ record { id = b'u'; tenant_id = b't'; email = codes "old"; role = viewer }
      ∷ [];
}

abbrev after : UserTables
after = record {
  tenants = b't' ∷ [];
  users =
      record { id = b'x'; tenant_id = b't'; email = codes "c@d"; role = viewer }
      ∷ record { id = b'u'; tenant_id = b't'; email = codes "a@b"; role = analyst }
      ∷ [];
}

abbrev known : CurrentUser
known = record { user_id = b'u'; tenant_id = b't'; role = codes "analyst"; email = codes "a@b" }

signed_in : (get_current_user provider 5 (some (codes "jwt")) tables none).0 ≡ answer (known, after)
unfolding get_current_user decode_token get_jwks accept_claims user_of named tenant_claim role_of
    level_in provision upsert_user user_role
signed_in = refl

jwks_fresh_example : (s : ℕ) × (some s ≡ some 5) × (s ≤ 10) × (10 < s + 300)
unfolding get_jwks
jwks_fresh_example =
    jwks_fresh provider {t = 5} {c = some (5, 305)} 10 5 (next (start 0) (omega arith))
      (omega arith) refl

get_current_user-Refines_example :
    ((role : UserRole) × (user_role known.role ≡ some role) × Updates known role tables after)
    × (AreDistinct tables.users → AreDistinct after.users)
get_current_user-Refines_example =
    get_current_user-Refines provider 5 (some (codes "jwt")) tables none known after signed_in

-- The security scheme of the example: any header that begins like a bearer's.
abbrev credentials_of : Option Text → Option Text
credentials_of h = some (drop 7 (header h))

documented : IsDocumented provider credentials_of
documented = record {
  reads = λ h token bearer given. ground arith;
  same_claims = λ k k' token a b e e'. ground arith;
}

abbrev some_request : Request
some_request = record { path = codes "/coverages"; authorization = some (codes "Bearer jwt") }

served :
    serve provider credentials_of (codes "analyst") 4 5 some_request tables none
    ≡ answer (some (codes "t"), known, after)
unfolding serve dispatch enter scope_of is_skipped get_current_user decode_token get_jwks
    accept_claims user_of named tenant_claim role_of level_in provision upsert_user user_role
    role_required role_level
served = refl

serve-IsAdmitted_example :
    IsAdmitted provider credentials_of (codes "analyst") some_request (some (codes "t")) known
serve-IsAdmitted_example =
    serve-IsAdmitted provider credentials_of documented (codes "analyst") 4 5 some_request tables
      none (some (codes "t")) known after served

-- An analyst does not pass where an administrator is asked for.
refused_admin :
    role_required (codes "admin") known ≡ problem 403 (codes "Role 'admin' or higher required")
unfolding role_required role_level level_in
refused_admin = refl
