-- ===== src/Auth/Served.antt =====
-- Which requests reach a handler behind `role_required`, and whose data their session may see.
use stock_analyst.Shared.{
  ℕ, ◌≤◌, Text, codes, true, Option, some, ltb, drop, length, starts_with, Bool-cases, ◌≡◌, refl,
  sym, ap, ◌∙◌, subst, ◌⊎◌, inl, inr, arith,
}
use stock_analyst.Http.{answer, >>=-eq-answer}
use stock_analyst.Auth.{
  Provider, Cache, claims, TokenPayload, CurrentUser, role_level, role_of, decode_token,
  accept_claims, local_email, plain_email,
}
use stock_analyst.Auth.Users.{UserTables, get_current_user, get_current_user_ws}
use stock_analyst.Auth.Sessions.{get_current_user-accepts}
use stock_analyst.Auth.Claims.{IsNamed, user_of-other}
use stock_analyst.Auth.Guard.{
  role_required, is_skipped, Request, header, dispatch, serve, HasClaims, IsScoped,
  dispatch-IsScoped, accept_claims-payload, decode_token-keys,
}

-- The guard passes its user on.
role_required-passes :
    (minimum : Text) (v u : CurrentUser)
    → role_required minimum v ≡ answer u
    → (v ≡ u) × (role_level minimum ≤ role_level u.role)
unfolding role_required
role_required-passes minimum v u h =
    elim (Bool-cases (ltb (role_level v.role) (role_level minimum))) [
      | inl low ↦ absurd (ground (arith, low))
      | inr enough ↦
          let e : v ≡ u = ground (arith, enough) in
          (
            e,
            subst (λ (w : CurrentUser). role_level minimum ≤ role_level w.role) e
                (ground (arith, enough)),
          )
    ]

module _ (p : Provider) where
  -- What the framework and the tokens are relied on for: the credentials of a bearer header are the
  -- text behind the scheme, and the claims of a token do not depend on the keys that verify it.
  pub record IsDocumented (credentials_of : Option Text → Option Text) : Type 0 where
    pub reads :
        (h : Option Text) (token : Text)
        → starts_with (header h) (codes "Bearer ") ≡ true
        → credentials_of h ≡ some token
        → token ≡ drop (length (codes "Bearer ")) (header h)
    pub same_claims :
        (k k' : p.Keys) (token : Text) (a b : TokenPayload)
        → p.decode k token ≡ claims a
        → p.decode k' token ≡ claims b
        → a ≡ b

  -- The token that a request was let in by.
  pub record IsAdmitted (credentials_of : Option Text → Option Text) (minimum : Text) (r : Request)
      (scope : Option Text) (u : CurrentUser) : Type 0 where
    pub token : Text
    pub payload : TokenPayload
    pub presented : credentials_of r.authorization ≡ some token
    pub verified : HasClaims p token payload
    pub named : IsNamed p payload (local_email p) u
    pub senior : role_level minimum ≤ role_level (role_of payload.roles)
    pub scoped :
        (is_skipped r.path ≡ true)
        ⊎ ((raw : Text) × (scope ≡ some raw) × (p.parse_uuid raw ≡ some u.tenant_id))

  -- The claims that the session is scoped by are those that name the user.
  scope-matches :
      (credentials_of : Option Text → Option Text)
      → IsDocumented credentials_of
      → (r : Request) (scope : Option Text) (u : CurrentUser) (token : Text)
        (payload : TokenPayload)
      → credentials_of r.authorization ≡ some token
      → HasClaims p token payload
      → IsNamed p payload (local_email p) u
      → (is_skipped r.path ≡ true) ⊎ IsScoped p r scope
      → (is_skipped r.path ≡ true)
        ⊎ ((raw : Text) × (scope ≡ some raw) × (p.parse_uuid raw ≡ some u.tenant_id))
  scope-matches credentials_of d r scope u token payload presented found n (inl skipped) =
      inl skipped
  scope-matches credentials_of d r scope u token payload presented found n (inr s) =
      let (raw, entered, scoped, bearer, seen, claim) = s in
      let (k, decoded) = found in
      let (k', decoded') = seen in
      let same_token = d.reads r.authorization token bearer presented in
      let same =
        d.same_claims k k' token payload entered decoded (ap (p.decode k') same_token ∙ decoded') in
      inr (raw, scoped, ap p.parse_uuid (ground (arith, n.has_tenant)) ∙ n.same_tenant)

  admitted :
      (credentials_of : Option Text → Option Text)
      → IsDocumented credentials_of
      → (minimum : Text) (r : Request) (scope : Option Text) (u : CurrentUser) (token : Text)
        (payload : TokenPayload)
      → credentials_of r.authorization ≡ some token
      → HasClaims p token payload
      → IsNamed p payload (local_email p) u
      → role_level minimum ≤ role_level u.role
      → (is_skipped r.path ≡ true) ⊎ IsScoped p r scope
      → IsAdmitted credentials_of minimum r scope u
  admitted credentials_of d minimum r scope u token payload presented found n senior at_gate =
      record {
        token = token;
        payload = payload;
        presented = presented;
        verified = found;
        named = n;
        senior = subst (λ (t : Text). role_level minimum ≤ role_level t) n.same_role senior;
        scoped = scope-matches credentials_of d r scope u token payload presented found n at_gate;
      }

  -- A request that an endpoint with a minimum role serves presented a token that keys of the
  -- provider verify; its claims name the user, the tenant and a role of at least the minimum's
  -- level; and unless its path is skipped, its session is scoped to the tenant of that user.
  pub serve-IsAdmitted :
      (credentials_of : Option Text → Option Text)
      → IsDocumented credentials_of
      → (minimum : Text) (at_entry at_handler : ℕ) (r : Request) (t : UserTables) (cache : Cache p)
        (scope : Option Text) (u : CurrentUser) (t' : UserTables)
      → serve p credentials_of minimum at_entry at_handler r t cache ≡ answer (scope, u, t')
      → IsAdmitted credentials_of minimum r scope u
  unfolding serve
  serve-IsAdmitted credentials_of d minimum at_entry at_handler r t cache scope u t' h =
      let (scope', at_gate, h₁) = >>=-eq-answer (dispatch p at_entry r cache).0 _ h in
      let (found, signed_in, h₂) =
        >>=-eq-answer
          (get_current_user p at_handler (credentials_of r.authorization) t
            (dispatch p at_entry r cache).1).0
          _ h₁ in
      let (u', guarded, last) = >>=-eq-answer (role_required minimum found.0) _ h₂ in
      let (same, senior) = role_required-passes minimum found.0 u' guarded in
      let is_user : u' ≡ u = ground (arith, last) in
      let is_scope : scope' ≡ scope = ground (arith, last) in
      let (token, presented, accepted, _) =
        get_current_user-accepts p at_handler (credentials_of r.authorization) t
          (dispatch p at_entry r cache).1 found.0 found.1 signed_in in
      let (payload, decoded, named) =
        accept_claims-payload p 401 403 (local_email p)
          (decode_token p at_handler token (dispatch p at_entry r cache).1).0 found.0 accepted in
      let (keys, _, verified) =
        decode_token-keys p at_handler token (dispatch p at_entry r cache).1 (claims payload)
          decoded in
      admitted credentials_of d minimum r scope u token payload presented (keys, verified)
        (subst (IsNamed p payload (local_email p)) (same ∙ is_user) named)
        (subst (λ (w : CurrentUser). role_level minimum ≤ role_level w.role) is_user senior)
        (subst (λ w. (is_skipped r.path ≡ true) ⊎ IsScoped p r w) is_scope
          (dispatch-IsScoped p at_entry r cache scope' at_gate))

  -- The token of a request that is answered is accepted on a websocket too, with the same user,
  -- tenant and role.
  pub ws_accepts :
      (now : ℕ) (token : Text) (t : UserTables) (cache : Cache p) (u : CurrentUser)
      (t' : UserTables)
      → (get_current_user p now (some token) t cache).0 ≡ answer (u, t')
      → (v : CurrentUser) × ((get_current_user_ws p now token cache).0 ≡ answer v)
        × (v.user_id ≡ u.user_id)
        × (v.tenant_id ≡ u.tenant_id)
        × (v.role ≡ u.role)
  unfolding get_current_user_ws accept_claims
  ws_accepts now token t cache u t' h =
      let (token', given, accepted, _) =
        get_current_user-accepts p now (some token) t cache u t' h in
      let same : token' ≡ token = ground arith in
      let (payload, decoded, n) =
        accept_claims-payload p 401 403 (local_email p) (decode_token p now token' cache).0 u
          accepted in
      (
        record u { email = plain_email p n.sub payload.email },
        ap (λ d. accept_claims p 1008 1008 (plain_email p) d)
              (ap (λ s. (decode_token p now s cache).0) (sym same) ∙ decoded)
            ∙ user_of-other p 1008 (local_email p) (plain_email p) payload u n,
        refl,
        refl,
        refl,
      )
