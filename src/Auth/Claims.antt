-- ===== src/Auth/Claims.antt =====
-- The user that the claims of a token name, over HTTP and on a websocket.
use stock_analyst.Shared.{ℕ, Text, Option, some, Option-cases, ◌≡◌, ◌∙◌, inl, inr, arith}
use stock_analyst.Http.{answer, >>=-eq-answer}
use stock_analyst.Auth.{
  Provider, TokenPayload, CurrentUser, user_of, named, user_uuid, subject, role_of, tenant_claim,
}

module _ (p : Provider) where
  -- What the user of some claims takes from them.
  pub record IsNamed (payload : TokenPayload) (email_of : Text → Option Text → Text)
      (u : CurrentUser) : Type 0 where
    pub raw : Text
    pub sub : Text
    pub has_tenant : tenant_claim payload ≡ some raw
    pub has_sub : payload.sub ≡ some sub
    pub same_id : p.parse_uuid sub ≡ some u.user_id
    pub same_tenant : p.parse_uuid raw ≡ some u.tenant_id
    pub same_role : u.role ≡ role_of payload.roles
    pub same_email : u.email ≡ email_of sub payload.email

  user_uuid-answer : (t : Text) (n : ℕ) → user_uuid p t ≡ answer n → p.parse_uuid t ≡ some n
  user_uuid-answer t n h = elim (Option-cases (p.parse_uuid t)) [
    | inl bad ↦ absurd (ground (arith, bad))
    | inr (m, good) ↦ ground (arith, good)
  ]

  subject-answer :
      (payload : TokenPayload) (t : Text) → subject p payload ≡ answer t → payload.sub ≡ some t
  subject-answer payload t h = elim (Option-cases payload.sub) [
    | inl bad ↦ absurd (ground (arith, bad))
    | inr (m, good) ↦ ground (arith, good)
  ]

  named-IsNamed :
      (email_of : Text → Option Text → Text) (payload : TokenPayload) (raw : Text) (u : CurrentUser)
      → tenant_claim payload ≡ some raw
      → named p email_of payload raw ≡ answer u
      → IsNamed payload email_of u
  unfolding named
  named-IsNamed email_of payload raw u given h =
      let (sub, has_sub, h₁) = >>=-eq-answer (subject p payload) _ h in
      let (id, has_id, h₂) = >>=-eq-answer (user_uuid p sub) _ h₁ in
      let (tenant, has_tenant, h₃) = >>=-eq-answer (user_uuid p raw) _ h₂ in
      record {
        raw = raw;
        sub = sub;
        has_tenant = given;
        has_sub = subject-answer payload sub has_sub;
        same_id = user_uuid-answer sub id has_id ∙ ground arith;
        same_tenant = user_uuid-answer raw tenant has_tenant ∙ ground arith;
        same_role = ground arith;
        same_email = ground arith;
      }

  pub user_of-IsNamed :
      (refusal : ℕ) (email_of : Text → Option Text → Text) (payload : TokenPayload)
      (u : CurrentUser)
      → user_of p refusal email_of payload ≡ answer u
      → IsNamed payload email_of u
  unfolding user_of
  user_of-IsNamed refusal email_of payload u h = elim (Option-cases (tenant_claim payload)) [
    | inl missing ↦ absurd (ground (arith, missing))
    | inr (raw, given) ↦ named-IsNamed email_of payload raw u given (ground (arith, given))
  ]

  -- Claims name at most one user, by either way in.
  pub user_of-other :
      (refusal : ℕ) (email_of email_of' : Text → Option Text → Text) (payload : TokenPayload)
      (u : CurrentUser) (n : IsNamed payload email_of u)
      → user_of p refusal email_of' payload
        ≡ answer (record u { email = email_of' n.sub payload.email })
  unfolding user_of named
  user_of-other refusal email_of email_of' payload u n =
      ground (arith, n.has_tenant, n.has_sub, n.same_id, n.same_tenant, n.same_role)
