-- ===== src/Auth/Sessions.antt =====
-- What `get_current_user` does to the table of users, and how it compares with the websocket's.
use stock_analyst.Shared.{
  ℕ, Text, false, Option, none, some, ◌==◌, any, same_text, same_text_refl, Bool-cases,
  Option-cases, ◌≡◌, ◌≢◌, refl, sym, ap, ◌∙◌, subst, ◌⊎◌, inl, inr, arith, List, [], ◌∷◌,
}
use stock_analyst.Http.{Reply, answer, >>=-eq-answer}
use stock_analyst.Auth.{
  Provider, Cache, CurrentUser, User, UserRole, user_role, decode_token, accept_claims, local_email,
}
use stock_analyst.Auth.Users.{
  UserTables, find_user, is_taken, user_row, upsert_user, provision, get_current_user, Updates,
  upsert_user-Updates, find_user-id,
}

-- The row of the user, and that its address is no other's.
abbrev Provisioned : CurrentUser → UserTables → UserTables → Type 0
Provisioned u t t' =
    (role : UserRole) × (user_role u.role ≡ some role)
    × Updates u role t t'
    × (any (is_taken u) t.users ≡ false)

provision-Provisioned :
    (v u : CurrentUser) (t t' : UserTables)
    → provision v t ≡ answer (u, t')
    → (v ≡ u) × Provisioned v t t'
unfolding provision
provision-Provisioned v u t t' h = elim (Option-cases (user_role v.role)) [
  | inl unknown ↦ absurd (ground (arith, unknown))
  | inr (role, known) ↦ elim (Option-cases (upsert_user v role t)) [
    | inl failed ↦ absurd (ground (arith, known, failed))
    | inr (after, stored) ↦
        let e : ◌≡◌ {A = Reply (CurrentUser × UserTables)} (answer (v, after)) (answer (u, t')) =
          ground (arith, known, stored) in
        let (updated, free) = upsert_user-Updates v role t t' (stored ∙ ground arith) in
        (ground arith, (role, known, updated, free))
  ]
]

module _ (p : Provider) where
  -- A request that is answered had a token whose claims are accepted.
  pub get_current_user-accepts :
      (now : ℕ) (credentials : Option Text) (t : UserTables) (cache : Cache p) (u : CurrentUser)
      (t' : UserTables)
      → (get_current_user p now credentials t cache).0 ≡ answer (u, t')
      → (token : Text) × (credentials ≡ some token)
        × (accept_claims p 401 403 (local_email p) (decode_token p now token cache).0 ≡ answer u)
        × Provisioned u t t'
  unfolding get_current_user
  get_current_user-accepts now none t cache u t' h = cc
  get_current_user-accepts now (some token) t cache u t' h =
      let (v, accepted, stored) =
        >>=-eq-answer (accept_claims p 401 403 (local_email p) (decode_token p now token cache).0)
          (λ v. provision v t) h in
      let (same, row) = provision-Provisioned v u t t' stored in
      (token, refl, accepted ∙ ap answer same, subst (λ w. Provisioned w t t') same row)

-- Two users have not the same address.
abbrev pub AreDistinct : List User → Type 0
AreDistinct users =
    (i j : ℕ) (r s : User)
    → find_user i users ≡ some r
    → find_user j users ≡ some s
    → r.email ≡ s.email
    → i ≡ j

not_taken :
    (u : CurrentUser) (i : ℕ) (users : List User) (r : User)
    → any (is_taken u) users ≡ false
    → find_user i users ≡ some r
    → is_taken u r ≡ false
not_taken u i [] r free found = cc
not_taken u i (x ∷ users) r free found = ground (arith, not_taken u i users r)

-- A row of another user, found before, has another address.
other_address :
    (u : CurrentUser) (i : ℕ) (users : List User) (r : User)
    → any (is_taken u) users ≡ false
    → find_user i users ≡ some r
    → (u.user_id == i) ≡ false
    → u.email ≢ r.email
other_address u i users r free found other e = ground (
  arith,
  not_taken u i users r,
  find_user-id i users r,
  ap (λ a. same_text a u.email) e,
  same_text_refl u.email,
)

email-row_of :
    (u : CurrentUser) (role : UserRole) (old : Option User) → (user_row u role old).email ≡ u.email
email-row_of u role none = refl
email-row_of u role (some old) = refl

-- A row found afterwards is the user's, or was found before.
row_after :
    (u : CurrentUser) (t t' : UserTables)
    → Provisioned u t t'
    → (i : ℕ) (r : User) → find_user i t'.users ≡ some r
    → ((u.user_id ≡ i) × (r.email ≡ u.email))
      ⊎ (((u.user_id == i) ≡ false) × (find_user i t.users ≡ some r))
row_after u t t' h i r found = elim (Bool-cases (u.user_id == i)) [
  | inl same ↦ inl (
    ground (arith, same),
    ground (arith, same, h.2.1 i, email-row_of u h.0 (find_user u.user_id t.users)),
  )
  | inr other ↦ inr (other, sym (h.2.1 i ∙ rw other refl) ∙ found)
]

Provisioned-AreDistinct :
    (u : CurrentUser) (t t' : UserTables)
    → Provisioned u t t'
    → AreDistinct t.users
    → AreDistinct t'.users
Provisioned-AreDistinct u t t' h distinct i j r s found found' e =
    elim (row_after u t t' h i r found) [
      | inl mine ↦ elim (row_after u t t' h j s found') [
        | inl mine' ↦ sym mine.0 ∙ mine'.0
        | inr old ↦ absurd (other_address u j t.users s h.3 old.1 old.0 (sym mine.1 ∙ e))
      ]
      | inr old ↦ elim (row_after u t t' h j s found') [
        | inl mine ↦ absurd (other_address u i t.users r h.3 old.1 old.0 (sym mine.1 ∙ sym e))
        | inr old' ↦ distinct i j r s old.1 old'.1 e
      ]
    ]

module _ (p : Provider) where
  -- A request that is answered leaves the table of users, as a function of their identifiers,
  -- changed at the user of its token only: the row has the role and the address of the token, and
  -- keeps the tenant of a row that was there. If no two users had the same address, none have.
  pub get_current_user-Refines :
      (now : ℕ) (credentials : Option Text) (t : UserTables) (cache : Cache p) (u : CurrentUser)
      (t' : UserTables)
      → (get_current_user p now credentials t cache).0 ≡ answer (u, t')
      → ((role : UserRole) × (user_role u.role ≡ some role) × Updates u role t t')
        × (AreDistinct t.users → AreDistinct t'.users)
  get_current_user-Refines now credentials t cache u t' h =
      let (token, given, accepted, row) =
        get_current_user-accepts p now credentials t cache u t' h in
      ((row.0, row.1, row.2), Provisioned-AreDistinct u t t' row)
