-- ===== src/Auth/Users.antt =====
-- `get_current_user`, which gives the user of a token a row in `users`, and `get_current_user_ws`.
-- A failed statement of the database raises, and the transaction of the request is rolled back.
use stock_analyst.Shared.{
  ℕ, Text, codes, List, [], ◌∷◌, ◌++◌, map, Bool, false, ◌&&◌, not, Option, none, some, ◌==◌, any,
  some-injective, find_first, same_text, if◌then◌else◌, Bool-cases, Option-cases, ◌≡◌, refl, ◌∙◌,
  subst, inl, inr, arith,
}
use stock_analyst.Http.{Reply, answer, problem, crashed, ◌>>=◌}
use stock_analyst.Auth.{
  Provider, Cache, CurrentUser, User, UserRole, user_role, decode_token, accept_claims, local_email,
  plain_email,
}

-- The tables that a request finds.
pub record UserTables : Type 0 where
  pub tenants : List ℕ
  pub users : List User

abbrev pub find_user : ℕ → List User → Option User
find_user id = find_first (λ r. r.id == id)

-- A row of another user with the same address, which the table does not allow.
abbrev pub is_taken : CurrentUser → User → Bool
is_taken u r = same_text r.email u.email && not (r.id == u.user_id)

-- The row of a user as a request leaves it: the tenant of a row that exists is kept.
abbrev pub user_row : CurrentUser → UserRole → Option User → User
user_row u role none = record {
  id = u.user_id;
  tenant_id = u.tenant_id;
  email = u.email;
  role = role;
}
user_row u role (some old) = record old { email = u.email; role = role }

abbrev pub rewritten : CurrentUser → UserRole → User → User
rewritten u role r = if r.id == u.user_id then user_row u role (some r) else r

-- `insert(User).on_conflict_do_update`: the address is unique, and a new row has a tenant.
unfoldable pub upsert_user : CurrentUser → UserRole → UserTables → Option UserTables
upsert_user u role t =
    if any (is_taken u) t.users then none else elim (find_user u.user_id t.users) [
      | none ↦
          if any (λ (n : ℕ). n == u.tenant_id) t.tenants
          then some (record t { users = t.users ++ (user_row u role none ∷ []) })
          else none
      | some _ ↦ some (record t { users = map (rewritten u role) t.users })
    ]

-- The end of `get_current_user`.
unfoldable pub provision : CurrentUser → UserTables → Reply (CurrentUser × UserTables)
provision u t = elim (user_role u.role) [
  | none ↦ crashed (codes "ValueError")
  | some role ↦ elim (upsert_user u role t) [
    | none ↦ crashed (codes "IntegrityError")
    | some t' ↦ answer (u, t')
  ]
]

module _ (p : Provider) where
  -- `get_current_user`, from the credentials of the header: the user with the tables, and the keys.
  unfoldable pub get_current_user :
      ℕ → Option Text → UserTables → Cache p → Reply (CurrentUser × UserTables) × Cache p
  get_current_user now none t cache = (problem 401 (codes "Bearer token is required"), cache)
  get_current_user now (some token) t cache =
      let r = decode_token p now token cache in
      (accept_claims p 401 403 (local_email p) r.0 >>= (λ u. provision u t), r.1)

  -- `get_current_user_ws`: every refusal closes the socket with this code.
  unfoldable pub get_current_user_ws : ℕ → Text → Cache p → Reply CurrentUser × Cache p
  get_current_user_ws now token cache =
      let r = decode_token p now token cache in (accept_claims p 1008 1008 (plain_email p) r.0, r.1)

-- A table of users as a function.
abbrev pub update : (ℕ → Option User) → ℕ → User → ℕ → Option User
update f id row i = if id == i then some row else f i

find_user-append :
    (i : ℕ) (row : User) (users : List User)
    → find_user row.id users ≡ none
    → find_user i (users ++ (row ∷ [])) ≡ (if row.id == i then some row else find_user i users)
find_user-append i row [] h = refl
find_user-append i row (r ∷ users) h = ground (arith, find_user-append i row users)

find_user-map :
    (u : CurrentUser) (role : UserRole) (i : ℕ) (users : List User)
    → find_user i (map (rewritten u role) users)
      ≡ (elim (find_user i users) [ none ↦ none | some r ↦ some (rewritten u role r) ])
find_user-map u role i [] = refl
find_user-map u role i (r ∷ users) = ground (arith, find_user-map u role i users)

pub find_user-id : (i : ℕ) (users : List User) (r : User) → find_user i users ≡ some r → r.id ≡ i
find_user-id i [] r h = cc
find_user-id i (x ∷ users) r h = ground (arith, find_user-id i users r)

-- The rows are those before, but for the row of the user.
abbrev pub Updates : CurrentUser → UserRole → UserTables → UserTables → Type 0
Updates u role t t' =
    (t'.tenants ≡ t.tenants)
    × ((i : ℕ)
        → find_user i t'.users
          ≡ update (λ j. find_user j t.users) u.user_id
              (user_row u role (find_user u.user_id t.users)) i)

added-Updates :
    (u : CurrentUser) (role : UserRole) (t : UserTables)
    → find_user u.user_id t.users ≡ none
    → Updates u role t (record t { users = t.users ++ (user_row u role none ∷ []) })
added-Updates u role t new =
    (refl, λ i. find_user-append i (user_row u role none) t.users new ∙ rw new refl)

rewritten-find :
    (u : CurrentUser) (role : UserRole) (i : ℕ) (users : List User) {old : User}
    → find_user u.user_id users ≡ some old
    → find_user i (map (rewritten u role) users)
      ≡ update (λ j. find_user j users) u.user_id (user_row u role (some old)) i
rewritten-find u role i users {old} e = elim (Bool-cases (u.user_id == i)) [
  | inl same ↦ ground (arith, find_user-map u role i users, find_user-id i users old)
  | inr other ↦ elim (Option-cases (find_user i users)) [
    | inl none_of ↦ rw (other, none_of) (find_user-map u role i users ∙ rw none_of refl)
    | inr (r, found) ↦ ground (arith, find_user-map u role i users, find_user-id i users r)
  ]
]

pub upsert_user-Updates :
    (u : CurrentUser) (role : UserRole) (t t' : UserTables)
    → upsert_user u role t ≡ some t'
    → Updates u role t t' × (any (is_taken u) t.users ≡ false)
unfolding upsert_user
upsert_user-Updates u role t t' h = elim (Bool-cases (any (is_taken u) t.users)) [
  | inl taken ↦ absurd (ground (arith, taken))
  | inr free ↦ elim (Option-cases (find_user u.user_id t.users)) [
    | inl new ↦ elim (Bool-cases (any (λ (n : ℕ). n == u.tenant_id) t.tenants)) [
      | inl known ↦
          let e : some (record t { users = t.users ++ (user_row u role none ∷ []) }) ≡ some t' =
            rw (free, new, known) at h in
          (subst (Updates u role t) (some-injective e) (added-Updates u role t new), free)
      | inr unknown ↦ absurd (ground (arith, free, new, unknown))
    ]
    | inr (old, found) ↦
        let e : some (record t { users = map (rewritten u role) t.users }) ≡ some t' =
          rw (free, found) at h in
        (
          subst (Updates u role t) (some-injective e)
              (refl, λ i. rewritten-find u role i t.users found ∙ rw found refl),
          free,
        )
  ]
]

-- Two users have not the same address.
abbrev pub AreDistinct : List User → Type 0
AreDistinct users =
    (i j : ℕ) (r s : User)
    → find_user i users ≡ some r
    → find_user j users ≡ some s
    → r.email ≡ s.email
    → i ≡ j
