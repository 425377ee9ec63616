-- ===== src/Auth/Keys.antt =====
-- The cache of the keys over any sequence of requests, at times that do not decrease.
use stock_analyst.Shared.{
  ℕ, ◌+◌, ◌≤◌, ◌<◌, Option, none, some, ltb, Bool-cases, ◌≡◌, refl, inl, inr, arith,
}
use stock_analyst.Auth.{Provider, Cache, jwks_ttl, refreshed, get_jwks}

module _ (p : Provider) where
  open p use {Keys, fetch}

  -- The requests up to a time, and the cache that they leave.
  pub data Requests : ℕ → Cache p → Type 0 where
    start : (t : ℕ) → Requests t none
    next : {t now : ℕ} {c : Cache p} → Requests t c → t ≤ now → Requests now (get_jwks p now c).1

  -- Keys that the provider served at some time up to `t`, and when they expire.
  abbrev FetchedBy : ℕ → Keys → ℕ → Type 0
  FetchedBy t keys expires_at =
      (s : ℕ) × (fetch s ≡ some keys) × (expires_at ≡ s + jwks_ttl) × (s ≤ t)

  abbrev IsCurrent : ℕ → Cache p → Type 0
  IsCurrent t none = Unit {0}
  IsCurrent t (some (keys, expires_at)) = FetchedBy t keys expires_at

  -- What a refresh gives, and what a request gives.
  abbrev IsServed : ℕ → Option Keys × Cache p → Type 0
  IsServed now (none, c) = IsCurrent now c
  IsServed now (some keys, c) =
      IsCurrent now c × ((s : ℕ) × (fetch s ≡ some keys) × (s ≤ now) × (now < s + jwks_ttl))

  IsCurrent-later : {t : ℕ} (now : ℕ) (c : Cache p) → t ≤ now → IsCurrent t c → IsCurrent now c
  IsCurrent-later now none h k = tt
  IsCurrent-later now (some (keys, expires_at)) h k = (k.0, k.1, k.2, omega arith)

  refreshed-IsServed :
      (now : ℕ) (c : Cache p) (answer : Option Keys)
      → fetch now ≡ answer
      → IsCurrent now c
      → IsServed now (refreshed p now c answer)
  refreshed-IsServed now c none e h = h
  refreshed-IsServed now c (some keys) e h =
      ((now, e, refl, omega arith), (now, e, omega arith, omega arith))

  get_jwks-IsServed : (now : ℕ) (c : Cache p) → IsCurrent now c → IsServed now (get_jwks p now c)
  unfolding get_jwks
  get_jwks-IsServed now none h = refreshed-IsServed now none (fetch now) refl h
  get_jwks-IsServed now (some (keys, expires_at)) h = elim (Bool-cases (ltb now expires_at)) [
    | inl live ↦ rw live (h, (h.0, h.1, h.3, ground (arith, h.2)))
    | inr stale ↦ rw stale (refreshed-IsServed now (some (keys, expires_at)) (fetch now) refl h)
  ]

  IsServed-cache : (now : ℕ) (r : Option Keys × Cache p) → IsServed now r → IsCurrent now r.1
  IsServed-cache now (none, c) h = h
  IsServed-cache now (some keys, c) h = h.0

  IsServed-keys :
      (now : ℕ) (r : Option Keys × Cache p) (keys : Keys)
      → IsServed now r
      → r.0 ≡ some keys
      → (s : ℕ) × (fetch s ≡ some keys) × (s ≤ now) × (now < s + jwks_ttl)
  IsServed-keys now (none, c) keys h e = cc
  IsServed-keys now (some served, c) keys h e =
      let (s, fetched, before, live) = h.1 in (s, ground (arith, fetched), before, live)

  Requests-IsCurrent : {t : ℕ} {c : Cache p} → Requests t c → IsCurrent t c
  Requests-IsCurrent (start t) = tt
  Requests-IsCurrent (next {t} {now} {c} before h) =
      IsServed-cache now (get_jwks p now c)
        (get_jwks-IsServed now c (IsCurrent-later now c h (Requests-IsCurrent before)))

  -- After any requests, the keys that a request is given are such as the provider served at some
  -- time before, less than 300 seconds ago.
  pub jwks_fresh :
      {t : ℕ} {c : Cache p} (now : ℕ) (keys : Keys)
      → Requests t c
      → t ≤ now
      → (get_jwks p now c).0 ≡ some keys
      → (s : ℕ) × (fetch s ≡ some keys) × (s ≤ now) × (now < s + jwks_ttl)
  jwks_fresh {c} now keys before h e =
      IsServed-keys now (get_jwks p now c) keys
        (get_jwks-IsServed now c (IsCurrent-later now c h (Requests-IsCurrent before))) e
