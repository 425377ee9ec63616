-- ===== src/Documents/Filters.antt =====
-- Filters of a table before and after a change of rows that they drop.
use stock_analyst.Shared.{
  List, [], ◌∷◌, ◌++◌, map, Bool, true, false, not, some, some-injective, sym, find_first,
  filter_by, if◌then◌else◌, Bool-cases, All, ◌≡◌, refl, ap, ◌∙◌, inl, inr, arith,
}

-- A filter keeps what another filter only drops elsewhere.
pub filter_by-filter_by {ℓ} :
    {A : Type ℓ} (q r : A → Bool) (xs : List A)
    → ((x : A) → q x ≡ true → r x ≡ true)
    → filter_by q (filter_by r xs) ≡ filter_by q xs
filter_by-filter_by q r [] h = refl
filter_by-filter_by q r (x ∷ xs) h = elim (Bool-cases (r x)) [
  | inl kept ↦ rw kept (ap (λ l. if q x then x ∷ l else l) (filter_by-filter_by q r xs h))
  | inr dropped ↦ elim (Bool-cases (q x)) [
    | inl wanted ↦ absurd (ground (arith, h x wanted))
    | inr unwanted ↦ rw (dropped, unwanted) (filter_by-filter_by q r xs h)
  ]
]

pub filter_by-snoc {ℓ} :
    {A : Type ℓ} (q : A → Bool) (xs : List A) (x : A)
    → q x ≡ false
    → filter_by q (xs ++ (x ∷ [])) ≡ filter_by q xs
filter_by-snoc q [] x h = rw h refl
filter_by-snoc q (y ∷ xs) x h = ap (λ l. if q y then y ∷ l else l) (filter_by-snoc q xs x h)

-- An update of rows that the filter drops.
pub filter_by-update {ℓ} :
    {A : Type ℓ} (q here : A → Bool) (f : A → A) (xs : List A)
    → ((x : A) → q (f x) ≡ q x)
    → All (λ x. here x ≡ true → q x ≡ false) xs
    → filter_by q (map (λ x. if here x then f x else x) xs) ≡ filter_by q xs
filter_by-update q here f [] same h = refl
filter_by-update q here f (x ∷ xs) same h = elim (Bool-cases (here x)) [
  | inl at ↦ rw (at, same x, h.0 at) (filter_by-update q here f xs same h.1)
  | inr away ↦ rw away (ap (λ l. if q x then x ∷ l else l) (filter_by-update q here f xs same h.1))
]

pub filter_by-without {ℓ} :
    {A : Type ℓ} (q here : A → Bool) (xs : List A)
    → All (λ x. here x ≡ true → q x ≡ false) xs
    → filter_by q (filter_by (λ x. not (here x)) xs) ≡ filter_by q xs
filter_by-without q here [] h = refl
filter_by-without q here (x ∷ xs) h = elim (Bool-cases (here x)) [
  | inl at ↦ rw (at, h.0 at) (filter_by-without q here xs h.1)
  | inr away ↦ rw away (ap (λ l. if q x then x ∷ l else l) (filter_by-without q here xs h.1))
]

-- What a search finds passes its test.
pub find_first-holds {ℓ} :
    {A : Type ℓ} (p : A → Bool) (xs : List A) (x : A) → find_first p xs ≡ some x → p x ≡ true
find_first-holds p [] x h = cc
find_first-holds p (y ∷ xs) x h = elim (Bool-cases (p y)) [
  | inl yes_here ↦
      let e : some y ≡ some x = rw yes_here at h in ap p (sym (some-injective e)) ∙ yes_here
  | inr not_here ↦ find_first-holds p xs x (rw not_here at h)
]
