-- ===== src/Shared/Sorting.antt =====
-- Python's `sorted(xs, key=..., reverse=True)`, by a test that tells a smaller key: stable insertion.
use mathlib.Core.Path.{◌≡◌, refl}
use mathlib.Core.Logic.{inl, inr}
use mathlib.Core.Bool.{Bool, true, false, ◌||◌}
use mathlib.Core.List.{List, [], ◌∷◌}
use mathlib.Core.Path.{ap, ◌∙◌}
use native.Mathlib.Omega.{arith}
use Prim.Native.Nat.{suc}
use stock_analyst.Shared.Tests.{if◌then◌else◌, Bool-cases}
use stock_analyst.Shared.Lists.{All, any, length}

-- `R` holds of every element and each later one.
abbrev pub Pairwise {ℓ κ} : {A : Type ℓ} → (A → A → Type κ) → List A → Type κ
Pairwise R [] = Unit
Pairwise R (x ∷ xs) = All (R x) xs × Pairwise R xs

module _ {ℓ} {A : Type ℓ} (less : A → A → Bool) where
  -- Before the first element that is not greater.
  unfoldable pub insert_desc : A → List A → List A
  insert_desc x [] = x ∷ []
  insert_desc x (y ∷ ys) = let rest = insert_desc x ys in if less x y then y ∷ rest else x ∷ y ∷ ys

  unfoldable pub sort_desc : List A → List A
  sort_desc [] = []
  sort_desc (x ∷ xs) = insert_desc x (sort_desc xs)

  -- No element is smaller than the one behind it.
  abbrev pub IsDescending : List A → Type 0
  IsDescending [] = Unit
  IsDescending (x ∷ []) = Unit
  IsDescending (x ∷ y ∷ ys) = (less x y ≡ false) × IsDescending (y ∷ ys)

  All-insert_desc {κ} :
      (P : A → Type κ) (x : A) (xs : List A) → P x → All P xs → All P (insert_desc x xs)
  unfolding insert_desc
  All-insert_desc P x [] hx h = (hx, tt)
  All-insert_desc P x (y ∷ ys) hx h = elim (Bool-cases (less x y)) [
    | inl smaller ↦ rw (smaller, insert_desc) (h.0, All-insert_desc P x ys hx h.1)
    | inr fits ↦ rw (fits, insert_desc) (hx, h)
  ]

  pub All-sort_desc {κ} : (P : A → Type κ) (xs : List A) → All P xs → All P (sort_desc xs)
  unfolding sort_desc
  All-sort_desc P [] h = tt
  All-sort_desc P (x ∷ xs) h = All-insert_desc P x (sort_desc xs) h.0 (All-sort_desc P xs h.1)

  length-insert_desc : (x : A) (xs : List A) → length (insert_desc x xs) ≡ suc (length xs)
  unfolding insert_desc
  length-insert_desc x [] = refl
  length-insert_desc x (y ∷ ys) = ground (arith, length-insert_desc x ys)

  pub length-sort_desc : (xs : List A) → length (sort_desc xs) ≡ length xs
  unfolding sort_desc
  length-sort_desc [] = refl
  length-sort_desc (x ∷ xs) = length-insert_desc x (sort_desc xs) ∙ ap suc (length-sort_desc xs)

  any-insert_desc :
      (p : A → Bool) (x : A) (xs : List A) → any p (insert_desc x xs) ≡ p x || any p xs
  unfolding insert_desc
  any-insert_desc p x [] = refl
  any-insert_desc p x (y ∷ ys) = ground (arith, any-insert_desc p x ys)

  -- Sorting keeps what occurs in a list.
  pub any-sort_desc : (p : A → Bool) (xs : List A) → any p (sort_desc xs) ≡ any p xs
  unfolding sort_desc
  any-sort_desc p [] = refl
  any-sort_desc p (x ∷ xs) =
      any-insert_desc p x (sort_desc xs) ∙ ap (λ (b : Bool). p x || b) (any-sort_desc p xs)

  module _ {κ} (R : A → A → Type κ) (symmetric : (a b : A) → R a b → R b a) where
    Pairwise-insert_desc :
        (x : A) (xs : List A) → All (R x) xs → Pairwise R xs → Pairwise R (insert_desc x xs)
    unfolding insert_desc
    Pairwise-insert_desc x [] hx h = (tt, tt)
    Pairwise-insert_desc x (y ∷ ys) hx h = elim (Bool-cases (less x y)) [
      | inl smaller ↦
          rw (smaller, insert_desc)
            (
              All-insert_desc (R y) x ys (symmetric x y hx.0) h.0,
              Pairwise-insert_desc x ys hx.1 h.1,
            )
      | inr fits ↦ rw (fits, insert_desc) (hx, h)
    ]

    pub Pairwise-sort_desc : (xs : List A) → Pairwise R xs → Pairwise R (sort_desc xs)
    unfolding sort_desc
    Pairwise-sort_desc [] h = tt
    Pairwise-sort_desc (x ∷ xs) h =
        Pairwise-insert_desc x (sort_desc xs) (All-sort_desc (R x) xs h.0)
          (Pairwise-sort_desc xs h.1)

  tail-IsDescending : (y : A) (ys : List A) → IsDescending (y ∷ ys) → IsDescending ys
  tail-IsDescending y [] h = tt
  tail-IsDescending y (z ∷ zs) h = h.1

  module _ (asymmetric : (a b : A) → less a b ≡ true → less b a ≡ false) where
    insert-head :
        (x y : A) (ys : List A)
        → less x y ≡ true
        → IsDescending (y ∷ ys)
        → IsDescending (insert_desc x ys)
        → IsDescending (y ∷ insert_desc x ys)
    unfolding insert_desc
    insert-head x y [] smaller h ih = (asymmetric x y smaller, tt)
    insert-head x y (z ∷ zs) smaller h ih = elim (Bool-cases (less x z)) [
      | inl lower ↦ rw (lower, insert_desc) (h.0, rw (lower, insert_desc) at ih)
      | inr fits ↦ rw (fits, insert_desc) (asymmetric x y smaller, rw (fits, insert_desc) at ih)
    ]

    insert-IsDescending : (x : A) (xs : List A) → IsDescending xs → IsDescending (insert_desc x xs)
    unfolding insert_desc
    insert-IsDescending x [] h = tt
    insert-IsDescending x (y ∷ ys) h = elim (Bool-cases (less x y)) [
      | inl smaller ↦
          rw (smaller, insert_desc)
            (insert-head x y ys smaller h (insert-IsDescending x ys (tail-IsDescending y ys h)))
      | inr fits ↦ rw (fits, insert_desc) (fits, h)
    ]

    pub sort_desc-IsDescending : (xs : List A) → IsDescending (sort_desc xs)
    unfolding sort_desc
    sort_desc-IsDescending [] = tt
    sort_desc-IsDescending (x ∷ xs) =
        insert-IsDescending x (sort_desc xs) (sort_desc-IsDescending xs)
