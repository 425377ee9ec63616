-- ===== src/Evaluation/Good.antt =====
-- Lists of checks of run_eval.py, and what it is that all of a list are passed.
use stock_analyst.Shared.{
  ℕ, ◌≤◌, Text, List, [], ◌∷◌, ◌++◌, map, Bool, true, false, ◌&&◌, not, Option, none, some, leb,
  all, All, if◌then◌else◌, is_empty, filter_by, ◌≡◌, ◌↔◌, refl, arith,
}
use stock_analyst.Shared.Regex.{Regex, is_some, full_matches}
use stock_analyst.Enforcer.Checks.{attempts_of}
use stock_analyst.Evaluation.{CheckOutcome, CheckKind}
use stock_analyst.Evaluation.Checks.{outcome, declared, concat_map, is_well_formed}
use stock_analyst.Evaluation.Cases.{check_passes}

-- Every check of the list is passed.
abbrev pub IsGood : List CheckOutcome → Type 0
IsGood ks = all check_passes ks ≡ true

-- A condition on a key that may be absent.
abbrev pub IsMet {ℓ κ} : {A : Type ℓ} → Option A → (A → Type κ) → Type κ
IsMet none P = Unit
IsMet (some a) P = P a

-- Equivalences, of lists of checks.
pub iff_both : {A B C D : Type 0} → A ↔ B → C ↔ D → (A × C) ↔ (B × D)
iff_both f g = (λ (a, c). (f.0 a, g.0 c), λ (b, d). (f.1 b, g.1 d))

pub iff_trans : {A B C : Type 0} → A ↔ B → B ↔ C → A ↔ C
iff_trans f g = (λ a. g.0 (f.0 a), λ c. f.1 (g.1 c))

pub iff_refl : {A : Type 0} → A ↔ A
iff_refl = (λ a. a, λ a. a)

pub IsGood-append : (xs ys : List CheckOutcome) → IsGood (xs ++ ys) ↔ (IsGood xs × IsGood ys)
IsGood-append [] ys = (λ h. (refl, h), λ h. h.1)
IsGood-append (x ∷ xs) ys =
    elim x.passed
      as (λ b.
        ((b && all check_passes (xs ++ ys)) ≡ true)
        ↔ (((b && all check_passes xs) ≡ true) × IsGood ys)) [
          | true ↦ IsGood-append xs ys
          | false ↦ (λ h. cc, λ h. cc)
        ]

-- Two lists of checks, by what each comes to.
pub IsGood-parts :
    {P Q : Type 0} (xs ys : List CheckOutcome)
    → IsGood xs ↔ P
    → IsGood ys ↔ Q
    → IsGood (xs ++ ys) ↔ (P × Q)
IsGood-parts xs ys f g = iff_trans (IsGood-append xs ys) (iff_both f g)

pub IsGood-one : (k : CheckKind) (b : Bool) → IsGood (outcome k b ∷ []) ↔ (b ≡ true)
IsGood-one k true = iff_refl
IsGood-one k false = iff_refl

pub IsGood-one_iff :
    {P : Type 0} (k : CheckKind) (b : Bool) → (b ≡ true) ↔ P → IsGood (outcome k b ∷ []) ↔ P
IsGood-one_iff k b f = iff_trans (IsGood-one k b) f

pub IsGood-map :
    {A : Type 0} {P : A → Type 0} (k : A → CheckKind) (f : A → Bool)
    → ((x : A) → (f x ≡ true) ↔ P x)
    → (xs : List A) → IsGood (map (λ x. outcome (k x) (f x)) xs) ↔ All P xs
IsGood-map k f e [] = (λ h. tt, λ h. refl)
IsGood-map k f e (x ∷ xs) =
    IsGood-parts (outcome (k x) (f x) ∷ []) (map (λ x. outcome (k x) (f x)) xs)
      (IsGood-one_iff (k x) (f x) (e x)) (IsGood-map k f e xs)

pub IsGood-concat_map :
    {A : Type 0} (f : A → List CheckOutcome) (xs : List A)
    → IsGood (concat_map f xs) ↔ All (λ x. IsGood (f x)) xs
unfolding concat_map
IsGood-concat_map f [] = (λ h. tt, λ h. refl)
IsGood-concat_map f (x ∷ xs) =
    IsGood-parts (f x) (concat_map f xs) iff_refl (IsGood-concat_map f xs)

pub IsGood-declared :
    {A : Type 0} {P : A → Type 0} (o : Option A) (f : A → List CheckOutcome)
    → ((a : A) → IsGood (f a) ↔ P a)
    → IsGood (declared o f) ↔ IsMet o P
IsGood-declared none f e = (λ h. tt, λ h. refl)
IsGood-declared (some a) f e = e a

-- A condition of a count, or of the form of the citations, by its key.
pub IsGood-key :
    {A : Type 0} {P : A → Type 0} (k : CheckKind) (f : A → Bool)
    → ((a : A) → (f a ≡ true) ↔ P a)
    → (o : Option A) → IsGood (declared o (λ a. outcome k (f a) ∷ [])) ↔ IsMet o P
IsGood-key k f e o =
    IsGood-declared o (λ a. outcome k (f a) ∷ []) (λ a. IsGood-one_iff k (f a) (e a))

pub is_some_iff : {A : Type 0} (o : Option A) → (is_some o ≡ true) ↔ ((a : A) × (o ≡ some a))
is_some_iff none = (λ h. cc, λ h. cc)
is_some_iff (some a) = (λ h. (a, refl), λ h. refl)

pub not_iff : (b : Bool) → (not b ≡ true) ↔ (b ≡ false)
not_iff true = (λ h. cc, λ h. cc)
not_iff false = (λ h. refl, λ h. refl)

pub leb_iff : (a b : ℕ) → (leb a b ≡ true) ↔ (a ≤ b)
leb_iff a b = ground arith

-- A filter that keeps nothing.
abbrev rejected : (Text → Bool) → List Text → List Text
rejected f xs = filter_by (λ x. not (f x)) xs

none_left :
    (f : Text → Bool) (xs : List Text)
    → (is_empty (filter_by (λ x. not (f x)) xs) ≡ true) ↔ All (λ x. f x ≡ true) xs
none_left f [] = (λ h. tt, λ h. refl)
none_left f (x ∷ xs) =
    elim (f x)
      as (λ b.
        (is_empty (if not b then x ∷ rejected f xs else rejected f xs) ≡ true)
        ↔ ((b ≡ true) × All (λ x. f x ≡ true) xs)) [
          | true ↦ (λ h. (refl, (none_left f xs).0 h), λ (_, h). (none_left f xs).1 h)
          | false ↦ (λ h. cc, λ h. cc)
        ]

pub is_well_formed_iff :
    (p : Regex) (content : Text)
    → (is_well_formed p content ≡ true) ↔ All (λ a. full_matches p a ≡ true) (attempts_of content)
unfolding is_well_formed
is_well_formed_iff p content = none_left (full_matches p) (attempts_of content)
