-- ===== src/Normalizer/Kept.antt =====
-- Which matches `extract_values_from_text` keeps.
use stock_analyst.Shared.{
  List, [], ◌∷◌, ◌++◌, Bool, true, false, ◌&&◌, ◌||◌, not, ◌==◌, any, if◌then◌else◌, Bool-cases,
  sort_desc, IsDescending, sort_desc-IsDescending, any-sort_desc, Pairwise, Pairwise-sort_desc, All,
  ◌≡◌, refl, sym, ◌∙◌, subst, inl, inr, arith,
}
use stock_analyst.Normalizer.Spans.{
  Span, comes_after, overlaps, keep_from, starts_after, kept_of, AreApart, apart_sym,
  keep_from-apart,
}

abbrev same_span : Span → Span → Bool
same_span a b = a.start == b.start && a.stop == b.stop

-- `k` is the match `x`, or overlaps it and does not come after it: it begins before it, or where it
-- begins and is not shorter.
abbrev pub settles : Span → Span → Bool
settles x k = not (comes_after k x) && (same_span x k || overlaps x k)

after_trans :
    (a b c : Span) → comes_after a b ≡ false → comes_after b c ≡ false → comes_after a c ≡ false
after_trans a b c h g = ground arith

after_asym : (a b : Span) → comes_after a b ≡ true → comes_after b a ≡ false
after_asym a b h = ground arith

-- Each element of a sorted list comes after none of the later ones.
abbrev IsBefore : Span → Span → Type 0
IsBefore a b = comes_after a b ≡ false

All-IsBefore :
    (a b : Span) (xs : List Span) → IsBefore a b → All (IsBefore b) xs → All (IsBefore a) xs
All-IsBefore a b [] h g = tt
All-IsBefore a b (x ∷ xs) h g = (after_trans a b x h g.0, All-IsBefore a b xs h g.1)

descending-IsBefore : (xs : List Span) → IsDescending comes_after xs → Pairwise IsBefore xs
descending-IsBefore [] h = tt
descending-IsBefore (x ∷ []) h = (tt, tt)
descending-IsBefore (x ∷ y ∷ xs) h =
    let rest = descending-IsBefore (y ∷ xs) h.1 in ((h.0, All-IsBefore x y xs h.0 rest.0), rest)

any-append {ℓ} :
    {A : Type ℓ} (p : A → Bool) (xs ys : List A) → any p (xs ++ ys) ≡ any p xs || any p ys
any-append p [] ys = refl
any-append p (x ∷ xs) ys = ground (arith, any-append p xs ys)

-- What is kept stays.
any-keep_from :
    (p : Span → Bool) (kept xs : List Span) → any p kept ≡ true → any p (keep_from kept xs) ≡ true
unfolding keep_from
any-keep_from p kept [] h = h
any-keep_from p kept (x ∷ xs) h = elim (Bool-cases (any (overlaps x) kept)) [
  | inl taken ↦ rw taken (any-keep_from p kept xs h)
  | inr free ↦
      rw free (any-keep_from p (kept ++ (x ∷ [])) xs (ground (arith, any-append p kept (x ∷ []))))
]

-- A kept match that overlaps `x`, where none of the kept come after `x`.
settled_by :
    (x : Span) (kept : List Span)
    → any (overlaps x) kept ≡ true
    → All (λ k. IsBefore k x) kept
    → any (settles x) kept ≡ true
settled_by x [] h g = cc
settled_by x (k ∷ kept) h g = elim (Bool-cases (overlaps x k)) [
  | inl here ↦ ground (arith, g.0)
  | inr away ↦ ground (arith, settled_by x kept (ground arith) g.1)
]

settles_self : (x : Span) → settles x x ≡ true
settles_self x = ground arith

abbrev IsSettled : List Span → Span → Type 0
IsSettled kept x = any (settles x) kept ≡ true

-- `x` stands before all of `xs`; so does each kept one.
abbrev AllBefore : List Span → List Span → Type 0
AllBefore kept xs = All (λ x. All (λ k. IsBefore k x) kept) xs

AllBefore-snoc :
    (kept : List Span) (x : Span) (xs : List Span)
    → AllBefore kept xs
    → All (IsBefore x) xs
    → AllBefore (kept ++ (x ∷ [])) xs
AllBefore-snoc kept x [] h g = tt
AllBefore-snoc kept x (y ∷ xs) h g = (snoc kept h.0 g.0, AllBefore-snoc kept x xs h.1 g.1)
  where
    snoc :
        (ks : List Span)
        → All (λ k. IsBefore k y) ks
        → IsBefore x y
        → All (λ k. IsBefore k y) (ks ++ (x ∷ []))
    snoc [] a b = (b, tt)
    snoc (k ∷ ks) a b = (a.0, snoc ks a.1 b)

abbrev AllSettled : List Span → Span → List Span → Bool → Type 0
AllSettled kept x xs taken =
    All (IsSettled (keep_from (if taken then kept else kept ++ (x ∷ [])) xs)) (x ∷ xs)

nothing_before : (xs : List Span) → AllBefore [] xs
nothing_before [] = tt
nothing_before (x ∷ xs) = (tt, nothing_before xs)

All-hold :
    {A : Type 0} (p : A → Bool) (xs : List A)
    → All (λ x. p x ≡ true) xs
    → any (λ x. not (p x)) xs ≡ false
All-hold p [] h = refl
All-hold p (x ∷ xs) h = ground (arith, h.0, All-hold p xs h.1)

none_fails :
    {A : Type 0} (p : A → Bool) (xs : List A)
    → any (λ x. not (p x)) xs ≡ false
    → All (λ x. p x ≡ true) xs
none_fails p [] h = tt
none_fails p (x ∷ xs) h = (ground arith, none_fails p xs (ground arith))

IsSettled-sorted :
    (chosen xs : List Span)
    → All (IsSettled chosen) xs
    → All (IsSettled (sort_desc starts_after chosen)) xs
IsSettled-sorted chosen [] h = tt
IsSettled-sorted chosen (x ∷ xs) h =
    (any-sort_desc starts_after (settles x) chosen ∙ h.0, IsSettled-sorted chosen xs h.1)

keep_from-settles :
    (kept xs : List Span)
    → AllBefore kept xs
    → Pairwise IsBefore xs
    → All (IsSettled (keep_from kept xs)) xs
unfolding keep_from
keep_from-settles kept [] h g = tt
keep_from-settles kept (x ∷ xs) h g = elim (Bool-cases (any (overlaps x) kept)) [
  | inl taken ↦ subst (AllSettled kept x xs) (sym taken) (
    any-keep_from (settles x) kept xs (settled_by x kept taken h.0),
    keep_from-settles kept xs h.1 g.1,
  )
  | inr free ↦ subst (AllSettled kept x xs) (sym free) (
    any-keep_from (settles x) (kept ++ (x ∷ [])) xs
        (any-append (settles x) kept (x ∷ []) ∙ ground (arith, settles_self x)),
    keep_from-settles (kept ++ (x ∷ [])) xs (AllBefore-snoc kept x xs h.1 g.0) g.1,
  )
]

-- Where a property holds of all of a sorted list, it holds of all of the list.
sorted-holds :
    (p : Span → Bool) (xs : List Span)
    → All (λ x. p x ≡ true) (sort_desc comes_after xs)
    → All (λ x. p x ≡ true) xs
sorted-holds p xs h =
    none_fails p xs (
      sym (any-sort_desc comes_after (λ x. not (p x)) xs) ∙ All-hold p (sort_desc comes_after xs) h)

start_asym : (a b : Span) → starts_after a b ≡ true → starts_after b a ≡ false
start_asym a b h = ground arith

-- What is kept of the matches has no two that overlap, and is sorted by the start; and every match is
-- kept or overlaps one that is kept and begins before it, or where it begins and is not shorter.
pub kept_of-IsChoice :
    (spans : List Span)
    → Pairwise AreApart (kept_of spans)
      × IsDescending starts_after (kept_of spans)
      × All (λ x. any (settles x) (kept_of spans) ≡ true) spans
unfolding kept_of
kept_of-IsChoice spans =
    let sorted = sort_desc comes_after spans in
    let chosen = keep_from [] sorted in
    (
      Pairwise-sort_desc starts_after AreApart apart_sym chosen (keep_from-apart [] sorted tt),
      sort_desc-IsDescending starts_after start_asym chosen,
      sorted-holds (λ x. any (settles x) (sort_desc starts_after chosen)) spans
          (IsSettled-sorted chosen sorted (
            keep_from-settles [] sorted (nothing_before sorted)
              (descending-IsBefore sorted (sort_desc-IsDescending comes_after after_asym spans)))),
    )
