-- ===== src/Shared/Strings.antt =====
-- Python's `str` as a list of code points, with the methods that the program calls.
use Prim.Native.Nat.{ℕ, suc, ◌+◌, ◌-◌}
use Prim.Native.Char.{code}
use Prim.Native.String.{String}
use mathlib.Core.Path.{◌≡◌, refl}
use native.Mathlib.Omega.{arith}
use mathlib.Core.Bool.{Bool, true, false, ◌&&◌, ◌||◌, not}
use mathlib.Core.List.{List, [], ◌∷◌, ◌++◌, map, reverse}
use mathlib.Core.Option.{Option, none, some}
use stock_analyst.Shared.Tests.{if◌then◌else◌, leb, ◌==◌}
use stock_analyst.Shared.Lists.{is_empty}

abbrev pub Text : Type 0
Text = List ℕ

abbrev pub codes : String → Text
codes String.[] = []
codes (String.◌∷◌ c s) = code c ∷ codes s

-- The character classes of `re` and `str`, on ASCII.
abbrev pub is_digit : ℕ → Bool
is_digit c = leb b'0' c && leb c b'9'

abbrev pub is_alpha : ℕ → Bool
is_alpha c = (leb b'a' c && leb c b'z') || (leb b'A' c && leb c b'Z')

abbrev pub is_word : ℕ → Bool
is_word c = is_alpha c || is_digit c || c == b'_'

-- `\s`: tab, line feed, vertical tab, form feed, carriage return, the four separators, space.
abbrev pub is_space : ℕ → Bool
is_space c = (leb 9 c && leb c 13) || (leb 28 c && leb c 32)

abbrev pub lower_char : ℕ → ℕ
lower_char c = if leb b'A' c && leb c b'Z' then c + 32 else c

abbrev pub upper_char : ℕ → ℕ
upper_char c = if leb b'a' c && leb c b'z' then c - 32 else c

abbrev pub lower : Text → Text
lower = map lower_char

abbrev pub upper : Text → Text
upper = map upper_char

abbrev pub same_text : Text → Text → Bool
same_text [] [] = true
same_text [] (_ ∷ _) = false
same_text (_ ∷ _) [] = false
same_text (a ∷ s) (b ∷ t) = a == b && same_text s t

pub same_text_refl : (t : Text) → same_text t t ≡ true
same_text_refl [] = refl
same_text_refl (a ∷ t) = ground (arith, same_text_refl t)

-- The test is equality.
pub same_text→eq : (s t : Text) → same_text s t ≡ true → s ≡ t
same_text→eq [] [] h = refl
same_text→eq [] (b ∷ t) h = absurd (ground arith)
same_text→eq (a ∷ s) [] h = absurd (ground arith)
same_text→eq (a ∷ s) (b ∷ t) h = ground (arith, same_text→eq s t)

pub same_text_comm : (s t : Text) → same_text s t ≡ same_text t s
same_text_comm [] [] = refl
same_text_comm [] (b ∷ t) = refl
same_text_comm (a ∷ s) [] = refl
same_text_comm (a ∷ s) (b ∷ t) = ground (arith, same_text_comm s t)

-- `s.startswith(p)`
abbrev pub starts_with : Text → Text → Bool
starts_with s [] = true
starts_with [] (_ ∷ _) = false
starts_with (a ∷ s) (b ∷ p) = a == b && starts_with s p

-- `p in s`
abbrev pub has_substring : Text → Text → Bool
has_substring p [] = is_empty p
has_substring p (a ∷ s) = starts_with (a ∷ s) p || has_substring p s

-- `s.find(p, i)`, as the number of code points to skip from the front of `s`.
abbrev pub find_from : Text → Text → Option ℕ
find_from p [] = if is_empty p then some 0 else none
find_from p (a ∷ s) =
    let later = find_from p s in
    if starts_with (a ∷ s) p then some 0 else elim later [ none ↦ none | some i ↦ some (suc i) ]

-- `s.rfind(c)` for one code point; `none` is -1.
abbrev pub rfind_char : ℕ → Text → Option ℕ
rfind_char c [] = none
rfind_char c (a ∷ s) = elim (rfind_char c s) [
  | some i ↦ some (suc i)
  | none ↦ if a == c then some 0 else none
]

abbrev pub lstrip : Text → Text
lstrip [] = []
lstrip (a ∷ s) = let rest = lstrip s in if is_space a then rest else a ∷ s

-- `s.strip()`
abbrev pub strip : Text → Text
strip s = reverse (lstrip (reverse (lstrip s)))

-- `s.replace(c, d)` for one code point.
abbrev pub replace_char : ℕ → ℕ → Text → Text
replace_char c d = map (λ a. if a == c then d else a)

-- `sep.join(parts)`
abbrev pub join : Text → List Text → Text
join sep [] = []
join sep (p ∷ []) = p
join sep (p ∷ q ∷ ps) = p ++ (sep ++ join sep (q ∷ ps))

-- `len(s.split())`: the number of maximal runs without white space. The flag says that the
-- scan stands inside a run.
abbrev pub words_from : Bool → Text → ℕ
words_from inside [] = 0
words_from inside (a ∷ s) =
    let rest = words_from (not (is_space a)) s in if is_space a || inside then rest else suc rest

abbrev pub word_count : Text → ℕ
word_count = words_from false
