-- ===== src/Shared/Regex.antt =====
-- The part of Python's `re` that the program uses: a backtracking matcher over code points.
-- Repetition is of one character class, as in every pattern of the program, so the matcher
-- recurs on the pattern and on the text, and needs no fuel.
use Prim.Native.Nat.{ℕ, zero, suc, ◌+◌, ◌-◌}
use mathlib.Core.Bool.{Bool, true, false, ◌&&◌, ◌||◌, not}
use mathlib.Core.List.{List, [], ◌∷◌, ◌++◌}
use mathlib.Core.Option.{Option, none, some}
use stock_analyst.Shared.Tests.{if◌then◌else◌, ◌==◌}
use stock_analyst.Shared.Lists.{length, take, drop, any}
use stock_analyst.Shared.Strings.{Text, is_word, lower_char}

abbrev pub Class : Type 0
Class = ℕ → Bool

pub data Regex : Type 0 where
  -- one character of a class
  one : Class → Regex
  -- `c{lo,lo+extra}`, greedy; without a bound if `extra` is `none`
  repeat : Class → ℕ → Option ℕ → Regex
  -- `c*?`
  lazy : Class → Regex
  seq : Regex → Regex → Regex
  alt : Regex → Regex → Regex
  -- `(?:r)?`, greedy
  opt : Regex → Regex
  -- `(r)`, by number
  group : ℕ → Regex → Regex
  -- `\b`, `^` without MULTILINE, `^` with it, `$` without it, `$` with it
  boundary start line_start end line_end : Regex
  -- `(?<=[...])` and `(?<![...])`
  after not_after : Class → Regex

-- Where the matcher stands: the code point before, the rest, and the groups so far.
pub record Cursor : Type 0 where
  pub before : Option ℕ
  pub rest : Text
  pub groups : List (ℕ × Text)

abbrev last_code : Option ℕ → Text → Option ℕ
last_code o [] = o
last_code o (a ∷ s) = last_code (some a) s

abbrev in_class : Class → Option ℕ → Bool
in_class c none = false
in_class c (some a) = c a

abbrev head_code : Text → Option ℕ
head_code [] = none
head_code (a ∷ _) = some a

abbrev at_boundary : Cursor → Bool
at_boundary s =
    let l = in_class is_word s.before in
    let r = in_class is_word (head_code s.rest) in (l && not r) || (not l && r)

abbrev is_newline : ℕ → Bool
is_newline c = c == 10

-- A repetition takes what it can, then gives back.
greedy :
    Class
    → ℕ
    → Option ℕ
    → Option ℕ
    → Text
    → List (ℕ × Text)
    → (Cursor → Option Cursor)
    → Option Cursor
greedy c zero (some zero) b t gs k = k (record { before = b; rest = t; groups = gs })
greedy c zero extra b [] gs k = k (record { before = b; rest = []; groups = gs })
greedy c zero extra b (a ∷ t) gs k = elim (c a) [
  | false ↦ k (record { before = b; rest = a ∷ t; groups = gs })
  | true ↦
      elim (greedy c zero (elim extra [ none ↦ none | some n ↦ some (n - 1) ]) (some a) t gs k) [
        | some s ↦ some s
        | none ↦ k (record { before = b; rest = a ∷ t; groups = gs })
      ]
]
greedy c (suc lo) extra b [] gs k = none
greedy c (suc lo) extra b (a ∷ t) gs k = elim (c a) [
  | false ↦ none
  | true ↦ greedy c lo extra (some a) t gs k
]

lazily : Class → Option ℕ → Text → List (ℕ × Text) → (Cursor → Option Cursor) → Option Cursor
lazily c b [] gs k = k (record { before = b; rest = []; groups = gs })
lazily c b (a ∷ t) gs k = elim (k (record { before = b; rest = a ∷ t; groups = gs })) [
  | some s ↦ some s
  | none ↦ elim (c a) [ true ↦ lazily c (some a) t gs k | false ↦ none ]
]

abbrev holds : Bool → Cursor → (Cursor → Option Cursor) → Option Cursor
holds true s k = k s
holds false s k = none

one_of : Class → Cursor → (Cursor → Option Cursor) → Option Cursor
one_of c s k = elim s.rest [
  | [] ↦ none
  | a ∷ t ↦ elim (c a) [
    | true ↦ k (record { before = some a; rest = t; groups = s.groups })
    | false ↦ none
  ]
]

-- The text between two cursors.
abbrev consumed : Cursor → Cursor → Text
consumed s e = take (length s.rest - length e.rest) s.rest

match_then : Regex → Cursor → (Cursor → Option Cursor) → Option Cursor
unfolding greedy lazily one_of
match_then (one c) s k = one_of c s k
match_then (repeat c lo extra) s k = greedy c lo extra s.before s.rest s.groups k
match_then (lazy c) s k = lazily c s.before s.rest s.groups k
match_then (seq p q) s k = match_then p s (λ s'. match_then q s' k)
match_then (alt p q) s k = elim (match_then p s k) [ some e ↦ some e | none ↦ match_then q s k ]
match_then (opt p) s k = elim (match_then p s k) [ some e ↦ some e | none ↦ k s ]
match_then (group n p) s k =
    match_then p s (λ e. k (record e { groups = (n, consumed s e) ∷ e.groups }))
match_then boundary s k = holds (at_boundary s) s k
match_then start s k = elim s.before [ none ↦ k s | some _ ↦ none ]
match_then line_start s k = elim s.before [ none ↦ k s | some a ↦ holds (is_newline a) s k ]
match_then end s k = elim s.rest [
  | [] ↦ k s
  | a ∷ t ↦ elim t [ [] ↦ holds (is_newline a) s k | _ ∷ _ ↦ none ]
]
match_then line_end s k = elim s.rest [ [] ↦ k s | a ∷ _ ↦ holds (is_newline a) s k ]
match_then (after c) s k = holds (in_class c s.before) s k
match_then (not_after c) s k = holds (not (in_class c s.before)) s k

-- A match: its text and its groups.
pub record Match : Type 0 where
  pub text : Text
  pub groups : List (ℕ × Text)

abbrev cursor : Option ℕ → Text → Cursor
cursor b t = record { before = b; rest = t; groups = [] }

match_at : Regex → Option ℕ → Text → Option Match
unfolding match_then
match_at p b t = elim (match_then p (cursor b t) (λ e. some e)) [
  | none ↦ none
  | some e ↦ some (record { text = consumed (cursor b t) e; groups = e.groups })
]

abbrev at_end : Cursor → Option Cursor
at_end e = elim e.rest [ [] ↦ some e | _ ∷ _ ↦ none ]

abbrev pub is_some {ℓ} : {A : Type ℓ} → Option A → Bool
is_some none = false
is_some (some _) = true

-- `p.match(t)`
unfoldable pub match : Regex → Text → Option Match
unfolding match_at
match p t = match_at p none t

-- `p.fullmatch(t) is not None`
unfoldable pub full_matches : Regex → Text → Bool
unfolding match_then
full_matches p t = is_some (match_then p (cursor none t) at_end)

-- The matches from left to right, without overlap, each with its start; `skip` code points lie
-- in the last one. Exact for patterns that match no empty text, as all of the program's are.
scan : Regex → ℕ → ℕ → Option ℕ → Text → List (ℕ × Match)
unfolding match_at
scan p i skip b [] = []
scan p i (suc skip) b (a ∷ t) = scan p (i + 1) skip (some a) t
scan p i zero b (a ∷ t) = elim (match_at p b (a ∷ t)) [
  | none ↦ scan p (i + 1) 0 (some a) t
  | some m ↦ (i, m) ∷ scan p (i + 1) (length m.text - 1) (some a) t
]

-- `p.finditer(t)`, with the starts
unfoldable pub find_iter : Regex → Text → List (ℕ × Match)
unfolding scan
find_iter p t = scan p 0 0 none t

-- `p.search(t)`, with the start
unfoldable pub search_from : Regex → ℕ → Option ℕ → Text → Option (ℕ × Match)
unfolding match_at
search_from p i b [] = elim (match_at p b []) [ none ↦ none | some m ↦ some (i, m) ]
search_from p i b (a ∷ t) = elim (match_at p b (a ∷ t)) [
  | none ↦ search_from p (i + 1) (some a) t
  | some m ↦ some (i, m)
]

unfoldable pub search_in : Regex → Text → Option (ℕ × Match)
unfolding search_from
search_in p t = search_from p 0 none t

-- `p.search(t) is not None`
unfoldable pub occurs_in : Regex → Text → Bool
unfolding search_in
occurs_in p t = is_some (search_in p t)

-- The pieces of `t` that the matches leave, from position `i` on.
pieces : ℕ → List (ℕ × Match) → Text → List Text
pieces i [] t = t ∷ []
pieces i ((j, m) ∷ ms) t =
    take (j - i) t ∷ pieces (j + length m.text) ms (drop (j - i + length m.text) t)

-- `p.split(t)`, for a pattern with no group
unfoldable pub split : Regex → Text → List Text
unfolding pieces find_iter
split p t = pieces 0 (find_iter p t) t

abbrev concat : List Text → Text
concat [] = []
concat (x ∷ xs) = x ++ concat xs

-- `p.sub("", t)`
unfoldable pub strip_matches : Regex → Text → Text
unfolding split
strip_matches p t = concat (split p t)

-- `m.group(n)`
abbrev pub group_text : ℕ → List (ℕ × Text) → Option Text
group_text n [] = none
group_text n ((i, t) ∷ gs) = let rest = group_text n gs in if i == n then some t else rest

-- Notation for patterns.
abbrev pub exactly : ℕ → Class
exactly c a = a == c

-- A letter under IGNORECASE: `c` is lower case.
abbrev pub exactly_i : ℕ → Class
exactly_i c a = lower_char a == c

abbrev pub among : Text → Class
among cs a = any (λ c. c == a) cs

abbrev pub not_among : Text → Class
not_among cs a = not (any (λ c. c == a) cs)

abbrev pub star : Class → Regex
star c = repeat c 0 none

abbrev pub plus : Class → Regex
plus c = repeat c 1 none

abbrev pub maybe : Class → Regex
maybe c = repeat c 0 (some 1)

abbrev pub exact_count : Class → ℕ → Regex
exact_count c n = repeat c n (some 0)

-- The empty pattern.
abbrev pub empty : Regex
empty = repeat (λ _. false) 0 (some 0)

abbrev pub literal : Text → Regex
literal [] = empty
literal (c ∷ []) = one (exactly c)
literal (c ∷ d ∷ cs) = seq (one (exactly c)) (literal (d ∷ cs))

-- A word under IGNORECASE, written in lower case.
abbrev pub literal_i : Text → Regex
literal_i [] = empty
literal_i (c ∷ []) = one (exactly_i c)
literal_i (c ∷ d ∷ cs) = seq (one (exactly_i c)) (literal_i (d ∷ cs))

abbrev pub any_of : Regex → List Regex → Regex
any_of p [] = p
any_of p (q ∷ qs) = alt p (any_of q qs)

abbrev pub chain : Regex → List Regex → Regex
chain p [] = p
chain p (q ∷ qs) = seq p (chain q qs)
