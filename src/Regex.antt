-- ===== src/Regex.antt =====
-- The part of Python's `re` that the program uses: a backtracking matcher that lists the ends of the
-- matches at a position in the order of preference, `search` and `sub`. A text is read as ASCII with
-- the Unicode blanks and the four letters that fold into ASCII under `re.IGNORECASE`.
use mcp_assist_memory.Prelude.{
  ℕ, zero, suc, Text, codes, Bool, true, false, not, Option, none, some, List, [], ◌∷◌, ◌++◌, ◌&&◌,
  ◌||◌, String, ltb, leb, ◌==◌, length, lower_code, if◌then◌else◌,
}

pub data Regex : Type 0 where
  -- one character of a class
  one : (ℕ → Bool) → Regex
  empty : Regex
  seq : Regex → Regex → Regex
  -- ordered choice
  alt : Regex → Regex → Regex
  -- greedy repetition
  star : Regex → Regex
  -- `\b`
  boundary : Regex
  -- `(?=r)`
  ahead : Regex → Regex
  -- `(?!c)` and `(?<!c)` for one character
  not_ahead : (ℕ → Bool) → Regex
  not_behind : (ℕ → Bool) → Regex

-- a position: the character before it, and the rest of the text
pub record Cursor : Type 0 where
  pub prev : Option ℕ
  pub rest : Text

-- `\d`, `\w`, `\s` and the folding of case
abbrev pub is_digit : ℕ → Bool
is_digit c = leb 48 c && leb c 57

abbrev pub is_word : ℕ → Bool
is_word c = is_digit c || (leb 97 c && leb c 122) || (leb 65 c && leb c 90) || (c == 95)

abbrev pub is_space : ℕ → Bool
is_space c =
    (leb 9 c && leb c 13)
    || (leb 28 c && leb c 32)
    || c == 0x85
    || c == 0xa0
    || c == 0x1680
    || (leb 0x2000 c && leb c 0x200a)
    || c == 0x2028
    || c == 0x2029
    || c == 0x202f
    || c == 0x205f
    || c == 0x3000

unfoldable pub fold : ℕ → ℕ
unfolding lower_code
fold c =
    if c == 0x17f
    then 115
    else if c == 0x130
    then 105
    else if c == 0x131
    then 105
    else if c == 0x212a
    then 107
    else lower_code c

abbrev word_at : Option ℕ → Bool
word_at none = false
word_at (some c) = is_word c

abbrev next : Text → Option ℕ
next [] = none
next (c ∷ s) = some c

abbrev xor : Bool → Bool → Bool
xor true b = not b
xor false b = b

abbrev holds : (ℕ → Bool) → Option ℕ → Bool
holds p none = false
holds p (some c) = p c

abbrev step : (ℕ → Bool) → Text → List Cursor
step p [] = []
step p (c ∷ s) = if p c then record { prev = some c; rest = s } ∷ [] else []

-- every end of the second matcher from every end of the first
unfoldable pub chain : (Cursor → List Cursor) → List Cursor → List Cursor
chain f [] = []
chain f (c ∷ cs) = f c ++ chain f cs

-- A round that consumes nothing is not repeated, so the length of the text is fuel enough.
unfoldable pub repeat : ℕ → (Cursor → List Cursor) → Cursor → List Cursor
unfolding chain
repeat zero f c = c ∷ []
repeat (suc fuel) f c =
    chain (λ d. elim (ltb (length d.rest) (length c.rest)) [ true ↦ repeat fuel f d | false ↦ [] ])
      (f c)
    ++ (c ∷ [])

unfoldable pub run : Regex → Cursor → List Cursor
unfolding chain repeat
run (one p) c = step p c.rest
run empty c = c ∷ []
run (seq r s) c = chain (run s) (run r c)
run (alt r s) c = run r c ++ run s c
run (star r) c = repeat (length c.rest) (run r) c
run boundary c = if xor (word_at c.prev) (word_at (next c.rest)) then c ∷ [] else []
run (ahead r) c = elim (run r c) [ [] ↦ [] | _ ∷ _ ↦ c ∷ [] ]
run (not_ahead p) c = if holds p (next c.rest) then [] else c ∷ []
run (not_behind p) c = if holds p c.prev then [] else c ∷ []

-- `rx.search(text)`
unfoldable pub search_from : Regex → Option ℕ → Text → Bool
unfolding run
search_from r prev [] = elim (run r (record { prev = prev; rest = [] })) [
  | [] ↦ false
  | _ ∷ _ ↦ true
]
search_from r prev (c ∷ s) =
    let later = search_from r (some c) s in
    elim (run r (record { prev = prev; rest = c ∷ s })) [ [] ↦ later | _ ∷ _ ↦ true ]

unfoldable pub matches : Regex → Text → Bool
unfolding search_from fold
matches r text = search_from r none text

-- What patterns are written with.
abbrev pub plus : Regex → Regex
plus r = seq r (star r)

abbrev pub optional : Regex → Regex
optional r = alt r empty

abbrev pub char : ℕ → Regex
char c = one (λ d. c == d)

-- a literal, and a literal in lower case under `re.IGNORECASE`
abbrev pub literal : Text → Regex
literal [] = empty
literal (c ∷ s) = seq (char c) (literal s)

abbrev pub folded : Text → Regex
folded [] = empty
folded (c ∷ s) = seq (one (λ d. c == fold d)) (folded s)

abbrev pub word : String → Regex
word s = folded (codes s)

abbrev pub lit : String → Regex
lit s = literal (codes s)

abbrev pub blanks : Regex
blanks = star (one is_space)

abbrev pub blanks_plus : Regex
blanks_plus = plus (one is_space)

abbrev pub times : ℕ → Regex → Regex
times zero r = empty
times (suc n) r = seq r (times n r)

-- `(?:a|b|…)` of literals under `re.IGNORECASE`; with no choice it matches nowhere
abbrev pub words : List String → Regex
words [] = one (λ _. false)
words (s ∷ []) = word s
words (s ∷ t ∷ ss) = alt (word s) (words (t ∷ ss))
