-- ===== src/Sanitize.antt =====
-- storage/sanitize.py: the scrubbing of written text, and the markers that wrap stored text where it
-- is read.
pub mod Wrap
pub mod Scrub
pub mod Smuggle
pub mod Tests
use mcp_assist_memory.Prelude.{
  ℕ, zero, suc, ◌-◌, Text, codes, Bool, true, false, Option, none, some, List, [], ◌∷◌, ◌++◌, ◌&&◌,
  ◌||◌, leb, ◌==◌, length, text_eq, if◌then◌else◌,
}
use mcp_assist_memory.Json.{
  Json, null, bool, int, float, str, arr, obj, Items, nil, cons, Fields, end, field, set_field,
}
use mcp_assist_memory.Regex.{is_space, fold}

abbrev pub untrusted_open : Text
untrusted_open = codes "<<<UNTRUSTED_DATA>>>"

abbrev pub untrusted_close : Text
untrusted_close = codes "<<<END>>>"

-- A prefix taken off: as it stands, and up to case.
unfoldable pub after : Text → Text → Option Text
after [] s = some s
after (d ∷ p) [] = none
after (d ∷ p) (c ∷ s) = if d == c then after p s else none

unfoldable pub after_folded : Text → Text → Option Text
unfolding fold
after_folded [] s = some s
after_folded (d ∷ p) [] = none
after_folded (d ∷ p) (c ∷ s) = if d == fold c then after_folded p s else none

unfoldable pub skip_blanks : Text → Text
skip_blanks [] = []
skip_blanks (c ∷ s) = if is_space c then skip_blanks s else c ∷ s

infixl 5 ◌>>=◌
abbrev ◌>>=◌ : {A B : Type 0} → Option A → (A → Option B) → Option B
none >>= f = none
some a >>= f = f a

-- One alternative of `_DELIM_RE` at a position: what follows the match.
unfoldable pub delim_after : Text → Text → Option Text
delim_after name s = do
  s₁ ← after (codes "<<<") s
  s₂ ← after_folded name (skip_blanks s₁)
  after (codes ">>>") (skip_blanks s₂)

-- A match of `_DELIM_RE` with its replacement by `_escape_delim`, and the rest of the text.
unfoldable pub delim : Text → Option (Text × Text)
delim s = elim (delim_after (codes "untrusted_data") s) [
  | some rest ↦ some (codes "[[UNTRUSTED_DATA]]", rest)
  | none ↦ elim (delim_after (codes "end") s) [
    | some rest ↦ some (codes "[[END]]", rest)
    | none ↦ none
  ]
]

-- `_DELIM_RE.sub(_escape_delim, text)`: after a match the characters that it covers are skipped.
unfoldable pub escape_delims : ℕ → Text → Text
escape_delims skip [] = []
escape_delims (suc n) (c ∷ s) = escape_delims n s
escape_delims zero (c ∷ s) = elim (delim (c ∷ s)) [
  | some (replacement, rest) ↦ replacement ++ escape_delims (length s - length rest) s
  | none ↦ c ∷ escape_delims zero s
]

-- `_CTRL_RE`
abbrev pub is_control : ℕ → Bool
is_control c = leb c 8 || c == 11 || c == 12 || (leb 14 c && leb c 31)

-- `_CTRL_RE.sub("", text)`
unfoldable pub strip_controls : Text → Text
strip_controls [] = []
strip_controls (c ∷ s) = if is_control c then strip_controls s else c ∷ strip_controls s

unfoldable pub scrub_text : Text → Text
unfolding escape_delims strip_controls delim delim_after after after_folded skip_blanks
scrub_text text = strip_controls (escape_delims zero text)

-- Two keys that scrub to one text leave one entry, with the later value.
unfoldable mutual
  unfolding scrub_text set_field

  pub sanitize : Json → Json
  sanitize null = null
  sanitize (bool b) = bool b
  sanitize (int s n) = int s n
  sanitize (float b) = float b
  sanitize (str s) = str (scrub_text s)
  sanitize (arr vs) = arr (sanitize_items vs)
  sanitize (obj fs) = obj (sanitize_fields end fs)

  pub sanitize_items : Items → Items
  sanitize_items nil = nil
  sanitize_items (cons v vs) = cons (sanitize v) (sanitize_items vs)

  pub sanitize_fields : Fields → Fields → Fields
  sanitize_fields done end = done
  sanitize_fields done (field k v fs) =
      sanitize_fields (set_field (scrub_text k) (sanitize v) done) fs

unfoldable pub wrap_untrusted : Text → Text
wrap_untrusted text = untrusted_open ++ (text ++ untrusted_close)

unfoldable mutual
  unfolding wrap_untrusted

  pub wrap_value : Json → Json
  wrap_value null = null
  wrap_value (bool b) = bool b
  wrap_value (int s n) = int s n
  wrap_value (float b) = float b
  wrap_value (str s) = str (wrap_untrusted s)
  wrap_value (arr vs) = arr (wrap_items vs)
  wrap_value (obj fs) = obj (wrap_fields fs)

  pub wrap_items : Items → Items
  wrap_items nil = nil
  wrap_items (cons v vs) = cons (wrap_value v) (wrap_items vs)

  pub wrap_fields : Fields → Fields
  wrap_fields end = end
  wrap_fields (field k v fs) = field k (wrap_value v) (wrap_fields fs)

-- `(.*)` before the closing marker; `$` also matches before a line feed that ends the text.
unfoldable pub before_close : Text → Option Text
unfolding text_eq
before_close [] = none
before_close (c ∷ s) =
    if text_eq (c ∷ s) untrusted_close
    then some []
    else if text_eq (c ∷ s) (untrusted_close ++ 10 ∷ [])
    then some []
    else (do x ← before_close s; some (c ∷ x))

abbrev unwrapped : Text → Option Text → Text
unwrapped text none = text
unwrapped text (some x) = x

unfoldable pub strip_untrusted : Text → Text
unfolding after before_close
strip_untrusted text = unwrapped text (do rest ← after untrusted_open text; before_close rest)

unfoldable mutual
  unfolding strip_untrusted

  pub unwrap_value : Json → Json
  unwrap_value null = null
  unwrap_value (bool b) = bool b
  unwrap_value (int s n) = int s n
  unwrap_value (float b) = float b
  unwrap_value (str s) = str (strip_untrusted s)
  unwrap_value (arr vs) = arr (unwrap_items vs)
  unwrap_value (obj fs) = obj (unwrap_fields fs)

  pub unwrap_items : Items → Items
  unwrap_items nil = nil
  unwrap_items (cons v vs) = cons (unwrap_value v) (unwrap_items vs)

  pub unwrap_fields : Fields → Fields
  unwrap_fields end = end
  unwrap_fields (field k v fs) = field k (unwrap_value v) (unwrap_fields fs)
