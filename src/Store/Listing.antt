-- ===== src/Store/Listing.antt =====
-- `memory_list_page` of storage/postgres.py, as far as the rows of a page. The collation of the
-- database and base64 are parameters; a limit is not negative.
pub mod Like
pub mod Sorted
pub mod Latest
pub mod Pages
pub mod Stale
pub mod Tests
use mcp_assist_memory.Prelude.{
  ℕ, Text, codes, Bool, true, false, not, Option, none, some, List, [], ◌∷◌, ◌++◌, ◌&&◌, ◌||◌, ltb,
  leb, ◌==◌, text_eq, mem_text, starts_with, keep, take, length, if◌then◌else◌, ◌≡◌, ◌≢◌,
}
use mcp_assist_memory.Errors.{Code, app_error}
use mcp_assist_memory.Result.{Result, ok, err, ◌>>=◌}
use mcp_assist_memory.Store.Rows.{Row, Table, is_live}

-- The order of keys in the database: a strict total order on texts.
pub record Collation : Type 0 where
  pub before : Text → Text → Bool
  pub irreflexive : (a : Text) → before a a ≡ false
  pub transitive : (a b c : Text) → before a b ≡ true → before b c ≡ true → before a c ≡ true
  pub total : (a b : Text) → before a b ≡ false → text_eq a b ≡ false → before b a ≡ true

-- `base64.urlsafe_b64encode` of a key and its inverse, which may fail on another text
pub record Codec : Type 0 where
  pub encode : Text → Text
  pub decode : Text → Option Text
  pub decode-encode : (key : Text) → decode (encode key) ≡ some key
  pub encode-ne-nil : (key : Text) → key ≢ [] → encode key ≢ []

-- one round of `.replace("\\", "\\\\").replace("%", "\\%").replace("_", "\\_")`
unfoldable pub escaped_code : ℕ → Text
escaped_code c =
    if c == 92
    then 92 ∷ 92 ∷ []
    else if c == 37
    then 92 ∷ 37 ∷ []
    else if c == 95
    then 92 ∷ 95 ∷ []
    else c ∷ []

unfoldable pub escape_like : Text → Text
unfolding escaped_code
escape_like [] = []
escape_like (c ∷ s) = escaped_code c ++ escape_like s

abbrev pub eat : ℕ → (Text → Bool) → Text → Bool
eat c rest [] = false
eat c rest (d ∷ s) = (c == d) && rest s

abbrev pub eat_any : (Text → Bool) → Text → Bool
eat_any rest [] = false
eat_any rest (d ∷ s) = rest s

abbrev pub is_empty : Text → Bool
is_empty [] = true
is_empty (c ∷ s) = false

unfoldable pub some_suffix : (Text → Bool) → Text → Bool
some_suffix rest [] = rest []
some_suffix rest (c ∷ s) = rest (c ∷ s) || some_suffix rest s

-- SQL's `text LIKE pattern`, with the backslash as the escape; the flag says that one was read
unfoldable pub like_from : Bool → Text → Text → Bool
unfolding some_suffix
like_from escape [] s = is_empty s
like_from true (p ∷ ps) s = eat p (like_from false ps) s
like_from false (p ∷ ps) s =
    if p == 37
    then some_suffix (like_from false ps) s
    else if p == 95
    then eat_any (like_from false ps) s
    else if p == 92
    then like_from true ps s
    else eat p (like_from false ps) s

abbrev pub like : Text → Text → Bool
like pattern s = like_from false pattern s

abbrev pub percent : Text
percent = codes "%"

pub record Query : Type 0 where
  pub namespace : Text
  pub kind : Option Text
  pub tag : Option Text
  pub prefix : Option Text
  pub include_quarantined : Bool

-- a clause that stands only where the argument is given and not empty
abbrev pub clause : Option Text → (Text → Bool) → Bool
clause none test = true
clause (some []) test = true
clause (some (c ∷ s)) test = test (c ∷ s)

-- `prefix and prefix.startswith("_meta")`
abbrev pub asks_meta : Option Text → Bool
asks_meta none = false
asks_meta (some []) = false
asks_meta (some (c ∷ s)) = starts_with (c ∷ s) (codes "_meta")

abbrev pub meta_pattern : Text
meta_pattern = codes "\\_meta/%"

-- the clauses on the key but the cursor's
unfoldable pub key_clauses : Query → Text → Bool
unfolding like_from escape_like
key_clauses q key =
    clause q.prefix (λ p. like (escape_like p ++ percent) key)
    && (asks_meta q.prefix || not (like meta_pattern key))

-- the clause of the cursor, on the key that it names
abbrev pub beyond : Collation → Option Text → Text → Bool
beyond order none key = true
beyond order (some after) key = order.before after key

-- `WHERE …`, but the cursor's clause
unfoldable pub where_clauses : Query → Row → Bool
unfolding key_clauses
where_clauses q r =
    text_eq q.namespace r.namespace
    && (clause q.kind (text_eq r.kind)
        && (clause q.tag (λ tag. mem_text tag r.tags) && key_clauses q r.key))

module _ (order : Collation) where
  unfoldable pub insert_key : Row → List Row → List Row
  insert_key r [] = r ∷ []
  insert_key r (s ∷ l) =
      if text_eq r.key s.key
      then (if leb s.revision r.revision then r ∷ l else s ∷ l)
      else if order.before r.key s.key
      then r ∷ s ∷ l
      else s ∷ insert_key r l

  -- `SELECT DISTINCT ON (key) * … ORDER BY key, revision DESC`
  unfoldable pub distinct_on_key : List Row → List Row
  unfolding insert_key
  distinct_on_key [] = []
  distinct_on_key (r ∷ t) = insert_key r (distinct_on_key t)

  abbrev pub shown : ℕ → Bool → Row → Bool
  shown now include_quarantined r = is_live now r && (include_quarantined || not r.quarantined)

  -- the live rows of a query beyond a key
  unfoldable pub live_rows : ℕ → Query → Option Text → Table → List Row
  unfolding distinct_on_key where_clauses
  live_rows now q after t =
      keep (shown now q.include_quarantined)
        (distinct_on_key (keep (λ r. where_clauses q r && beyond order after r.key) t))

  pub record Page : Type 0 where
    pub entries : List Row
    pub truncated : Bool
    pub next_cursor : Option Text

  module _ (codec : Codec) where
    -- `page[-1]`
    abbrev pub last_key : List Row → Option Text
    last_key [] = none
    last_key (r ∷ []) = some r.key
    last_key (r ∷ s ∷ l) = last_key (s ∷ l)

    abbrev pub cursor_of : Bool → Option Text → Option Text
    cursor_of true (some key) = some (codec.encode key)
    cursor_of _ _ = none

    abbrev pub decoded : Option Text → Result (Option Text)
    decoded (some key) = ok (some key)
    decoded none = err (
        app_error Code.invalid_cursor
          (some "pass the next_cursor value from the previous response, unmodified") none none)

    abbrev pub after_key : Option Text → Result (Option Text)
    after_key none = ok none
    after_key (some []) = ok none
    after_key (some (c ∷ s)) = decoded (codec.decode (c ∷ s))

    abbrev pub page_of : ℕ → List Row → Page
    page_of limit live =
        let truncated = ltb limit (length live) in
        record {
          entries = take limit live;
          truncated = truncated;
          next_cursor = cursor_of truncated (last_key (take limit live));
        }

    unfoldable pub memory_list_page : ℕ → Query → ℕ → Option Text → Table → Result Page
    unfolding live_rows
    memory_list_page now q limit cursor t =
        after_key cursor >>= λ after. ok (page_of limit (live_rows now q after t))
