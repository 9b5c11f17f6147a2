-- ===== src/GateCache.antt =====
-- storage/gate_cache.py: the cache of gate inputs, with versions and a time to live. Times are
-- natural numbers of the monotonic clock. The listener's connection is not modelled: of it remain the
-- payloads it delivers and the reload after each connection.
pub mod Laws
pub mod Tests
use mcp_assist_memory.Prelude.{
  ℕ, zero, suc, ◌+◌, ◌*◌, ◌-◌, Text, codes, Bool, true, false, not, Option, none, some, List, [],
  ◌∷◌, ◌&&◌, ◌||◌, ltb, leb, ◌==◌, text_eq, keep, if◌then◌else◌,
}

-- `(stored_at, version, value)`, with the namespace it stands under
pub record Entry (A : Type 0) : Type 0 where
  pub namespace : Text
  pub stored_at : ℕ
  pub version : ℕ
  pub value : A

pub record GateCache (A : Type 0) : Type 0 where
  pub ttl : ℕ
  pub entries : List (Entry A)
  pub version : ℕ
  pub listener_alive : Bool

-- `payload.partition(":")`: what is before the first colon, and what is after it
abbrev cons_first : ℕ → Text × Text → Text × Text
cons_first c (a, b) = (c ∷ a, b)

unfoldable pub partition : Text → Text × Text
partition [] = ([], [])
partition (c ∷ s) = let rest = partition s in if c == 58 then ([], s) else cons_first c rest

abbrev is_digit : ℕ → Bool
is_digit d = leb 48 d && leb d 57

-- Digits, with single underscores between them: whether an underscore came last, the value so far.
digits_from : Bool → ℕ → Text → Option ℕ
digits_from under acc [] = if under then none else some acc
digits_from under acc (d ∷ s) =
    let bar = d == 95 in
    let rest = digits_from bar (if bar then acc else acc * 10 + (d - 48)) s in
    if is_digit d || (bar && not under) then rest else none

digits : Text → Option ℕ
digits [] = none
digits (d ∷ s) = if is_digit d then digits_from false (d - 48) s else none

unsigned : Text → Option ℕ
unsigned [] = none
unsigned (c ∷ s) = if c == 43 then digits s else digits (c ∷ s)

abbrev is_blank : ℕ → Bool
is_blank c = (c == 32) || (leb 9 c && leb c 13) || (leb 28 c && leb c 31)

skip_blanks : Text → Text
skip_blanks [] = []
skip_blanks (c ∷ s) = if is_blank c then skip_blanks s else c ∷ s

blank_after : Text → Text
blank_after [] = []
blank_after (c ∷ s) = elim (blank_after s) [
  | [] ↦ if is_blank c then [] else c ∷ []
  | d ∷ t ↦ c ∷ d ∷ t
]

-- `int(s)` on ASCII, for a result that is not negative: a negative version is below every version of
-- the cache, and is treated like a payload that does not parse.
unfoldable pub version_of : Text → Option ℕ
unfolding digits digits_from unsigned skip_blanks blank_after
version_of s = unsigned (skip_blanks (blank_after s))

abbrev max_of : ℕ → ℕ → ℕ
max_of a b = if ltb a b then b else a

-- `version or 0`
abbrev or_zero : Option ℕ → ℕ
or_zero none = 0
or_zero (some n) = n

-- `namespace or None`
abbrev pub or_none : Text → Option Text
or_none [] = none
or_none (c ∷ s) = some (c ∷ s)

module _ {A : Type 0} where
  abbrev named : Text → Entry A → Bool
  named ns e = text_eq ns e.namespace

  -- `self._entries.get(namespace)`
  unfoldable pub lookup : Text → List (Entry A) → Option (Entry A)
  lookup ns [] = none
  lookup ns (e ∷ es) = if named ns e then some e else lookup ns es

  -- `self._entries.pop(namespace, None)`
  unfoldable pub pop : Text → List (Entry A) → List (Entry A)
  unfolding keep
  pop ns es = keep (λ e. not (named ns e)) es

  abbrev pub with_entries : List (Entry A) → GateCache A → GateCache A
  with_entries es c = record {
    ttl = c.ttl;
    entries = es;
    version = c.version;
    listener_alive = c.listener_alive;
  }

  -- the value of `get`, and the cache after it: an expired entry is dropped
  abbrev pub get_hit : ℕ → Text → GateCache A → Option (Entry A) → Option A × GateCache A
  get_hit now ns c none = (none, c)
  get_hit now ns c (some e) =
      if ltb e.version c.version
      then (none, c)
      else if ltb (e.stored_at + c.ttl) now
      then (none, with_entries (pop ns c.entries) c)
      else (some e.value, c)

  unfoldable pub get : ℕ → Text → GateCache A → Option A × GateCache A
  get now ns c = get_hit now ns c (lookup ns c.entries)

  unfoldable pub put : ℕ → Text → A → GateCache A → GateCache A
  put now ns v c =
      with_entries
        (record { namespace = ns; stored_at = now; version = c.version; value = v }
          ∷ pop ns c.entries)
        c

  unfoldable pub invalidate : Option Text → GateCache A → GateCache A
  invalidate none c = with_entries [] c
  invalidate (some ns) c = with_entries (pop ns c.entries) c

  abbrev pub set_version : ℕ → GateCache A → GateCache A
  set_version n c = record {
    ttl = c.ttl;
    entries = c.entries;
    version = n;
    listener_alive = c.listener_alive;
  }

  unfoldable pub bump_version : Option ℕ → GateCache A → GateCache A
  bump_version version c = set_version (max_of (c.version + 1) (or_zero version)) c

  abbrev pub apply_version : Option ℕ → Text → GateCache A → Bool × GateCache A
  apply_version none ns c = (false, c)
  apply_version (some n) ns c =
      if leb n c.version then (false, c) else (true, invalidate (or_none ns) (set_version n c))

  unfoldable pub apply_notification : Text → GateCache A → Bool × GateCache A
  apply_notification payload c =
      let parts = partition payload in apply_version (version_of parts.0) parts.1 c

  -- the beginning of `_listen_once`, once the listener is added
  unfoldable pub reconnect : GateCache A → GateCache A
  reconnect c =
      let d = bump_version none (invalidate none c) in
      record { ttl = d.ttl; entries = d.entries; version = d.version; listener_alive = true }

  -- the `finally` of `_listen_once`
  unfoldable pub disconnect : GateCache A → GateCache A
  disconnect c = record {
    ttl = c.ttl;
    entries = c.entries;
    version = c.version;
    listener_alive = false;
  }
