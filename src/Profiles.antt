-- ===== src/Profiles.antt =====
-- storage/profiles.py, `resolve_profile`: a stored profile merged over the defaults. The numeric guard,
-- whose values are floats, is left out.
pub mod Laws
pub mod Tests
use mcp_assist_memory.Prelude.{
  Text, codes, Bool, true, false, Option, none, some, List, [], ◌∷◌, mem_text, if◌then◌else◌,
}
use mcp_assist_memory.Json.{Json, str, Fields, end, field, get_field, set_field}

abbrev pub default_profile : Fields
default_profile = field (codes "convention_stmt") (str (codes "V1")) (
    field (codes "advisory_mode") (str (codes "off")) (
      field (codes "arg_strictness") (str (codes "control")) (
        field (codes "remedy_errors") (str (codes "on")) (
          field (codes "compact_acks") (str (codes "off")) (
            field (codes "intent_gate") (str (codes "off"))
              (field (codes "tier2") (str (codes "off")) end))))))

abbrev on_off : List Text
on_off = codes "on" ∷ codes "off" ∷ []

-- `_VALID`
abbrev pub valid : List (Text × List Text)
valid =
    (codes "convention_stmt", codes "V0" ∷ codes "V1" ∷ codes "V2" ∷ codes "V3" ∷ [])
    ∷ (codes "advisory_mode", codes "full" ∷ codes "minimal" ∷ codes "off" ∷ [])
    ∷ (codes "arg_strictness", codes "hint" ∷ codes "plain" ∷ codes "control" ∷ [])
    ∷ (codes "remedy_errors", on_off)
    ∷ (codes "compact_acks", on_off)
    ∷ (codes "intent_gate", on_off)
    ∷ (codes "tier2", on_off)
    ∷ []

-- one turn of the first loop: a text that is a valid choice replaces the default
abbrev pub choose : Text → List Text → Option Json → Fields → Fields
choose k choices (some (str s)) resolved =
    if mem_text s choices then set_field k (str s) resolved else resolved
choose k choices _ resolved = resolved

unfoldable pub choose_all : List (Text × List Text) → Fields → Fields → Fields
choose_all [] raw resolved = resolved
choose_all ((k, choices) ∷ vs) raw resolved =
    choose_all vs raw (choose k choices (get_field k raw) resolved)

abbrev pub passed_through : List Text
passed_through =
    codes "claim_staleness_hours" ∷ codes "clinical" ∷ codes "skill_validity_hours" ∷ []

-- one turn of the second loop
abbrev pub pass : Text → Option Json → Fields → Fields
pass k none resolved = resolved
pass k (some v) resolved = set_field k v resolved

unfoldable pub pass_all : List Text → Fields → Fields → Fields
pass_all [] raw resolved = resolved
pass_all (k ∷ ks) raw resolved = pass_all ks raw (pass k (get_field k raw) resolved)

unfoldable pub resolve_profile : Fields → Fields
unfolding choose_all pass_all
resolve_profile raw = pass_all passed_through raw (choose_all valid raw default_profile)
