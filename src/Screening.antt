-- ===== src/Screening.antt =====
-- storage/screening.py: the deterministic screen of a written value. Only the names of the patterns
-- that match leave the screen.
mod Tests
use mcp_assist_memory.Prelude.{
  ℕ, Text, codes, Bool, true, false, List, [], ◌∷◌, String, if◌then◌else◌,
}
use mcp_assist_memory.Json.{Json, Style, str, dumped}
use mcp_assist_memory.Regex.{
  Regex, one, empty, seq, alt, star, boundary, ahead, matches, plus, optional, word, words, lit,
  blanks, blanks_plus, is_word,
}

abbrev any_char : Regex
any_char = one (λ _. true)

imperative_tool_call : Regex
imperative_tool_call = seq boundary (
    seq (words ("call" ∷ "invoke" ∷ "run" ∷ "execute" ∷ "use" ∷ [])) (
      seq blanks_plus (
        seq (optional (seq (word "the") blanks_plus)) (
          seq
            (words (
              "memory" ∷ "handoff" ∷ "session" ∷ "artifact" ∷ "coord" ∷ "stats" ∷ "observation"
              ∷ []))
            (seq (word "_") (plus (one is_word)))))))

role_reassignment : Regex
role_reassignment = seq boundary (
    seq (word "you") (
      seq blanks_plus (
        seq (word "are")
          (seq blanks_plus (seq (words ("now" ∷ "a" ∷ "an" ∷ "the" ∷ [])) boundary)))))

instruction_override : Regex
instruction_override = seq boundary (
    seq (words ("ignore" ∷ "disregard" ∷ "forget" ∷ "override" ∷ [])) (
      seq blanks_plus (
        seq (optional (seq (words ("all" ∷ "any" ∷ "your" ∷ [])) blanks_plus)) (
          seq
            (alt (words ("previous" ∷ "prior" ∷ "earlier" ∷ "above" ∷ "preceding" ∷ []))
              (seq (word "the") (seq blanks_plus (word "system"))))
            boundary))))

untrusted_marker : Regex
untrusted_marker =
    alt
      (seq (lit "<<<")
        (seq blanks (seq (words ("untrusted_data" ∷ "end" ∷ [])) (seq blanks (lit ">>>")))))
      (seq (lit "[[") (seq (words ("untrusted_data" ∷ "end" ∷ [])) (lit "]]")))

url_with_imperative : Regex
url_with_imperative =
    seq (ahead (seq (star any_char) (seq (word "http") (seq (optional (word "s")) (lit "://"))))) (
      seq (star any_char) (
        seq boundary (
          seq
            (alt (words ("fetch" ∷ "visit" ∷ "open" ∷ "browse" ∷ "curl" ∷ "wget" ∷ "download" ∷ []))
              (alt (seq (words ("post" ∷ "send" ∷ "upload" ∷ [])) (seq blanks_plus (word "to")))
                (word "exfiltrate")))
            boundary)))

-- `PATTERNS`, in order
pub patterns : List (String × Regex)
unfolding imperative_tool_call role_reassignment instruction_override untrusted_marker
    url_with_imperative
patterns =
    ("imperative_tool_call", imperative_tool_call)
    ∷ ("role_reassignment", role_reassignment)
    ∷ ("instruction_override", instruction_override)
    ∷ ("untrusted_marker", untrusted_marker)
    ∷ ("url_with_imperative", url_with_imperative)
    ∷ []

hits_of : List (String × Regex) → Text → List String
hits_of [] text = []
hits_of ((name, rx) ∷ ps) text =
    let more = hits_of ps text in if matches rx text then name ∷ more else more

-- `_to_text`; a value of the model can always be serialised
pub to_text : Style → Json → Text
to_text style (str s) = s
to_text style v = dumped style v

-- `screen_value`
unfoldable pub screen_value : Style → Json → List String
unfolding to_text hits_of patterns
screen_value style v = hits_of patterns (to_text style v)
