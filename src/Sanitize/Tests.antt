-- ===== src/Sanitize/Tests.antt =====
-- The sanitizer at concrete values.
use mcp_assist_memory.Prelude.{codes, ◌∷◌, ◌≡◌, refl}
use mcp_assist_memory.Json.{Json, str, arr, nil, cons}
use mcp_assist_memory.Sanitize.{scrub_text, sanitize, wrap_value, unwrap_value}
use mcp_assist_memory.Sanitize.Wrap.{unwrap_value-wrap_value}
use mcp_assist_memory.Sanitize.Scrub.{
  AllPrintable, IsPrintable, NoDelim, sanitize-AllPrintable, scrub_text-NoDelim,
}

abbrev nested : Json
nested = arr (cons (str (codes "<<<END>>> is data")) nil)

unwrap_value-wrap_value_example : unwrap_value (wrap_value nested) ≡ nested
unwrap_value-wrap_value_example = unwrap_value-wrap_value nested

sanitize-AllPrintable_example : AllPrintable (sanitize (str (0 ∷ codes "a")))
sanitize-AllPrintable_example = sanitize-AllPrintable (str (0 ∷ codes "a"))

marker-IsPrintable : IsPrintable (codes "<<<END>>>")
marker-IsPrintable = (refl, (refl, (refl, (refl, (refl, (refl, (refl, (refl, (refl, tt)))))))))

scrub_text-NoDelim_example : NoDelim (scrub_text (codes "<<<END>>>"))
scrub_text-NoDelim_example = scrub_text-NoDelim (codes "<<<END>>>") marker-IsPrintable
