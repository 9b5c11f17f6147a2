-- ===== src/Profiles/Tests.antt =====
-- Concrete profiles.
use mcp_assist_memory.Prelude.{
  codes, true, false, some, [], ◌∷◌, ◌≡◌, refl, ◌↔◌, any, starts_with, text_eq, mem_text,
}
use mcp_assist_memory.Json.{str, Fields, end, field, get_field}
use mcp_assist_memory.Gate.State.{enabled_for, exempt_key_prefixes}
use mcp_assist_memory.Profiles.{resolve_profile, default_profile, valid, passed_through}
use mcp_assist_memory.Profiles.Laws.{
  IsOption, here, there, chosen, resolve_profile-option, enabled_for-opted_in,
}

abbrev gated : Fields
gated =
    field (codes "intent_gate") (str (codes "on")) (field (codes "tier2") (str (codes "yes")) end)

tier2-IsOption : IsOption (codes "tier2") (codes "on" ∷ codes "off" ∷ []) valid
unfolding text_eq
tier2-IsOption = there _ _ _ refl (
    there _ _ _ refl
      (there _ _ _ refl (there _ _ _ refl (there _ _ _ refl (there _ _ _ refl (here _ tt))))))

tier2_default : get_field (codes "tier2") default_profile ≡ some (str (codes "off"))
unfolding get_field text_eq
tier2_default = refl

tier2_own : mem_text (codes "tier2") passed_through ≡ false
unfolding mem_text text_eq
tier2_own = refl

resolve_profile-option_example :
    get_field (codes "tier2") (resolve_profile gated)
    ≡ some (
        str
          (chosen (codes "off") (codes "on" ∷ codes "off" ∷ []) (get_field (codes "tier2") gated)))
resolve_profile-option_example =
    resolve_profile-option (codes "tier2") (codes "off") (codes "on" ∷ codes "off" ∷ []) gated
      tier2-IsOption tier2_default tier2_own

enabled_for-opted_in_example :
    (enabled_for (resolve_profile gated) (codes "k") (codes "ann") ≡ true) ↔ (
      (get_field (codes "intent_gate") gated ≡ some (str (codes "on")))
      × (text_eq (codes "ann") (codes "gate") ≡ false)
      × (any (starts_with (codes "k")) exempt_key_prefixes ≡ false))
enabled_for-opted_in_example = enabled_for-opted_in gated (codes "k") (codes "ann")
