-- ===== src/Ids/Tests.antt =====
-- The theorems on ids at concrete ones.
use inter_agent_bus.Base.{Text, codes, refl, some, true, ◌↔◌, ◌≡◌, ◌⊎◌}
use inter_agent_bus.Strings.{is_space}
use inter_agent_bus.Strings.Runs.{squeeze, strip}
use inter_agent_bus.Ids.{
  is_participant_id, normalize_named_participant_id, is_handle, slug, lower_case, not_slug, is_slug,
  is_dash, is_lower,
}
use inter_agent_bus.Ids.Grammar.{IsHandle, IsLegacy, is_participant_id_iff}

abbrev hashed : Text
hashed = codes "claude:0123456789ab7"

is_participant_id_iff_example :
    (is_participant_id hashed ≡ true) ↔ (IsHandle 63 hashed ⊎ IsLegacy hashed)
is_participant_id_iff_example = is_participant_id_iff hashed

named : normalize_named_participant_id (some (codes "Ada L!")) ≡ some (some (codes "ada-l"))
unfolding normalize_named_participant_id is_handle slug squeeze strip lower_case is_space not_slug
    is_slug is_dash is_lower
named = refl
