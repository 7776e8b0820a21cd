-- ===== src/Auth/Tests.antt =====
-- The theorems on tokens at short ones.
use inter_agent_bus.Base.{Text, [], arith, codes, refl, true, ◌==◌, ◌↔◌, ◌∷◌, ◌≡◌}
use inter_agent_bus.Value.{str}
use inter_agent_bus.Auth.{utf8, utf8_from, is_high, timing_safe_equal_str}
use inter_agent_bus.Auth.Exact.{timing_safe_equal_str_iff}

abbrev token : Text
token = codes "0f"

timing_safe_equal_str_iff_example :
    (timing_safe_equal_str (str (codes "0e")) (str token) ≡ true) ↔ (str (codes "0e") ≡ str token)
timing_safe_equal_str_iff_example =
    timing_safe_equal_str_iff (str (codes "0e")) token (omega arith, (omega arith, tt))

-- Two halves of surrogate pairs are the same bytes.
halves : timing_safe_equal_str (str (0xd800 ∷ [])) (str (0xdbff ∷ [])) ≡ true
unfolding timing_safe_equal_str utf8 utf8_from is_high ◌==◌
halves = refl
