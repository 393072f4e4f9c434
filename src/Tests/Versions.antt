-- ===== src/Tests/Versions.antt =====
-- Runs of the comparison of versions, and the theorem about it at concrete inputs.
use echocoin_core.Prelude.{◌≡◌, refl, Option, some, none, [], ◌∷◌, ℤ, pos, ◌-◌, Text, codes, ok}
use echocoin_core.Crypto.{split}
use echocoin_core.UpdateCheck.{
  PyText, Severity, critical, all_ints, some_parts, parse_version, classify_parsed, classify_update,
  width, zero_parts, padded, tuple_le, component, differs, first_change, compare_versions,
}
use echocoin_core.UpdateCheck.Order.{part, Says, classify_update-Says}

abbrev digit : Text → Option ℤ
digit [] = none
digit (c ∷ []) = some (pos (c - 48))
digit (c ∷ d ∷ cs) = none

-- Numbers of one digit, and texts with no space around them.
abbrev lib : PyText
lib = record { strip = λ s. s; int = digit }

parses_remote : parse_version lib (codes "0.3") ≡ some (pos 0 ∷ pos 3 ∷ [])
unfolding parse_version all_ints some_parts split
parses_remote = refl

parses_local : parse_version lib (codes "0.2.9") ≡ some (pos 0 ∷ pos 2 ∷ pos 9 ∷ [])
unfolding parse_version all_ints some_parts split
parses_local = refl

runs : classify_update lib (codes "0.3") (codes "0.2.9") ≡ ok (some critical)
unfolding parse_version all_ints some_parts split classify_update classify_parsed width zero_parts
    padded tuple_le component differs first_change compare_versions
runs = refl

classify_update-Says_example :
    (found : Option Severity) × (classify_update lib (codes "0.3") (codes "0.2.9") ≡ ok found)
    × Says found (part (pos 0 ∷ pos 3 ∷ [])) (part (pos 0 ∷ pos 2 ∷ pos 9 ∷ []))
classify_update-Says_example =
    classify_update-Says lib (codes "0.3") (codes "0.2.9") (pos 0 ∷ pos 3 ∷ [])
      (pos 0 ∷ pos 2 ∷ pos 9 ∷ []) parses_remote parses_local
