-- ===== src/UpdateCheck.antt =====
-- src/update_check.py: the order of two version texts, and how much of a version a release changes.
-- A version is a text.
pub mod Order
use echocoin_core.Prelude.{
  ℕ, zero, suc, ◌-◌, ◌≡◌, refl, Bool, true, false, Option, none, some, List, [], ◌∷◌, ◌++◌, ℤ, pos,
  ltb_ℤ, eqb_ℤ, Text, ltb, length, get_elem?, Result, ok, raise, index_error, ◌>>=◌, if◌then◌else◌,
}
use echocoin_core.Crypto.{split}

-- `str.strip`, and `int` of a text, none for its ValueError.
pub record PyText : Type 0 where
  pub strip : Text → Text
  pub int : Text → Option ℤ

-- The texts that `classify_update` returns.
pub data Severity : Type 0 where
  protocol : Severity
  critical : Severity
  minor : Severity

unfoldable pub all_ints : PyText → List Text → Option (List ℤ)
all_ints lib [] = some []
all_ints lib (p ∷ ps) =
    let rest = all_ints lib ps in
    elim (lib.int p) [ none ↦ none | some n ↦ elim rest [ none ↦ none | some ns ↦ some (n ∷ ns) ] ]

-- `parts if parts else None`
unfoldable pub some_parts : List ℤ → Option (List ℤ)
some_parts [] = none
some_parts (n ∷ ns) = some (n ∷ ns)

unfoldable pub parse_version : PyText → Text → Option (List ℤ)
parse_version lib s = elim (all_ints lib (split (lib.strip s))) [
  | none ↦ none
  | some ns ↦ some_parts ns
]

abbrev pub larger : ℕ → ℕ → ℕ
larger a b = if ltb a b then b else a

-- `max(len(r), len(l), 3)`
unfoldable pub width : List ℤ → List ℤ → ℕ
width r l = larger (larger (length r) (length l)) 3

-- `(0,) * n`
unfoldable pub zero_parts : ℕ → List ℤ
zero_parts zero = []
zero_parts (suc n) = pos 0 ∷ zero_parts n

unfoldable pub padded : ℕ → List ℤ → List ℤ
padded n v = v ++ zero_parts (n - length v)

-- `<=` of tuples
unfoldable pub tuple_le : List ℤ → List ℤ → Bool
tuple_le [] ys = true
tuple_le (x ∷ xs) [] = false
tuple_le (x ∷ xs) (y ∷ ys) = if eqb_ℤ x y then tuple_le xs ys else ltb_ℤ x y

unfoldable pub component : List ℤ → ℕ → Result ℤ
component v i = elim (get_elem? v i) [ none ↦ raise index_error | some n ↦ ok n ]

unfoldable pub differs : List ℤ → List ℤ → ℕ → Result Bool
differs r l i = do a ← component r i; b ← component l i; ok (if eqb_ℤ a b then false else true)

-- The first component that differs. The second one is there whenever it is looked at, as a padded
-- version has three components or more, so that it is read at once.
unfoldable pub first_change : List ℤ → List ℤ → Result Severity
first_change r l = do
  major ← differs r l 0
  second ← differs r l 1
  ok (if major then protocol else if second then critical else minor)

unfoldable pub compare_versions : List ℤ → List ℤ → Result (Option Severity)
compare_versions r l =
    if tuple_le r l then ok none else (do change ← first_change r l; ok (some change))

unfoldable pub classify_parsed : Option (List ℤ) → Option (List ℤ) → Result (Option Severity)
classify_parsed none l = ok none
classify_parsed (some r) none = ok none
classify_parsed (some r) (some l) = compare_versions (padded (width r l) r) (padded (width r l) l)

unfoldable pub classify_update : PyText → Text → Text → Result (Option Severity)
classify_update lib remote local =
    classify_parsed (parse_version lib remote) (parse_version lib local)
