-- ===== src/UpdateCheck/Order.antt =====
-- `classify_update` against the order of versions, component by component.
use echocoin_core.Prelude.{
  ℕ, zero, suc, ◌-◌, ◌≤◌, ◌<◌, ◌≡◌, ◌∙◌, ap, subst, refl, pos_part, neg_part, true, false, Option,
  none, some, List, [], ◌∷◌, ◌++◌, ℤ, pos, ◌<ℤ◌, eqb_ℤ, eqb→eq, eqb_refl, Text, ltb, length,
  length-append, ok, if◌then◌else◌, arith, Bool-cases, inl, inr,
}
use mathlib.Core.Path.{fun_ext}
use echocoin_core.UpdateCheck.{
  PyText, Severity, protocol, critical, minor, parse_version, width, zero_parts, padded, tuple_le,
  component, differs, first_change, compare_versions, classify_parsed, classify_update,
}

-- A component of a version; one that is not written is zero.
unfoldable pub part : List ℤ → ℕ → ℤ
part [] i = pos 0
part (n ∷ ns) zero = n
part (n ∷ ns) (suc i) = part ns i

-- At the first place where two versions differ, `r` has the greater component.
unfoldable pub IsNewer : (ℕ → ℤ) → (ℕ → ℤ) → Type 0
IsNewer r l = (i : ℕ) × (l i <ℤ r i) × ((j : ℕ) → j < i → r j ≡ l j)

-- What an answer about versions says of them.
unfoldable pub Says : Option Severity → (ℕ → ℤ) → (ℕ → ℤ) → Type 0
Says none r l = ¬ IsNewer r l
Says (some protocol) r l = l 0 <ℤ r 0
Says (some critical) r l = (r 0 ≡ l 0) × (l 1 <ℤ r 1)
Says (some minor) r l = (r 0 ≡ l 0) × (r 1 ≡ l 1) × IsNewer r l

part-zero_parts : (n i : ℕ) → part (zero_parts n) i ≡ pos 0
unfolding part zero_parts
part-zero_parts zero i = refl
part-zero_parts (suc n) zero = refl
part-zero_parts (suc n) (suc i) = part-zero_parts n i

part-append_zero_parts : (v : List ℤ) (n i : ℕ) → part (v ++ zero_parts n) i ≡ part v i
unfolding part
part-append_zero_parts [] n i = part-zero_parts n i
part-append_zero_parts (x ∷ xs) n zero = refl
part-append_zero_parts (x ∷ xs) n (suc i) = part-append_zero_parts xs n i

length-zero_parts : (n : ℕ) → length (zero_parts n) ≡ n
unfolding zero_parts
length-zero_parts zero = refl
length-zero_parts (suc n) = omega (arith, length-zero_parts n)

length-padded : (n : ℕ) (v : List ℤ) → length v ≤ n → length (padded n v) ≡ n
unfolding padded
length-padded n v h =
    omega (arith, h, length-append v (zero_parts (n - length v)), length-zero_parts (n - length v))

IsNewer-suc :
    (x y : ℤ) (xs ys : List ℤ)
    → x ≡ y
    → IsNewer (part xs) (part ys)
    → IsNewer (part (x ∷ xs)) (part (y ∷ ys))
unfolding IsNewer part
IsNewer-suc x y xs ys e (i, more, before) = (suc i, more, agree)
  where
    agree : (j : ℕ) → j < suc i → part (x ∷ xs) j ≡ part (y ∷ ys) j
    agree zero h = e
    agree (suc j) h = before j (omega (arith, h))

tuple_le-IsNewer :
    (r l : List ℤ) → length r ≡ length l → tuple_le r l ≡ false → IsNewer (part r) (part l)
unfolding tuple_le IsNewer part
tuple_le-IsNewer [] l same h = absurd (ground (arith, h))
tuple_le-IsNewer (x ∷ r) [] same h = absurd (omega (arith, same))
tuple_le-IsNewer (x ∷ r) (y ∷ l) same h = elim (Bool-cases (eqb_ℤ x y)) [
  | inl e ↦
      IsNewer-suc x y r l (eqb→eq x y e)
        (tuple_le-IsNewer r l (omega (arith, same)) (ground (arith, h, e)))
  | inr d ↦ (0, ground (arith, h, d), λ j low. absurd (omega (arith, low)))
]

tuple_le-old :
    (r l : List ℤ) → length r ≡ length l → tuple_le r l ≡ true → ¬ IsNewer (part r) (part l)
unfolding tuple_le IsNewer part
tuple_le-old [] [] same h (i, more, before) = omega (arith, more)
tuple_le-old [] (y ∷ l) same h p = absurd (omega (arith, same))
tuple_le-old (x ∷ r) [] same h p = absurd (omega (arith, same))
tuple_le-old (x ∷ r) (y ∷ l) same h (zero, more, before) = ground (arith, h, more)
tuple_le-old (x ∷ r) (y ∷ l) same h (suc i, more, before) =
    let e : x ≡ y = before 0 (omega arith) in
    let d : eqb_ℤ x y ≡ true = rw e (eqb_refl y) in
    tuple_le-old r l (omega (arith, same)) (ground (arith, h, d))
      (i, more, λ j low. before (suc j) (omega (arith, low)))

component-part : (v : List ℤ) (i : ℕ) → i < length v → component v i ≡ ok (part v i)
unfolding component part
component-part [] i h = absurd (omega (arith, h))
component-part (n ∷ ns) zero h = refl
component-part (n ∷ ns) (suc i) h = component-part ns i (omega (arith, h))

differs-part :
    (r l : List ℤ) (i : ℕ)
    → i < length r
    → i < length l
    → differs r l i ≡ ok (if eqb_ℤ (part r i) (part l i) then false else true)
unfolding differs
differs-part r l i h k = rw (component-part r i h, component-part l i k) refl

first_only : (r l : ℕ → ℤ) → r 0 ≡ l 0 → (j : ℕ) → j < 1 → r j ≡ l j
first_only r l e zero h = e
first_only r l e (suc j) h = absurd (omega (arith, h))

-- Where the first components agree and the next one does not, it is the greater one.
IsNewer-at :
    (r l : ℕ → ℤ) (k : ℕ)
    → IsNewer r l
    → ((j : ℕ) → j < k → r j ≡ l j)
    → eqb_ℤ (r k) (l k) ≡ false
    → l k <ℤ r k
unfolding IsNewer
IsNewer-at r l k (i, more, before) agree apart = elim (Bool-cases (ltb i k)) [
  | inl below ↦
      let e : r i ≡ l i = agree i (ground (arith, below)) in
      absurd (ground (arith, more, ap pos_part e, ap neg_part e))
  | inr not_below ↦ elim (Bool-cases (ltb k i)) [
    | inl above ↦
        let e : r k ≡ l k = before k (ground (arith, above)) in
        let same : eqb_ℤ (r k) (l k) ≡ true = rw e (eqb_refl (l k)) in
        absurd (ground (arith, same, apart))
    | inr not_above ↦
        let e : i ≡ k = ground (arith, not_below, not_above) in subst (λ m. l m <ℤ r m) e more
  ]
]

module _ (r l : List ℤ) (same : length r ≡ length l) (long : 3 ≤ length r) where
  first_change-part :
      first_change r l
      ≡ ok (
          if eqb_ℤ (part r 0) (part l 0)
          then (if eqb_ℤ (part r 1) (part l 1) then minor else critical)
          else protocol)
  unfolding first_change
  first_change-part =
      let first = differs-part r l 0 (omega (arith, long)) (omega (arith, same, long)) in
      let second = differs-part r l 1 (omega (arith, long)) (omega (arith, same, long)) in
      rw (first, second)
        (elim (Bool-cases (eqb_ℤ (part r 0) (part l 0))) [
          | inl e ↦ elim (Bool-cases (eqb_ℤ (part r 1) (part l 1))) [
            | inl d ↦ rw (e, d) refl
            | inr d ↦ rw (e, d) refl
          ]
          | inr e ↦ rw e refl
        ])

  first_change-Says :
      IsNewer (part r) (part l)
      → (change : Severity) × (first_change r l ≡ ok change) × Says (some change) (part r) (part l)
  unfolding Says
  first_change-Says newer = elim (Bool-cases (eqb_ℤ (part r 0) (part l 0))) [
    | inr d ↦ (
      protocol,
      first_change-part ∙ rw d refl,
      IsNewer-at (part r) (part l) 0 newer (λ j h. absurd (omega (arith, h))) d,
    )
    | inl e ↦
        let major : part r 0 ≡ part l 0 = eqb→eq _ _ e in
        elim (Bool-cases (eqb_ℤ (part r 1) (part l 1))) [
          | inl d ↦ (minor, first_change-part ∙ rw (e, d) refl, (major, eqb→eq _ _ d, newer))
          | inr d ↦ (
            critical,
            first_change-part ∙ rw (e, d) refl,
            (major, IsNewer-at (part r) (part l) 1 newer (first_only (part r) (part l) major) d),
          )
        ]
  ]

  compare_versions-Says :
      (found : Option Severity) × (compare_versions r l ≡ ok found) × Says found (part r) (part l)
  unfolding compare_versions Says
  compare_versions-Says = elim (Bool-cases (tuple_le r l)) [
    | inl old ↦ (none, rw old refl, tuple_le-old r l same old)
    | inr new ↦
        let (change, runs, says) = first_change-Says (tuple_le-IsNewer r l same new) in
        (some change, rw (new, runs) refl, says)
  ]

part-padded : (n : ℕ) (v : List ℤ) → part (padded n v) ≡ part v
unfolding padded
part-padded n v = fun_ext (λ i. part-append_zero_parts v (n - length v) i)

-- `classify_update` never raises on versions that parse. It names the first component that differs,
-- when the remote version has the greater number there, and says nothing when there is none such; a
-- component that is not written is zero.
pub classify_update-Says :
    (lib : PyText) (remote local : Text) (r l : List ℤ)
    → parse_version lib remote ≡ some r
    → parse_version lib local ≡ some l
    → (found : Option Severity) × (classify_update lib remote local ≡ ok found)
      × Says found (part r) (part l)
unfolding classify_update classify_parsed width
classify_update-Says lib remote local r l p q =
    let n = width r l in
    let fits_r : length (padded n r) ≡ n = length-padded n r (ground arith) in
    let fits_l : length (padded n l) ≡ n = length-padded n l (ground arith) in
    let (found, runs, says) =
      compare_versions-Says (padded n r) (padded n l) (omega (arith, fits_r, fits_l))
        (ground (arith, fits_r)) in
    (
      found,
      rw (p, q) runs,
      subst (λ f. Says found f (part l)) (part-padded n r)
          (subst (λ f. Says found (part (padded n r)) f) (part-padded n l) says),
    )
