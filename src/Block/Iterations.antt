-- ===== src/Block/Iterations.antt =====
-- The required VDF iterations from one block to the next.
use echocoin_core.Prelude.{
  ℕ, zero, suc, ◌+◌, ◌-◌, ◌*◌, ◌/◌, ◌≤◌, ◌<◌, ◌≡◌, refl, sym, ◌∙◌, ap, some, List, [], ◌∷◌, ◌++◌, ℤ,
  pos, negsuc, ◌≤ℤ◌, ok, >>=-eq-ok, arith, length, length-append, get_elem?, if◌then◌else◌, ltb,
}
use native.Mathlib.Decide.{dec_lt}
use echocoin_core.Params.{vdf_adjust_interval, vdf_iterations_start}
use echocoin_core.Wire.{Time, Block, need_or}
use echocoin_core.Block.{
  raise_iterations, iterations_at, deltas, boundary_iterations, get_vdf_iterations,
}

get_elem?-append_left :
    (xs ys : List Block) (i : ℕ) → i < length xs → get_elem? (xs ++ ys) i ≡ get_elem? xs i
get_elem?-append_left [] ys i h = elim h [ ]
get_elem?-append_left (x ∷ xs) ys zero h = refl
get_elem?-append_left (x ∷ xs) ys (suc i) h = get_elem?-append_left xs ys i (omega arith)

get_elem?-append_last :
    (xs : List Block) (y : Block) → get_elem? (xs ++ y ∷ []) (length xs) ≡ some y
get_elem?-append_last [] y = refl
get_elem?-append_last (x ∷ xs) y = get_elem?-append_last xs y

pub iterations_at-append :
    (xs ys : List Block) (i : ℕ) → i < length xs → iterations_at (xs ++ ys) i ≡ iterations_at xs i
unfolding iterations_at
iterations_at-append xs ys i h = rw (iterations_at, get_elem?-append_left xs ys i h)

iterations_at-last :
    (xs : List Block) (y : Block)
    → iterations_at (xs ++ y ∷ []) (length xs) ≡ need_or (pos vdf_iterations_start) y.vdf_iterations
unfolding iterations_at
iterations_at-last xs y = rw (iterations_at, get_elem?-append_last xs y)

raise_iterations-ge : (p : ℤ) → pos 0 ≤ℤ p → p ≤ℤ raise_iterations p
unfolding raise_iterations
raise_iterations-ge (pos n) h = omega arith
raise_iterations-ge (negsuc n) h = absurd (omega arith)

module _ (median : List Time → Time) (chain : List Block) where
  abbrev boundary : ℕ
  boundary = length chain / vdf_adjust_interval * vdf_adjust_interval

  pub get_early :
      length chain < vdf_adjust_interval
      → get_vdf_iterations median chain ≡ ok (pos vdf_iterations_start)
  unfolding get_vdf_iterations
  get_early h = ground arith

  get_between :
      vdf_adjust_interval ≤ length chain
      → boundary < length chain
      → get_vdf_iterations median chain ≡ iterations_at chain boundary
  unfolding get_vdf_iterations
  get_between h k = ground arith

  get_boundary :
      vdf_adjust_interval ≤ length chain
      → boundary ≡ length chain
      → get_vdf_iterations median chain
        ≡ boundary_iterations median chain (boundary - vdf_adjust_interval) boundary
  unfolding get_vdf_iterations
  get_boundary h k = ground arith

  -- The requirement at a boundary is the window's first count, or that count raised.
  boundary_iterations-ge :
      (start last : ℕ) (m : ℤ)
      → boundary_iterations median chain start last ≡ ok m
      → (p : ℤ) × (iterations_at chain start ≡ ok p) × (pos 0 ≤ℤ p → p ≤ℤ m)
  unfolding boundary_iterations
  boundary_iterations-ge start last m h =
      let (p, e, h1) = >>=-eq-ok (iterations_at chain start) _ h in
      let (window, f, h2) =
        >>=-eq-ok
          (deltas chain (if ltb start 1 then 1 else start)
            (last - (if ltb start 1 then 1 else start)))
          _ h1 in
      (p, e, λ n. ground (arith, raise_iterations-ge p, h2))

module _ (median : List Time → Time) (chain : List Block) (b : Block) (n m : ℤ) where
  abbrev extended : List Block
  extended = chain ++ b ∷ []

  length-extended : length extended ≡ length chain + 1
  length-extended = length-append chain (b ∷ [])

  module _ (genesis : iterations_at chain 0 ≡ ok (pos vdf_iterations_start))
      (required : get_vdf_iterations median chain ≡ ok n)
      (carried : need_or (pos vdf_iterations_start) b.vdf_iterations ≡ ok n)
      (next : get_vdf_iterations median extended ≡ ok m) (nonneg : pos 0 ≤ℤ n) where
    -- Past a boundary the requirement is the boundary block's count.
    step_between :
        vdf_adjust_interval ≤ length chain + 1 → boundary median extended < length extended → n ≤ℤ m
    step_between long inside =
        let found : iterations_at extended (boundary median extended) ≡ ok m =
          sym (get_between median extended (omega (arith, length-extended)) inside) ∙ next in
        elim (dec_lt (boundary median extended) (length chain)) [
          | yes before ↦
              let same : boundary median extended ≡ boundary median chain =
                omega (arith, length-extended) in
              let old : iterations_at chain (boundary median chain) ≡ ok n =
                sym (
                  get_between median chain (omega (arith, length-extended))
                    (omega (arith, length-extended)))
                ∙ required in
              let e : ok n ≡ ok m =
                sym old
                ∙ ap (iterations_at chain) (sym same)
                ∙ sym (iterations_at-append chain (b ∷ []) (boundary median extended) before)
                ∙ found in
              let e' : n ≡ m = cc in rw e' (omega arith)
          | no after ↦
              let here : boundary median extended ≡ length chain = omega (arith, length-extended) in
              let e : ok n ≡ ok m =
                sym carried
                ∙ sym (iterations_at-last chain b)
                ∙ ap (iterations_at extended) (sym here)
                ∙ found in
              let e' : n ≡ m = cc in rw e' (omega arith)
        ]

    step_boundary :
        vdf_adjust_interval ≤ length chain + 1 → boundary median extended ≡ length extended → n ≤ℤ m
    step_boundary long on =
        let (p, e, ge) =
          boundary_iterations-ge median extended (boundary median extended - vdf_adjust_interval)
            (boundary median extended) m
            (sym (get_boundary median extended (omega (arith, length-extended)) on) ∙ next) in
        let start : ℕ = boundary median extended - vdf_adjust_interval in
        let old : iterations_at chain start ≡ ok p =
          sym (iterations_at-append chain (b ∷ []) start (omega (arith, length-extended))) ∙ e in
        elim (dec_lt (length chain) vdf_adjust_interval) [
          | yes first ↦
              let zero_start : start ≡ 0 = omega (arith, length-extended) in
              let same : ok n ≡ ok p =
                sym required
                ∙ get_early median chain first
                ∙ sym genesis
                ∙ ap (iterations_at chain) (sym zero_start)
                ∙ old in
              let e' : n ≡ p = cc in rw e' (ge (rw (← e') nonneg))
          | no later ↦
              let same_start : start ≡ boundary median chain = omega (arith, length-extended) in
              let same : ok n ≡ ok p =
                sym required
                ∙ get_between median chain (omega arith) (omega (arith, length-extended))
                ∙ ap (iterations_at chain) (sym same_start)
                ∙ old in
              let e' : n ≡ p = cc in rw e' (ge (rw (← e') nonneg))
        ]

    pub step_monotone : n ≤ℤ m
    step_monotone = elim (dec_lt (length chain + 1) vdf_adjust_interval) [
      | yes early ↦
          let e : ok n ≡ ok (pos vdf_iterations_start) =
            sym required ∙ get_early median chain (omega arith) in
          let f : ok m ≡ ok (pos vdf_iterations_start) =
            sym next ∙ get_early median extended (omega (arith, length-extended)) in
          let e' : n ≡ m = cc in rw e' (omega arith)
      | no late ↦ elim (dec_lt (boundary median extended) (length extended)) [
        | yes inside ↦ step_between (omega arith) inside
        | no on ↦ step_boundary (omega arith) (omega arith)
      ]
    ]
