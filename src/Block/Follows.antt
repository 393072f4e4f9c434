-- ===== src/Block/Follows.antt =====
-- Chains whose blocks carry the iteration counts that their predecessors require.
use echocoin_core.Prelude.{
  ◌<◌, ◌≡◌, List, [], ◌∷◌, ◌++◌, ℤ, pos, ◌≤ℤ◌, ok, arith, length, length-append, ◌∙◌, sym,
}
use echocoin_core.Params.{vdf_iterations_start}
use echocoin_core.Wire.{Time, Block, need_or}
use echocoin_core.Block.{iterations_at, get_vdf_iterations}
use echocoin_core.Block.Iterations.{iterations_at-append, get_early, step_monotone}

-- A first block with the start count, and then each block with the count that is required of it.
pub data Follows (median : List Time → Time) : List Block → Type 0 where
  first :
      (b : Block) (chain : List Block)
      → chain ≡ b ∷ []
      → need_or (pos vdf_iterations_start) b.vdf_iterations ≡ ok (pos vdf_iterations_start)
      → Follows median chain
  next :
      (chain : List Block) (b : Block) (extended : List Block) (n : ℤ)
      → Follows median chain
      → get_vdf_iterations median chain ≡ ok n
      → need_or (pos vdf_iterations_start) b.vdf_iterations ≡ ok n
      → extended ≡ chain ++ b ∷ []
      → Follows median extended

module _ (median : List Time → Time) where
  Follows-nonempty : {chain : List Block} → Follows median chain → 0 < length chain
  Follows-nonempty (first b chain e g) = rw e (omega arith)
  Follows-nonempty (next chain b extended n f r c e) =
      rw e (omega (arith, length-append chain (b ∷ [])))

  Follows-genesis :
      {chain : List Block}
      → Follows median chain
      → iterations_at chain 0 ≡ ok (pos vdf_iterations_start)
  unfolding iterations_at
  Follows-genesis (first b chain e g) = rw (e, iterations_at) g
  Follows-genesis (next chain b extended n f r c e) =
      rw e (iterations_at-append chain (b ∷ []) 0 (Follows-nonempty f) ∙ Follows-genesis f)

  -- A chain that follows the schedule never requires less than the start count of its next block.
  pub Follows-ge-start :
      {chain : List Block} (m : ℤ)
      → Follows median chain
      → get_vdf_iterations median chain ≡ ok m
      → pos vdf_iterations_start ≤ℤ m
  Follows-ge-start m (first b chain e g) h =
      let early : ok m ≡ ok (pos vdf_iterations_start) =
        sym h ∙ get_early median chain (rw e (omega arith)) in
      let same : m ≡ pos vdf_iterations_start = cc in rw same (omega arith)
  Follows-ge-start m (next chain b extended n f r c e) h =
      let low : pos vdf_iterations_start ≤ℤ n = Follows-ge-start n f r in
      omega (
        arith,
        low,
        step_monotone median chain b n m (Follows-genesis f) r c (rw e at h) (omega (arith, low)),
      )

  -- In a chain that follows the schedule, if the last block carries what was required of it, no
  -- less than that is required of the next block.
  pub Follows-monotone :
      (chain : List Block) (b : Block) (n m : ℤ)
      → Follows median chain
      → get_vdf_iterations median chain ≡ ok n
      → need_or (pos vdf_iterations_start) b.vdf_iterations ≡ ok n
      → get_vdf_iterations median (chain ++ b ∷ []) ≡ ok m
      → n ≤ℤ m
  Follows-monotone chain b n m f r c h =
      step_monotone median chain b n m (Follows-genesis f) r c h
        (omega (arith, Follows-ge-start n f r))
