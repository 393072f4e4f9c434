-- ===== src/ChainState/Grown.antt =====
-- One accepted block, in `validate_and_apply`, in `apply_block` and in the replay.

use echocoin_core.Prelude.{
  ◌≡◌, ◌≢◌, refl, sym, ◌∙◌, [], ◌∷◌, ◌++◌, ℤ, pos, ◌+ℤ◌, int_laws, eqb_ℤ, Text, true, false, ok,
  >>=-eq-ok, arith,
}
use echocoin_core.Wire.{given, need, need_or, Time, Block}
use echocoin_core.Env.{Env}
use echocoin_core.Crypto.{is_valid_address, split}
use echocoin_core.State.{State}
use echocoin_core.Block.{block_fees, validate}
use echocoin_core.Block.Sound.{IsValidBlock, validate-IsValidBlock}
use echocoin_core.ChainState.{
  ChainState, reward_if_builder, apply_builder_reward, replay_block, apply_block_with_state,
  apply_block, validate_and_apply,
}
use echocoin_core.ChainState.Apply.{Replayed, apply_entries-Replayed}
use echocoin_core.ChainState.Supply.{IsSound, IsBalanced, apply_builder_reward-lem}

-- The empty text is no address, so that every accepted builder is paid.
empty_address : (env : Env) → is_valid_address env [] ≡ false
unfolding is_valid_address split
empty_address env = refl

-- `validate_and_apply` and `apply_block` agree on every block that is accepted.
pub record Grown (cs : ChainState) (blk : Block) (cs' : ChainState) : Type 0 where
  pub applied : apply_block cs blk ≡ ok cs'
  pub replayed : replay_block blk cs.state ≡ ok cs'.state
  pub work : ℤ
  pub work_eq : need_or (pos 0) blk.vdf_iterations ≡ ok work
  pub chain_eq : cs'.chain ≡ cs.chain ++ blk ∷ []
  pub work_sum : cs'.cumulative_iterations ≡ cs.cumulative_iterations +ℤ work
  pub keeps :
      IsSound cs.state × IsBalanced (pos 0) cs.state
      → IsSound cs'.state × IsBalanced (pos 0) cs'.state

record Finished (cs : ChainState) (blk : Block) (probe : State) (cs' : ChainState) : Type 0 where
  rewarded : reward_if_builder blk probe ≡ ok cs'.state
  work : ℤ
  work_eq : need_or (pos 0) blk.vdf_iterations ≡ ok work
  chain_eq : cs'.chain ≡ cs.chain ++ blk ∷ []
  work_sum : cs'.cumulative_iterations ≡ cs.cumulative_iterations +ℤ work

apply_block_with_state-Finished :
    (cs : ChainState) (blk : Block) (probe : State) (cs' : ChainState)
    → apply_block_with_state cs blk probe ≡ ok cs'
    → Finished cs blk probe cs'
unfolding apply_block_with_state
apply_block_with_state-Finished cs blk probe cs' h =
    let (s, rewarded, h2) = >>=-eq-ok (reward_if_builder blk probe) _ h in
    let (work, w, h3) = >>=-eq-ok (need_or (pos 0) blk.vdf_iterations) _ h2 in
    record {
      rewarded = rewarded ∙ ground (arith, h3);
      work = work;
      work_eq = w;
      chain_eq = ground (arith, h3);
      work_sum = ground (arith, h3);
    }

module _ (env : Env) where
  reward_builder :
      (blk : Block) (builder : Text) (s : State)
      → blk.builder ≡ given builder
      → is_valid_address env builder ≡ true
      → reward_if_builder blk s ≡ apply_builder_reward builder blk s
  unfolding reward_if_builder
  reward_builder blk [] s e valid = cc (empty_address env)
  reward_builder blk (c ∷ cs) s e valid = ground (arith, e)

  pub validate_and_apply-Grown :
      (now : Time) (cs : ChainState) (blk : Block) (cs' : ChainState)
      → blk.height ≢ pos 0
      → validate_and_apply env now cs blk ≡ ok cs'
      → Grown cs blk cs'
  unfolding validate_and_apply apply_block replay_block block_fees
  validate_and_apply-Grown now cs blk cs' nz h =
      let (probe, checked, h1) = >>=-eq-ok (validate env now blk cs.state cs.chain) _ h in
      let f : Finished cs blk probe cs' = apply_block_with_state-Finished cs blk probe cs' h1 in
      let v : IsValidBlock env now blk cs.state cs.chain probe =
        validate-IsValidBlock env now blk cs.state cs.chain probe nz checked in
      let r : Replayed v.entries cs.state probe =
        apply_entries-Replayed env v.entries cs.state probe v.applied in
      let listed : need_or [] blk.transactions ≡ ok v.entries = rw v.entries_eq refl in
      let needed : need blk.transactions ≡ ok v.entries = rw v.entries_eq refl in
      let above : eqb_ℤ blk.height (pos 0) ≡ false = ground (arith, nz) in
      let fees : block_fees blk ≡ ok r.fees = rw (listed, r.fees_eq) refl in
      let paid : reward_if_builder blk probe ≡ apply_builder_reward v.proved.builder blk probe =
        reward_builder blk v.proved.builder probe v.proved.builder_eq v.proved.address in
      record {
        applied = rw (listed, r.replayed) h1;
        replayed = rw (above, needed, r.replayed) f.rewarded;
        work = f.work;
        work_eq = f.work_eq;
        chain_eq = f.chain_eq;
        work_sum = f.work_sum;
        keeps = λ (sound, bal).
            let (s', e, sound', bal') =
              apply_builder_reward-lem v.proved.builder blk r.fees probe fees r.fees_nonneg
                (record {
                  solvent = r.solvent sound.solvent;
                  minted_nonneg = rw r.minted sound.minted_nonneg;
                  minted_cap = rw r.minted sound.minted_cap;
                })
                (grind (int_laws, r.supply, r.minted, bal)) in
            let same : ok s' ≡ ok cs'.state = sym e ∙ sym paid ∙ f.rewarded in
            let same' : cs'.state ≡ s' = cc in rw same' (sound', bal');
      }
