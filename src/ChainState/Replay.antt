-- ===== src/ChainState/Replay.antt =====
-- Chain states that grew block by block, and their replay.
use echocoin_core.Prelude.{
  ◌≡◌, ◌≢◌, refl, sym, ◌∙◌, some, ℤ, pos, ◌+ℤ◌, ◌≤ℤ◌, ◌<ℤ◌, int_laws, Text, true, last?,
  last?-append, ok, >>=-eq-ok, arith,
}
use echocoin_core.Params.{vdf_iterations_start}
use echocoin_core.Dict.{sum_values}
use echocoin_core.Wire.{Field, absent, other, given, need_or, Time, Block}
use echocoin_core.Env.{Env}
use echocoin_core.State.{empty_state, get_circulating_supply}
use echocoin_core.Block.{is_iterations, create_genesis, validate}
use echocoin_core.Block.Follows.{Follows, first, next}
use echocoin_core.Block.Sound.{IsValidBlock, validate-IsValidBlock}
use echocoin_core.ChainState.{
  ChainState, replay_block, replay_chain, cumulative, from_chain, from_genesis, validate_and_apply,
}
use echocoin_core.ChainState.Append.{replay_chain-append, cumulative-append}
use echocoin_core.ChainState.Supply.{IsSound, IsBalanced}
use echocoin_core.ChainState.Grown.{Grown, validate_and_apply-Grown}

-- The genesis state, and what `validate_and_apply` makes of a reached state and a block above the
-- genesis height.
pub data Reached (env : Env) (message : Text) : ChainState → Type 0 where
  genesis : (cs : ChainState) → cs ≡ from_genesis env message → Reached env message cs
  grown :
      (cs : ChainState) (now : Time) (blk : Block) (cs' : ChainState)
      → Reached env message cs
      → blk.height ≢ pos 0
      → validate_and_apply env now cs blk ≡ ok cs'
      → Reached env message cs'

-- What holds of every reached state.
pub record IsReachable (env : Env) (cs : ChainState) : Type 0 where
  pub replayed : replay_chain cs.chain empty_state ≡ ok cs.state
  pub work : cumulative cs.chain ≡ ok cs.cumulative_iterations
  pub sound : IsSound cs.state
  pub balanced : IsBalanced (pos 0) cs.state
  pub top : Block
  pub top_eq : last? cs.chain ≡ some top
  pub height : pos 0 ≤ℤ top.height
  pub follows : Follows env.median cs.chain

is_iterations-need_or :
    (f : Field ℤ) (n : ℤ) → is_iterations f n ≡ true → need_or (pos vdf_iterations_start) f ≡ ok n
is_iterations-need_or absent n h = ground arith
is_iterations-need_or other n h = ground arith
is_iterations-need_or (given m) n h = ground arith

module _ (env : Env) (message : Text) where
  IsReachable-genesis : IsReachable env (from_genesis env message)
  unfolding from_genesis create_genesis replay_chain replay_block cumulative get_circulating_supply
      sum_values ◌+ℤ◌
  IsReachable-genesis = record {
    replayed = refl;
    work = refl;
    sound = record { solvent = tt; minted_nonneg = omega arith; minted_cap = omega arith };
    balanced = refl;
    top = create_genesis env message;
    top_eq = refl;
    height = omega arith;
    follows = first (create_genesis env message) _ refl refl;
  }

  IsReachable-grown :
      (now : Time) (cs : ChainState) (blk : Block) (cs' : ChainState)
      → IsReachable env cs
      → blk.height ≢ pos 0
      → validate_and_apply env now cs blk ≡ ok cs'
      → IsReachable env cs'
  unfolding validate_and_apply
  IsReachable-grown now cs blk cs' i nz h =
      let g : Grown cs blk cs' = validate_and_apply-Grown env now cs blk cs' nz h in
      let (probe, checked, h1) = >>=-eq-ok (validate env now blk cs.state cs.chain) _ h in
      let v : IsValidBlock env now blk cs.state cs.chain probe =
        validate-IsValidBlock env now blk cs.state cs.chain probe nz checked in
      let same_tip : i.top ≡ v.place.parent = ground (arith, i.top_eq, v.place.tip) in
      let above : pos 0 <ℤ blk.height =
        rw (v.place.height, ← same_tip) (omega (int_laws, i.height)) in
      let (sound, balanced) = g.keeps (i.sound, i.balanced) in
      record {
        replayed =
            rw g.chain_eq (
              replay_chain-append cs.chain blk empty_state cs.state cs'.state i.replayed
                g.replayed);
        work =
            rw (g.chain_eq, g.work_sum)
              (cumulative-append cs.chain blk cs.cumulative_iterations g.work i.work above
                g.work_eq);
        sound = sound;
        balanced = balanced;
        top = blk;
        top_eq = rw g.chain_eq (last?-append cs.chain blk);
        height = omega (arith, above);
        follows =
            next cs.chain blk cs'.chain v.proved.expected i.follows v.proved.expected_eq
              (is_iterations-need_or blk.vdf_iterations v.proved.expected v.proved.carried)
              g.chain_eq;
      }

  pub Reached-IsReachable : {cs : ChainState} → Reached env message cs → IsReachable env cs
  Reached-IsReachable (genesis cs e) = rw e IsReachable-genesis
  Reached-IsReachable (grown cs now blk cs' r nz h) =
      IsReachable-grown now cs blk cs' (Reached-IsReachable r) nz h

  -- In every reached state the balances add up to what was minted, none is negative, and the
  -- minted total lies between zero and the supply cap.
  pub Reached-supply :
      (cs : ChainState)
      → Reached env message cs
      → IsSound cs.state × (get_circulating_supply cs.state ≡ cs.state.total_minted)
  Reached-supply cs r =
      let i : IsReachable env cs = Reached-IsReachable r in
      (i.sound, sym (omega int_laws) ∙ i.balanced)

  -- Replaying a reached chain from scratch rebuilds exactly the reached state: the same ledger and
  -- the same cumulative work.
  pub from_chain-Reached : (cs : ChainState) → Reached env message cs → from_chain cs.chain ≡ ok cs
  unfolding from_chain
  from_chain-Reached cs r =
      let i : IsReachable env cs = Reached-IsReachable r in rw (i.replayed, i.work) refl
