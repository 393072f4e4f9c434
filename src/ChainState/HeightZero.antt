-- ===== src/ChainState/HeightZero.antt =====
-- A block of height 0 on top of a chain, as the fork choice sees it.
use echocoin_core.Prelude.{
  ◌≡◌, refl, ap, true, some, List, [], ◌∷◌, ◌++◌, pos, text_lt, last?, last?-append, ok, >>=-eq-ok,
  arith, eqb_refl,
}
use echocoin_core.Wire.{Block}
use echocoin_core.State.{State, empty_state}
use echocoin_core.Block.{tie_break_key}
use echocoin_core.ChainState.{
  ChainState, replay_block, replay_chain, cumulative, from_chain, is_better_than,
}
use echocoin_core.ChainState.Append.{replay_chain-append, cumulative-append_zero}
use echocoin_core.ChainState.ForkChoice.{is_better_than-order}

replay_height_zero : (blk : Block) (s : State) → blk.height ≡ pos 0 → replay_block blk s ≡ ok s
unfolding replay_block
replay_height_zero blk s z = ground (arith, z)

-- A chain that is extended by a block of height 0 whose tie-break key is below the tip's replays
-- to the same ledger and the same work, and the fork choice prefers it, with no VDF behind it.
pub height_zero_wins :
    (chain : List Block) (cs : ChainState) (top blk : Block)
    → from_chain chain ≡ ok cs
    → last? chain ≡ some top
    → blk.height ≡ pos 0
    → text_lt (tie_break_key blk) (tie_break_key top) ≡ true
    → (cs' : ChainState) × (from_chain (chain ++ blk ∷ []) ≡ ok cs')
      × (cs'.state ≡ cs.state)
      × (cs'.cumulative_iterations ≡ cs.cumulative_iterations)
      × (is_better_than cs' cs ≡ ok true)
unfolding from_chain
height_zero_wins chain cs top blk h last z lower =
    let (s, e, h1) = >>=-eq-ok (replay_chain chain empty_state) _ h in
    let (work, f, h2) = >>=-eq-ok (cumulative chain) _ h1 in
    let longer : ChainState = record {
      chain = chain ++ blk ∷ [];
      state = s;
      cumulative_iterations = work;
    } in
    let state_eq : s ≡ cs.state = ground (arith, h2) in
    let work_eq : work ≡ cs.cumulative_iterations = ground (arith, h2) in
    let chain_eq : chain ≡ cs.chain = ground (arith, h2) in
    (
      longer,
      rw
          (
            replay_chain-append chain blk empty_state s s e (replay_height_zero blk s z),
            cumulative-append_zero chain blk work f z,
          )
          refl,
      state_eq,
      work_eq,
      rw
          (
            is_better_than-order longer cs (record { top = blk; top_eq = last?-append chain blk })
                (record { top = top; top_eq = rw (← chain_eq) last }),
            ← work_eq,
          )
          (ap ok (ground (arith, lower, eqb_refl work))),
    )
