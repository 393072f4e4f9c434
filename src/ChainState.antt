-- ===== src/ChainState.antt =====
-- src/chainstate.py: the chain with its ledger, and the fork choice. Every method returns a new
-- value, as there.
pub mod Apply
pub mod Supply
pub mod Grown
pub mod Append
pub mod Replay
pub mod HeightZero
pub mod ForkChoice
use echocoin_core.Prelude.{
  ℕ, Bool, true, false, none, some, List, [], ◌∷◌, ◌++◌, ℤ, pos, ◌+ℤ◌, ltb_ℤ, eqb_ℤ, leb_ℤ, Text,
  text_lt, last?, if◌then◌else◌, Result, ok, raise, type_error, index_error, ◌>>=◌,
}
use echocoin_core.Wire.{
  Field, absent, other, given, need, need_or, Entry, tx_entry, not_dict, Time, Block,
}
use echocoin_core.Env.{Env}
use echocoin_core.State.{
  State, empty_state, credit, compute_block_reward, apply_reward_distribution, apply_tx,
}
use echocoin_core.Block.{block_fees, tie_break_key, create_genesis, validate}

pub record ChainState : Type 0 where
  pub chain : List Block
  pub state : State
  pub cumulative_iterations : ℤ

-- `if total_fees > 0: state.credit(builder, total_fees)`
unfoldable pub credit_fees : Text → ℤ → State → Result State
credit_fees builder fees s = if ltb_ℤ (pos 0) fees then credit builder fees s else ok s

-- `reward = state.compute_block_reward()`, distributed if it is at least 1.
unfoldable pub mint_reward : Text → State → Result State
mint_reward builder s =
    if leb_ℤ (pos 1) (compute_block_reward s)
    then apply_reward_distribution ((builder, compute_block_reward s) ∷ []) s
    else ok s

unfoldable pub apply_builder_reward : Text → Block → State → Result State
apply_builder_reward builder blk s = do
  fees ← block_fees blk
  paid ← credit_fees builder fees s
  mint_reward builder paid

-- `builder = blk.get("builder")`, and the reward `if builder`. A value that is no `str` only
-- passes validation on height 0, and reads as none here.
unfoldable pub reward_if_builder : Block → State → Result State
reward_if_builder blk s = elim blk.builder [
  | given builder ↦ elim builder [ [] ↦ ok s | c ∷ cs ↦ apply_builder_reward (c ∷ cs) blk s ]
  | absent ↦ ok s
  | other ↦ ok s
]

-- The trusted replay of a list of transactions.
unfoldable pub replay_entries : List Entry → State → Result State
replay_entries [] s = ok s
replay_entries (tx_entry t ∷ rest) s = do s' ← apply_tx t s; replay_entries rest s'
replay_entries (not_dict ∷ rest) s = raise type_error

-- One round of the loop of `from_chain`: a block of height 0 is skipped.
unfoldable pub replay_block : Block → State → Result State
replay_block blk s = if eqb_ℤ blk.height (pos 0) then ok s else (do
  entries ← need blk.transactions
  s' ← replay_entries entries s
  reward_if_builder blk s')

unfoldable pub replay_chain : List Block → State → Result State
replay_chain [] s = ok s
replay_chain (blk ∷ rest) s = do s' ← replay_block blk s; replay_chain rest s'

-- `_cumulative_iterations`
unfoldable pub cumulative : List Block → Result ℤ
cumulative [] = ok (pos 0)
cumulative (blk ∷ rest) = do
  work ← (if ltb_ℤ (pos 0) blk.height then need_or (pos 0) blk.vdf_iterations else ok (pos 0))
  works ← cumulative rest
  ok (work +ℤ works)

unfoldable pub from_chain : List Block → Result ChainState
from_chain chain = do
  s ← replay_chain chain empty_state
  work ← cumulative chain
  ok (record { chain = chain; state = s; cumulative_iterations = work })

unfoldable pub from_storage : List Block → State → Result ChainState
from_storage chain stored = do
  work ← cumulative chain
  ok (record { chain = chain; state = stored; cumulative_iterations = work })

unfoldable pub from_genesis : Env → Text → ChainState
from_genesis env message = record {
  chain = create_genesis env message ∷ [];
  state = empty_state;
  cumulative_iterations = pos 0;
}

unfoldable pub apply_block_with_state : ChainState → Block → State → Result ChainState
apply_block_with_state cs blk post_tx = do
  s ← reward_if_builder blk post_tx
  work ← need_or (pos 0) blk.vdf_iterations
  ok (record {
    chain = cs.chain ++ blk ∷ [];
    state = s;
    cumulative_iterations = cs.cumulative_iterations +ℤ work;
  })

unfoldable pub apply_block : ChainState → Block → Result ChainState
apply_block cs blk = do
  entries ← need_or [] blk.transactions
  post_tx ← replay_entries entries cs.state
  apply_block_with_state cs blk post_tx

unfoldable pub validate_and_apply : Env → Time → ChainState → Block → Result ChainState
validate_and_apply env now cs blk = do
  probe ← validate env now blk cs.state cs.chain
  apply_block_with_state cs blk probe

-- `cs.tip`
unfoldable pub tip : ChainState → Result Block
tip cs = elim (last? cs.chain) [ none ↦ raise index_error | some blk ↦ ok blk ]

unfoldable pub is_better_than : ChainState → ChainState → Result Bool
is_better_than a b =
    if eqb_ℤ a.cumulative_iterations b.cumulative_iterations
    then (do tip_a ← tip a; tip_b ← tip b; ok (text_lt (tie_break_key tip_a) (tie_break_key tip_b)))
    else ok (ltb_ℤ b.cumulative_iterations a.cumulative_iterations)
