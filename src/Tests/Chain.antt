-- ===== src/Tests/Chain.antt =====
-- Runs of blocks, and the theorems about blocks and chains at concrete inputs.
use echocoin_core.Prelude.{
  ◌≡◌, ◌≢◌, refl, ok, raise, reject, Result, true, false, [], ◌∷◌, ◌++◌, ℤ, pos, ◌≤ℤ◌, Text, codes,
}
use echocoin_core.Wire.{given, other, Time, nan, seconds, Block}
use echocoin_core.State.{empty_state, get_circulating_supply}
use echocoin_core.Block
use echocoin_core.Block.{get_vdf_iterations, check_timestamp, apply_entries, create_genesis}
use echocoin_core.Block.Follows.{Follows, first, Follows-monotone}
use echocoin_core.Block.Sound.{IsValidBlock, validate-IsValidBlock}
use echocoin_core.Block.Gaps.{validate_height_zero, check_timestamp_nan}
use echocoin_core.ChainState.{ChainState, from_chain, validate_and_apply, is_better_than}
use echocoin_core.ChainState.Supply.{IsSound}
use echocoin_core.ChainState.Replay.{Reached, genesis, grown, Reached-supply, from_chain-Reached}
use echocoin_core.ChainState.ForkChoice.{
  is_better_than_asymm, is_better_than_total, once, and_then, Improves-is_better_than,
}
use echocoin_core.ChainState.HeightZero.{height_zero_wins}
use echocoin_core.Tests.Toy.{toy, message, genesis_state, block_one, chain_runs}

-- The clock at which the first block arrives.
abbrev pub now : Time
now = seconds 1787869401

abbrev or_genesis : Result ChainState → ChainState
or_genesis (ok cs) = cs
or_genesis (reject e) = genesis_state
or_genesis (raise e) = genesis_state

abbrev pub one : ChainState
one = or_genesis (validate_and_apply toy now genesis_state block_one)

one_runs : validate_and_apply toy now genesis_state block_one ≡ ok one
unfolding chain_runs
one_runs = refl

pub height_one : block_one.height ≢ pos 0
height_one e = cc

one-Reached : Reached toy message one
one-Reached = grown genesis_state now block_one one (genesis genesis_state refl) height_one one_runs

Reached-supply_example :
    IsSound one.state × (get_circulating_supply one.state ≡ one.state.total_minted)
Reached-supply_example = Reached-supply toy message one one-Reached

from_chain-Reached_example : from_chain one.chain ≡ ok one
from_chain-Reached_example = from_chain-Reached toy message one one-Reached

one_valid : Block.validate toy now block_one empty_state genesis_state.chain ≡ ok empty_state
unfolding chain_runs
one_valid = refl

validate-IsValidBlock_example :
    IsValidBlock toy now block_one empty_state genesis_state.chain empty_state
validate-IsValidBlock_example =
    validate-IsValidBlock toy now block_one empty_state genesis_state.chain empty_state height_one
      one_valid

-- A block of height 0 with a proof of nothing, of the lowest key.
abbrev intruder : Block
intruder = record {
  body = record block_one.body { height = pos 0; vdf_output = given (0 ∷ []); vdf_proof = other };
  hash = 0 ∷ [];
}

validate_height_zero_example :
    Block.validate toy now intruder empty_state genesis_state.chain
    ≡ apply_entries toy [] empty_state
unfolding chain_runs
validate_height_zero_example =
    validate_height_zero toy now intruder empty_state genesis_state.chain [] refl refl refl refl
      refl

one_replays : from_chain (create_genesis toy message ∷ block_one ∷ []) ≡ ok one
unfolding chain_runs
one_replays = refl

height_zero_wins_example :
    (cs : ChainState) × (from_chain ((create_genesis toy message ∷ block_one ∷ []) ++ intruder ∷ [])
      ≡ ok cs)
    × (cs.state ≡ one.state)
    × (cs.cumulative_iterations ≡ one.cumulative_iterations)
    × (is_better_than cs one ≡ ok true)
unfolding chain_runs
height_zero_wins_example =
    height_zero_wins (create_genesis toy message ∷ block_one ∷ []) one block_one intruder
      one_replays refl refl refl

abbrev timeless : Block
timeless = record block_one { body = record block_one.body { timestamp = given nan } }

check_timestamp_nan_example : check_timestamp (seconds 0) timeless (block_one ∷ []) ≡ ok tt
check_timestamp_nan_example =
    check_timestamp_nan toy (seconds 0) (seconds 1787869401) timeless (block_one ∷ []) block_one
      refl refl refl

start-Follows : Follows toy.median (block_one ∷ [])
start-Follows = first block_one (block_one ∷ []) refl refl

Follows-monotone_example : pos 12_200_000 ≤ℤ pos 12_200_000
unfolding chain_runs
Follows-monotone_example =
    Follows-monotone toy.median (block_one ∷ []) block_one (pos 12_200_000) (pos 12_200_000)
      start-Follows refl refl refl

-- Three chains on the genesis block, the best of them first.
abbrev rival : ℤ → Text → ChainState
rival work output = record genesis_state {
  chain = record block_one { body = record block_one.body { vdf_output = given output } } ∷ [];
  cumulative_iterations = work;
}

abbrev best : ChainState
best = rival (pos 9) (codes "1")

abbrev second : ChainState
second = rival (pos 9) (codes "2")

abbrev third : ChainState
third = rival (pos 8) (codes "0")

is_better_than_asymm_example : is_better_than second best ≡ ok false
unfolding chain_runs
is_better_than_asymm_example =
    is_better_than_asymm best second (record { top = _; top_eq = refl })
      (record { top = _; top_eq = refl }) refl

Improves-is_better_than_example : (is_better_than best third ≡ ok true) × (best ≢ third)
unfolding chain_runs
Improves-is_better_than_example = Improves-is_better_than third best (
    and_then third second best
      (once third second (record { top = _; top_eq = refl }) (record { top = _; top_eq = refl })
        refl)
      (record { top = _; top_eq = refl }) refl)

is_better_than_total_example :
    (best.cumulative_iterations ≡ best.cumulative_iterations)
    × (◌≡◌ {A = Text} (codes "1") (codes "1"))
unfolding chain_runs
is_better_than_total_example =
    is_better_than_total best best (record { top = _; top_eq = refl })
      (record { top = _; top_eq = refl }) refl refl
