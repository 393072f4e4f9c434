-- ===== src/Tests/Cycle.antt =====
-- Runs of the node's choices, and the theorems about them at concrete inputs.
use echocoin_core.Prelude.{
  ◌≡◌, ◌⊎◌, refl, ok, some, true, false, [], ◌∷◌, codes, All, text_eq, text_lt,
}
use echocoin_core.Wire.{given, Time, Block}
use echocoin_core.Block.{create_genesis}
use echocoin_core.ChainState.{tip, is_better_than}
use echocoin_core.ChainState.Replay.{Reached, genesis}
use echocoin_core.Node.{
  accepted, same_genesis, fork_point, lowest, is_next, verdict, apply_tail, state_of_prefix,
  validate_tail, judge, evaluate_tail, evaluate_remote_chain, valid_peers, pick_winner,
}
use echocoin_core.Node.Adoption.{evaluate_remote_chain-Reached}
use echocoin_core.Node.Winner.{IsNotBelow, IsCandidate, pick_winner_lem}
use echocoin_core.Tests.Toy.{toy, message, genesis_state, block_one, chain_runs}
use echocoin_core.Tests.Chain.{now, one, height_one}

abbrev pub clock : Block → Time
clock b = now

-- A candidate of the node itself, with a higher key than the peer's block.
abbrev own : Block
own = record block_one { body = record block_one.body { vdf_output = given (codes "~") } }

pub adopts :
    evaluate_remote_chain toy clock message genesis_state one.chain
    ≡ ok (accepted 1 (block_one ∷ []) one)
unfolding chain_runs same_genesis fork_point verdict apply_tail state_of_prefix validate_tail judge
    evaluate_tail evaluate_remote_chain
adopts = refl

evaluate_remote_chain-Reached_example :
    Reached toy message one × (one.chain ≡ one.chain) × (is_better_than one genesis_state ≡ ok true)
unfolding fork_point text_eq chain_runs
evaluate_remote_chain-Reached_example =
    evaluate_remote_chain-Reached toy clock message genesis_state genesis_state one.chain 1
      (block_one ∷ []) one adopts (genesis genesis_state refl) refl (height_one, tt)

peer_wins :
    pick_winner toy clock message genesis_state own (block_one ∷ []) ≡ ok (some (block_one, true))
unfolding chain_runs lowest is_next valid_peers pick_winner text_lt
peer_wins = refl

abbrev top : Block
top = create_genesis toy message

genesis_tip : tip genesis_state ≡ ok top
unfolding chain_runs
genesis_tip = refl

pick_winner_lem_example :
    (((block_one ≡ own) × (true ≡ false))
      ⊎ (IsCandidate toy clock message genesis_state top block_one × (true ≡ true)))
    × IsNotBelow block_one own
    × All
        (λ b. IsCandidate toy clock message genesis_state top b → IsNotBelow block_one b)
        (block_one ∷ [])
pick_winner_lem_example =
    pick_winner_lem toy clock message genesis_state top own block_one (block_one ∷ []) true
      genesis_tip peer_wins
