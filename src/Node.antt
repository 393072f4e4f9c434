-- ===== src/Node.antt =====
-- src/node.py: which block a cycle ends with, and which remote chain replaces the local one. `clock`
-- gives the time at which each block is validated.
pub mod Adoption
pub mod Machine
pub mod Restart
pub mod Startup
pub mod Switch
pub mod Winner
use echocoin_core.Prelude.{
  ℕ, zero, suc, ◌+◌, Bool, true, false, not, ◌&&◌, Option, none, some, List, [], ◌∷◌, ℤ, pos, ◌+ℤ◌,
  eqb_ℤ, Text, text_eq, text_lt, if◌then◌else◌, take, drop, last?, Result, Check, ok, reject, raise,
  Reason, invalid_block, genesis_mismatch, replay_error, not_better, index_error, ◌>>=◌,
}
use echocoin_core.Wire.{Time, Block}
use echocoin_core.Env.{Env}
use echocoin_core.Block.{tie_break_key, validate}
use echocoin_core.ChainState.{
  ChainState, from_chain, from_genesis, validate_and_apply, tip, is_better_than,
}

-- What `_evaluate_remote_chain` returns: (False, err, fork_point, tail, None), where the last two
-- may be None as well, or (True, None, fork_point, tail, remote_cs).
pub data Verdict : Type 0 where
  refused : Option (ℕ × List Block) → Reason → Verdict
  accepted : ℕ → List Block → ChainState → Verdict

-- `f"invalid block at {blk['height']}: {err}"`
abbrev pub as_invalid_block {ℓ} : {A : Type ℓ} → ℤ → Result A → Result A
as_invalid_block height (ok a) = ok a
as_invalid_block height (reject e) = reject (invalid_block height e)
as_invalid_block height (raise e) = raise e

-- `remote_chain[0]["hash"] == self.cs.genesis_hash`, for a chain that is not empty
unfoldable pub same_genesis : List Block → List Block → Result Bool
same_genesis local [] = ok false
same_genesis [] (b ∷ remote) = raise index_error
same_genesis (a ∷ local) (b ∷ remote) = ok (text_eq b.hash a.hash)

-- The first position where the hashes differ, or the length of the shorter chain.
unfoldable pub fork_point : List Block → List Block → ℕ
fork_point [] remote = 0
fork_point (a ∷ local) [] = 0
fork_point (a ∷ local) (b ∷ remote) =
    if text_eq a.hash b.hash then suc (fork_point local remote) else 0

-- The first of the blocks with the lowest key, as `min` finds it, behind the best so far and
-- whether that came from a peer.
unfoldable pub lowest : Block × Bool → List Block → Block × Bool
lowest best [] = best
lowest best (b ∷ rest) =
    lowest (if text_lt (tie_break_key b) (tie_break_key best.0) then (b, true) else best) rest

-- The last return values, by the fork choice.
unfoldable pub verdict : ℕ → List Block → ChainState → Bool → Verdict
verdict fork tail remote_cs true = accepted fork tail remote_cs
verdict fork tail remote_cs false = refused (some (fork, tail)) not_better

-- The height and the parent that a block on `top` has.
unfoldable pub is_next : Block → Block → Bool
is_next top b = eqb_ℤ b.height (top.height +ℤ pos 1) && text_eq b.previous_hash top.hash

module _ (env : Env) (clock : Block → Time) (message : Text) where
  -- The loop of `_validate_tail`, with the last `cs`.
  unfoldable pub apply_tail : List Block → ChainState → Result ChainState
  apply_tail [] cs = ok cs
  apply_tail (blk ∷ rest) cs = do
    cs' ← as_invalid_block blk.height (validate_and_apply env (clock blk) cs blk)
    apply_tail rest cs'

  -- The state that the tail starts from.
  unfoldable pub state_of_prefix : List Block → Result ChainState
  state_of_prefix [] = ok (from_genesis env message)
  state_of_prefix (b ∷ prefix) = from_chain (b ∷ prefix)

  unfoldable pub validate_tail : List Block → List Block → Check
  validate_tail tail prefix = do cs ← state_of_prefix prefix; last ← apply_tail tail cs; ok tt

  -- Steps 4 and 5: the replay, of which any exception is caught, and the fork choice.
  unfoldable pub judge : ChainState → List Block → ℕ → Result Verdict
  judge cs remote fork = elim (from_chain remote) [
    | ok remote_cs ↦ do
      better ← is_better_than remote_cs cs
      ok (verdict fork (drop fork remote) remote_cs better)
    | reject e ↦ ok (refused none replay_error)
    | raise e ↦ ok (refused none replay_error)
  ]

  -- Steps 2 and 3: the fork point, and the validation of the tail.
  unfoldable pub evaluate_tail : ChainState → List Block → ℕ → Result Verdict
  evaluate_tail cs remote fork = elim (validate_tail (drop fork remote) (take fork remote)) [
    | ok u ↦ judge cs remote fork
    | reject e ↦ ok (refused none e)
    | raise e ↦ raise e
  ]

  unfoldable pub evaluate_remote_chain : ChainState → List Block → Result Verdict
  evaluate_remote_chain cs remote = same_genesis cs.chain remote >>= λ same.
      if same
      then evaluate_tail cs remote (fork_point cs.chain remote)
      else ok (refused none genesis_mismatch)

  -- The peers' blocks that stand on the tip and are valid there.
  unfoldable pub valid_peers : ChainState → Block → List Block → Result (List Block)
  valid_peers cs top [] = ok []
  valid_peers cs top (b ∷ rest) =
      let found = valid_peers cs top rest in
      if is_next top b
      then (elim (validate env (clock b) b cs.state cs.chain) [
        | ok s ↦ do others ← found; ok (b ∷ others)
        | reject e ↦ found
        | raise e ↦ raise e
      ])
      else found

  -- The winner and whether it came from a peer, or none for a stale candidate.
  unfoldable pub pick_winner : ChainState → Block → List Block → Result (Option (Block × Bool))
  pick_winner cs candidate peer_blocks = do
    top ← tip cs
    valid ← valid_peers cs top peer_blocks
    ok (
        if text_eq candidate.previous_hash top.hash
        then some (lowest (candidate, false) valid)
        else none)
