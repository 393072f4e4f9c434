-- ===== src/State.antt =====
-- src/state.py: balances, nonces and emission. A method that can raise returns a `Result`; the
-- state after a raise is dropped by every caller, so it is not returned.
pub mod Steps
pub mod Applied
pub mod Emission
pub mod Supply
pub mod Nonces
use echocoin_core.Prelude.{
  ℕ, List, [], ◌∷◌, ℤ, pos, ◌+ℤ◌, ◌-ℤ◌, scale, floor_div, ltb_ℤ, leb_ℤ, max_ℤ, Text, Result, ok,
  raise, value_error, type_error, ◌>>=◌, ◌>>◌, raise_if, if◌then◌else◌,
}
use echocoin_core.Params.{supply_cap, emission_decay_numerator, emission_decay_denominator}
use echocoin_core.Dict.{Dict, get_or, set, sum_values}
use echocoin_core.Wire.{need, Output, output, sequence, scalar, Tx}

unfoldable pub compute_can_mint : ℤ → ℤ
compute_can_mint total_minted = max_ℤ (pos 0) (pos supply_cap -ℤ total_minted)

unfoldable pub compute_reward : ℤ → ℤ
compute_reward total_minted =
    floor_div (scale (compute_can_mint total_minted) emission_decay_numerator)
      emission_decay_denominator

pub record State : Type 0 where
  pub balances : Dict ℤ
  pub nonces : Dict ℤ
  pub total_minted : ℤ

-- `State()`
abbrev pub empty_state : State
empty_state = record { balances = []; nonces = []; total_minted = pos 0 }

unfoldable pub get_balance : Text → State → ℤ
get_balance addr s = get_or addr (pos 0) s.balances

unfoldable pub get_nonce : Text → State → ℤ
get_nonce addr s = get_or addr (pos 0) s.nonces

unfoldable pub get_circulating_supply : State → ℤ
get_circulating_supply s = sum_values s.balances

unfoldable pub credit : Text → ℤ → State → Result State
credit addr amount s = do
  raise_if (leb_ℤ amount (pos 0)) value_error
  ok (record s { balances = set addr (get_balance addr s +ℤ amount) s.balances })

unfoldable pub debit : Text → ℤ → State → Result State
debit addr amount s = do
  raise_if (leb_ℤ amount (pos 0)) value_error
  raise_if (ltb_ℤ (get_balance addr s) amount) value_error
  ok (record s { balances = set addr (get_balance addr s -ℤ amount) s.balances })

unfoldable pub set_nonce : Text → ℤ → State → State
set_nonce addr nonce s = record s { nonces = set addr nonce s.nonces }

-- `out["amount"]`
abbrev pub amount_of : Output → Result ℤ
amount_of (output to amount) = need amount
amount_of (sequence b) = raise type_error
amount_of scalar = raise type_error

-- `out["to"]`
abbrev pub to_of : Output → Result Text
to_of (output to amount) = need to
to_of (sequence b) = raise type_error
to_of scalar = raise type_error

-- `sum(o["amount"] for o in outputs)`
unfoldable pub total_out : List Output → Result ℤ
total_out [] = ok (pos 0)
total_out (out ∷ outs) = do amount ← amount_of out; rest ← total_out outs; ok (amount +ℤ rest)

-- The loop of `apply_tx` over the outputs.
unfoldable pub credit_outputs : List Output → State → Result State
credit_outputs [] s = ok s
credit_outputs (out ∷ outs) s = do
  to ← to_of out
  amount ← amount_of out
  s' ← credit to amount s
  credit_outputs outs s'

unfoldable pub apply_tx : Tx → State → Result State
apply_tx t s = do
  sender ← need t.from
  outputs ← need t.outputs
  total ← total_out outputs
  fee ← need t.fee
  debited ← debit sender (total +ℤ fee) s
  credited ← credit_outputs outputs debited
  nonce ← need t.nonce
  ok (set_nonce sender nonce credited)

-- `State.compute_can_mint` and `State.compute_block_reward`
unfoldable pub can_mint : State → ℤ
can_mint s = compute_can_mint s.total_minted

unfoldable pub compute_block_reward : State → ℤ
compute_block_reward s = compute_reward s.total_minted

unfoldable pub apply_reward_distribution : List (Text × ℤ) → State → Result State
apply_reward_distribution [] s = ok s
apply_reward_distribution ((addr, amount) ∷ rest) s =
    if leb_ℤ (pos 1) amount
    then (do
      credited ← credit addr amount s
      apply_reward_distribution rest
          (record credited { total_minted = credited.total_minted +ℤ amount }))
    else apply_reward_distribution rest s
