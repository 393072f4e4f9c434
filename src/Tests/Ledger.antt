-- ===== src/Tests/Ledger.antt =====
-- Runs of transactions, and the theorems about the ledger at concrete inputs.
use echocoin_core.Prelude.{
  ◌≡◌, ◌↔◌, refl, ok, reject, raise, bad_nonce, type_error, Text, [], ◌∷◌, pos, ◌+ℤ◌, ◌≤ℤ◌, arith,
  All, ℕ, zero, suc, true, some,
}
use echocoin_core.Params.{supply_cap}
use echocoin_core.Dict.{get}
use echocoin_core.Wire.{given, scalar, Tx}
use echocoin_core.Crypto.{public_key_to_address, is_valid_address}
use echocoin_core.Crypto.Address.{NoDot, public_key_to_address-is_valid_address}
use echocoin_core.State.{State, apply_tx, get_circulating_supply, compute_reward, get_balance}
use echocoin_core.State.Emission.{reward_within_cap}
use echocoin_core.State.Steps.{debit_all}
use echocoin_core.State.Supply.{supply-apply_tx}
use echocoin_core.Tx.{validate}
use echocoin_core.Tx.Sound.{IsValidTx, validate_iff, validate-apply_tx}
use echocoin_core.Tx.Replay.{apply_tx-validate}
use echocoin_core.Tx.Malformed.{validate_scalar_output}
use echocoin_core.Tests.Toy.{toy, same_words, alice, payment, rich, paid, ledger_runs}

address_runs : public_key_to_address toy (1 ∷ []) ≡ ok alice
unfolding ledger_runs
address_runs = refl

valid_runs : validate toy payment rich ≡ ok tt
unfolding ledger_runs
valid_runs = refl

apply_runs : apply_tx payment rich ≡ ok paid
unfolding ledger_runs
apply_runs = refl

same_words-NoDot : (n : ℕ) → All NoDot (same_words n)
same_words-NoDot zero = tt
same_words-NoDot (suc n) = ((refl, tt), same_words-NoDot n)

public_key_to_address-is_valid_address_example :
    (addr : Text) × (public_key_to_address toy (1 ∷ []) ≡ ok addr)
    × (is_valid_address toy addr ≡ true)
public_key_to_address-is_valid_address_example =
    public_key_to_address-is_valid_address toy refl (same_words-NoDot 2048) (1 ∷ [])

reward_within_cap_example :
    (pos 0 ≤ℤ compute_reward (pos 5)) × (pos 5 +ℤ compute_reward (pos 5) ≤ℤ pos supply_cap)
reward_within_cap_example = reward_within_cap (pos 5) (omega arith) (omega arith)

supply-apply_tx_example : get_circulating_supply paid +ℤ pos 2 ≡ get_circulating_supply rich
supply-apply_tx_example = supply-apply_tx payment rich paid (pos 2) refl apply_runs

validate_iff_example : (validate toy payment rich ≡ ok tt) ↔ IsValidTx toy payment rich
validate_iff_example = validate_iff toy payment rich

validate-apply_tx_example : (s : State) × (apply_tx payment rich ≡ ok s)
validate-apply_tx_example = validate-apply_tx toy payment rich valid_runs

apply_tx-validate_example : validate toy payment paid ≡ reject bad_nonce
apply_tx-validate_example = apply_tx-validate toy payment rich paid valid_runs apply_runs

abbrev odd_payment : Tx
odd_payment = record payment { outputs = given (scalar ∷ []) }

validate_scalar_output_example : validate toy odd_payment rich ≡ raise type_error
unfolding ledger_runs
validate_scalar_output_example = validate_scalar_output toy odd_payment rich [] [] refl refl tt

abbrev emptied : State
emptied = record rich { balances = (alice, pos 0) ∷ [] }

debit_all_example :
    (get alice emptied.balances ≡ some (pos 0)) × (get_balance alice emptied ≡ pos 0)
unfolding ledger_runs
debit_all_example = debit_all alice rich emptied refl
