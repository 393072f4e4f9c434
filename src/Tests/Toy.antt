-- ===== src/Tests/Toy.antt =====
-- A small environment in which the program runs: hashes and hex are the identity, every signature
-- and every VDF proof verifies, and all 2048 words are the same.
use echocoin_core.Prelude.{
  ℕ, zero, suc, true, some, List, [], ◌∷◌, pos, pos_part, scale, floor_div, ltb_ℤ, Text, codes,
  text_eq, text_lt, ◌+ℤ◌, ◌-ℤ◌,
}
use echocoin_core.Wire.{given, output, Tx, Time, seconds, nan, Block}
use echocoin_core.Env.{Env}
use echocoin_core.State.{State}
use echocoin_core.Crypto.{
  split, join, mem, all_mem, from_bytes, sha256_hex, address_words, public_key_to_address,
  is_valid_address, verify, serialize_for_signing,
}
use echocoin_core.Dict.{get, get_or, contains, set, sum_values}
use echocoin_core.State.{
  get_balance, get_nonce, get_circulating_supply, credit, debit, set_nonce, total_out,
  credit_outputs, apply_tx, compute_can_mint, compute_reward, compute_block_reward,
  apply_reward_distribution,
}
use echocoin_core.Tx.{
  tx_hash, tx_size, check_present, check_output, check_outputs, check_outputs_field,
  check_fields_and_outputs, check_key, check_signature, check_nonce, check_balance, validate,
}
use echocoin_core.Vdf.{vdf_verify}
use echocoin_core.Block
use echocoin_core.Block.{
  iterations_at, get_vdf_iterations, tie_break_key, entries_fees, block_fees, check_parent,
  check_after_parent, check_timestamp, tip_hash, vdf_challenge, block_hash, block_size,
  create_genesis, check_hash, check_vdf, check_vdf_fields, check_builder_and_vdf, apply_entries,
  apply_transactions,
}
use echocoin_core.Mempool.{int_of}
use echocoin_core.ChainState.{
  ChainState, from_genesis, credit_fees, mint_reward, apply_builder_reward, reward_if_builder,
  replay_entries, replay_block, replay_chain, cumulative, from_chain, apply_block_with_state,
  validate_and_apply, tip, is_better_than,
}

abbrev pub same_words : ℕ → List Text
same_words zero = []
same_words (suc n) = codes "a" ∷ same_words n

abbrev first_of : List Time → Time
first_of [] = nan
first_of (d ∷ ds) = d

abbrev pub toy : Env
toy = record {
  sha256 = λ b. b;
  hex = λ b. b;
  from_hex = λ s. some s;
  encode = λ s. s;
  tx_json = λ t. pos_part (int_of t.nonce) ∷ [];
  body_json = λ b. pos_part b.height ∷ [];
  block_json = λ b. [];
  falcon_verify = λ m s k. some true;
  words = same_words 2048;
  create_discriminant = λ c n. some [];
  verify_n_wesolowski = λ d g b i n r. some true;
  median = first_of;
  ratio_lt = λ a b. ltb_ℤ (scale a.0 b.1) (scale b.0 a.1);
}

-- The address of every key.
abbrev pub alice : Text
alice = codes "a.a.a.a.a.a.a.a.a.a.a.a"

-- A transaction of 10 ticks from `alice` to herself, with a fee of 2.
abbrev pub payment : Tx
payment = record {
  from = given alice;
  pubkey = given (1 ∷ []);
  outputs = given (output (given alice) (given (pos 10)) ∷ []);
  nonce = given (pos 1);
  fee = given (pos 2);
  signature = given (codes "00");
  extra = [];
}

abbrev pub rich : State
rich = record { balances = (alice, pos 100) ∷ []; nonces = []; total_minted = pos 100 }

abbrev pub paid : State
paid = record {
  balances = (alice, pos 98) ∷ [];
  nonces = (alice, pos 1) ∷ [];
  total_minted = pos 100;
}

abbrev pub message : Text
message = codes "LapseCoin genesis."

abbrev pub genesis_state : ChainState
genesis_state = from_genesis toy message

-- The first block above the genesis block, without transactions.
abbrev pub block_one : Block
block_one = record {
  body = record {
    height = pos 1;
    previous_hash = 0 ∷ [];
    timestamp = given (seconds 1787869401);
    transactions = given [];
    builder = given alice;
    vdf_output = given (codes "05");
    vdf_proof = given (codes "06");
    vdf_iterations = given (pos 12_200_000);
    extra = [];
  };
  hash = 1 ∷ [];
}

-- All that a test of transactions computes with.
unfoldable pub ledger_runs : Unit {0}
unfolding apply_tx total_out debit credit ◌+ℤ◌ ◌-ℤ◌ scale floor_div get_balance get_nonce get_or get
    set contains text_eq credit_outputs set_nonce get_circulating_supply sum_values validate
    check_fields_and_outputs check_present check_outputs_field check_outputs check_output
    is_valid_address split all_mem mem check_signature check_key public_key_to_address address_words
    from_bytes join serialize_for_signing verify check_balance check_nonce tx_hash tx_size
    sha256_hex compute_reward compute_can_mint compute_block_reward apply_reward_distribution
ledger_runs = tt

-- All that a test of blocks and chains computes with.
unfoldable pub chain_runs : Unit {0}
unfolding ledger_runs Block.validate check_hash check_parent check_timestamp check_after_parent
    check_builder_and_vdf check_vdf_fields check_vdf tip_hash vdf_challenge vdf_verify
    get_vdf_iterations iterations_at apply_transactions apply_entries block_hash block_size
    block_fees entries_fees create_genesis from_genesis validate_and_apply apply_block_with_state
    reward_if_builder apply_builder_reward credit_fees mint_reward from_chain replay_chain
    replay_block replay_entries cumulative is_better_than tip tie_break_key text_lt
chain_runs = tt
