-- ===== src/Tx.antt =====
-- src/tx.py: hashing, sizes and validation of transactions.
pub mod Checks
mod Signature
pub mod Sound
pub mod Replay
pub mod Malformed
use echocoin_core.Prelude.{
  ℕ, ◌+◌, ◌<◌, Bool, not, true, false, ◌||◌, Option, none, some, List, [], ◌∷◌, ℤ, pos, ◌+ℤ◌, ltb_ℤ,
  leb_ℤ, eqb_ℤ, Text, codes, text_eq, ltb, if◌then◌else◌, length, Reason, missing_field,
  empty_outputs, output_fields, output_amount, output_address, bad_fee, nonce_type, key_type,
  wrong_key, invalid_signature, malformed_key, bad_nonce, insufficient_balance, Check, ok, reject,
  raise, type_error, ◌>>=◌, ◌>>◌, reject_if,
}
use echocoin_core.Wire.{
  Field, absent, other, given, need, is_present, Output, output, sequence, scalar, Tx,
}
use echocoin_core.Env.{Bytes, Env}
use echocoin_core.Crypto.{
  sha256_hex, public_key_to_address, is_valid_address_value, verify, serialize_for_signing,
}
use echocoin_core.State.{State, get_balance, get_nonce, total_out}

-- `for field in _REQUIRED_FIELDS: if field not in tx_dict`
unfoldable pub check_present : Tx → Check
check_present t = do
  reject_if (not (is_present t.from)) (missing_field (codes "from"))
  reject_if (not (is_present t.pubkey)) (missing_field (codes "pubkey"))
  reject_if (not (is_present t.outputs)) (missing_field (codes "outputs"))
  reject_if (not (is_present t.nonce)) (missing_field (codes "nonce"))
  reject_if (not (is_present t.fee)) (missing_field (codes "fee"))
  reject_if (not (is_present t.signature)) (missing_field (codes "signature"))

-- `not isinstance(amount, int) or amount <= 0`
abbrev pub is_bad_amount : Field ℤ → Bool
is_bad_amount (given amount) = leb_ℤ amount (pos 0)
is_bad_amount _ = true

-- `not isinstance(fee, int) or fee < 0`
abbrev pub is_bad_fee : Field ℤ → Bool
is_bad_fee (given fee) = ltb_ℤ fee (pos 0)
is_bad_fee _ = true

-- `not isinstance(nonce, int)`
abbrev pub is_bad_int : Field ℤ → Bool
is_bad_int (given n) = false
is_bad_int _ = true

unfoldable pub check_nonce : Tx → State → Check
check_nonce t s = do
  sender ← need t.from
  nonce ← need t.nonce
  reject_if (not (eqb_ℤ nonce (get_nonce sender s +ℤ pos 1))) bad_nonce

unfoldable pub check_balance : Tx → State → Check
check_balance t s = do
  outputs ← need t.outputs
  total ← total_out outputs
  sender ← need t.from
  fee ← need t.fee
  reject_if (ltb_ℤ (get_balance sender s) (total +ℤ fee)) insufficient_balance

module _ (env : Env) where
  -- canonical_json of the fields but "signature", hashed
  unfoldable pub tx_hash : Tx → Text
  tx_hash t = sha256_hex env (env.tx_json (record t { signature = absent }))

  unfoldable pub tx_size : Tx → ℕ
  tx_size t = length (env.tx_json (record t { signature = absent }))

  unfoldable pub tx_size_in_block : Tx → ℕ → ℕ
  tx_size_in_block t position = length (env.tx_json t) + (if ltb 0 position then 1 else 0)

  -- One round of the loop over the outputs.
  unfoldable pub check_output : Output → Check
  check_output (output to amount) = do
    reject_if (not (is_present to) || not (is_present amount)) output_fields
    reject_if (is_bad_amount amount) output_amount
    reject_if (not (is_valid_address_value env to)) output_address
  check_output (sequence has_both) = if has_both then raise type_error else reject output_fields
  check_output scalar = raise type_error

  unfoldable pub check_outputs : List Output → Check
  check_outputs [] = ok tt
  check_outputs (out ∷ outs) = do check_output out; check_outputs outs

  -- `not isinstance(outputs, list) or not outputs`, then the loop.
  unfoldable pub check_outputs_field : Field (List Output) → Check
  check_outputs_field (given []) = reject empty_outputs
  check_outputs_field (given (out ∷ outs)) = check_outputs (out ∷ outs)
  check_outputs_field _ = reject empty_outputs

  unfoldable pub check_fields_and_outputs : Tx → Check
  check_fields_and_outputs t = do
    check_present t
    check_outputs_field t.outputs
    reject_if (is_bad_fee t.fee) bad_fee
    reject_if (is_bad_int t.nonce) nonce_type

  -- `public_key_to_address(pubkey_bytes) != tx_dict["from"]`; its exceptions are caught.
  abbrev pub check_address : Bytes → Field Text → Check
  check_address key from = elim (public_key_to_address env key) [
    | ok addr ↦ elim from [
      | given sender ↦ reject_if (not (text_eq addr sender)) wrong_key
      | absent ↦ reject malformed_key
      | other ↦ reject wrong_key
    ]
    | reject e ↦ reject malformed_key
    | raise e ↦ reject malformed_key
  ]

  -- The body of the `try`, with both texts.
  unfoldable pub check_key : Text → Text → Tx → Check
  check_key pubkey_hex sig_hex t = elim (env.from_hex pubkey_hex) [
    | none ↦ reject malformed_key
    | some pubkey_bytes ↦ elim (env.from_hex sig_hex) [
      | none ↦ reject malformed_key
      | some sig_bytes ↦ do
        check_address pubkey_bytes t.from
        reject_if (not (verify env (serialize_for_signing env t) sig_bytes pubkey_bytes))
            invalid_signature
    ]
  ]

  unfoldable pub check_signature : Tx → Check
  check_signature t = elim t.pubkey [
    | given pubkey_hex ↦ elim t.signature [
      | given sig_hex ↦ check_key pubkey_hex sig_hex t
      | absent ↦ reject key_type
      | other ↦ reject key_type
    ]
    | absent ↦ reject key_type
    | other ↦ reject key_type
  ]

  unfoldable pub validate : Tx → State → Check
  validate t s = do
    check_fields_and_outputs t
    check_signature t
    check_nonce t s
    check_balance t s
