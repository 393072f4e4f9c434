-- ===== src/Tx/Replay.antt =====
-- A transaction that comes a second time.
use echocoin_core.Prelude.{
  ◌≡◌, refl, ℤ, pos, ◌+ℤ◌, ◌≤ℤ◌, Text, text_eq_refl, ok, reject, bad_nonce, arith, >>-eq-ok, eqb_ℤ,
  false,
}
use echocoin_core.Wire.{given, Tx, Field}
use echocoin_core.Env.{Env}
use echocoin_core.State.{State, get_nonce, apply_tx}
use echocoin_core.State.Nonces.{nonce-apply_tx}
use echocoin_core.Tx.{
  check_fields_and_outputs, check_signature, check_nonce, validate, tx_hash, tx_size,
}
use echocoin_core.Tx.Sound.{IsValidTx, validate-IsValidTx}

late_nonce : (n k : ℤ) → n ≤ℤ k → eqb_ℤ n (k +ℤ pos 1) ≡ false
unfolding ◌+ℤ◌
late_nonce n k h = ground arith

module _ (env : Env) where
  -- Once a transaction was accepted in `s`, every state whose nonce for the sender has reached the
  -- transaction's rejects it for its nonce.
  pub validate_behind :
      (t : Tx) (s u : State) (sender : Text) (nonce : ℤ)
      → t.from ≡ given sender
      → t.nonce ≡ given nonce
      → validate env t s ≡ ok tt
      → nonce ≤ℤ get_nonce sender u
      → validate env t u ≡ reject bad_nonce
  unfolding validate check_nonce
  validate_behind t s u sender nonce e f h behind =
      let (shape, h1) = >>-eq-ok (check_fields_and_outputs env t) _ h in
      let (signature, h2) = >>-eq-ok (check_signature env t) _ h1 in
      let late : eqb_ℤ nonce (get_nonce sender u +ℤ pos 1) ≡ false =
        late_nonce nonce (get_nonce sender u) behind in
      rw (shape, signature, e, f, late) refl

  -- A transaction that was accepted and applied is rejected by the state that it left.
  pub apply_tx-validate :
      (t : Tx) (s s' : State)
      → validate env t s ≡ ok tt
      → apply_tx t s ≡ ok s'
      → validate env t s' ≡ reject bad_nonce
  apply_tx-validate t s s' h a =
      let v : IsValidTx env t s = validate-IsValidTx env t s h in
      let n : get_nonce v.sender s' ≡ v.nonce =
        rw text_eq_refl at
          (nonce-apply_tx t s s' v.sender v.nonce v.from_eq v.nonce_eq a v.sender) in
      validate_behind t s s' v.sender v.nonce v.from_eq v.nonce_eq h (rw n (omega arith))

  -- Signing a transaction again changes neither its hash nor its size.
  pub tx_hash_resigned :
      (t : Tx) (signature : Field Text)
      → (tx_hash env (record t { signature = signature }) ≡ tx_hash env t)
        × (tx_size env (record t { signature = signature }) ≡ tx_size env t)
  unfolding tx_hash tx_size
  tx_hash_resigned t signature = (refl, refl)
