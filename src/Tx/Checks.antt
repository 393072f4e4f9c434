-- ===== src/Tx/Checks.antt =====
-- What each step of `validate` establishes, and when it passes.
use echocoin_core.Prelude.{
  ◌≡◌, refl, true, List, [], ◌∷◌, ℤ, pos, ◌+ℤ◌, ◌≤ℤ◌, ◌<ℤ◌, Text, ok, >>-eq-ok, All, arith, some,
  int_laws,
}
use echocoin_core.Wire.{given, absent, other, Output, output, sequence, scalar, Tx}
use echocoin_core.Env.{Bytes, Env}
use echocoin_core.Crypto.{public_key_to_address, is_valid_address, serialize_for_signing}
use echocoin_core.State.{total_out}
use echocoin_core.Tx.{check_output, check_outputs}

module _ (env : Env) where
  -- A dict with a valid address and a positive amount.
  pub record IsGoodOutput (out : Output) : Type 0 where
    pub to : Text
    pub amount : ℤ
    pub shape : out ≡ output (given to) (given amount)
    pub positive : pos 0 <ℤ amount
    pub address : is_valid_address env to ≡ true

  check_output-IsGoodOutput : (out : Output) → check_output env out ≡ ok tt → IsGoodOutput out
  unfolding check_output
  check_output-IsGoodOutput (output (given to) (given amount)) h = record {
    to = to;
    amount = amount;
    shape = refl;
    positive = ground arith;
    address = ground arith;
  }
  check_output-IsGoodOutput (output (given to) absent) h = ground arith
  check_output-IsGoodOutput (output (given to) other) h = ground arith
  check_output-IsGoodOutput (output absent amount) h = ground arith
  check_output-IsGoodOutput (output other amount) h = ground arith
  check_output-IsGoodOutput (sequence b) h = ground arith
  check_output-IsGoodOutput scalar h = ground arith

  pub check_outputs-IsGoodOutput :
      (outs : List Output) → check_outputs env outs ≡ ok tt → All IsGoodOutput outs
  unfolding check_outputs
  check_outputs-IsGoodOutput [] h = tt
  check_outputs-IsGoodOutput (out ∷ outs) h =
      let (first, rest) = >>-eq-ok (check_output env out) _ h in
      (check_output-IsGoodOutput out first, check_outputs-IsGoodOutput outs rest)

  pub check_outputs_of_IsGoodOutput :
      (outs : List Output) → All IsGoodOutput outs → check_outputs env outs ≡ ok tt
  unfolding check_outputs check_output
  check_outputs_of_IsGoodOutput [] h = refl
  check_outputs_of_IsGoodOutput (out ∷ outs) h =
      rw h.0.shape
        (ground (arith, h.0.address, h.0.positive, check_outputs_of_IsGoodOutput outs h.1))

  -- Good outputs have a total that is not negative, and positive if there is one.
  pub total_out_of_IsGoodOutput :
      (outs : List Output)
      → All IsGoodOutput outs
      → (total : ℤ) × (total_out outs ≡ ok total) × (pos 0 ≤ℤ total)
  unfolding total_out
  total_out_of_IsGoodOutput [] h = (pos 0, refl, omega arith)
  total_out_of_IsGoodOutput (out ∷ outs) h =
      let (rest, e, n) = total_out_of_IsGoodOutput outs h.1 in
      (h.0.amount +ℤ rest, rw (h.0.shape, e), omega (int_laws, h.0.positive, n))

  pub total_out_positive :
      (out : Output) (outs : List Output) (total : ℤ)
      → All IsGoodOutput (out ∷ outs)
      → total_out (out ∷ outs) ≡ ok total
      → pos 0 <ℤ total
  unfolding total_out
  total_out_positive out outs total h e =
      let (rest, f, n) = total_out_of_IsGoodOutput outs h.1 in
      let sum : ok (h.0.amount +ℤ rest) ≡ ok total = rw (h.0.shape, f) at e in
      let same : h.0.amount +ℤ rest ≡ total = cc in rw (← same) (omega (int_laws, h.0.positive, n))

  -- The signature was made with the key of the sender's address.
  pub record IsSigned (t : Tx) (sender : Text) : Type 0 where
    pub pubkey_hex : Text
    pub sig_hex : Text
    pub key : Bytes
    pub sig : Bytes
    pub pubkey_eq : t.pubkey ≡ given pubkey_hex
    pub signature_eq : t.signature ≡ given sig_hex
    pub key_eq : env.from_hex pubkey_hex ≡ some key
    pub sig_eq : env.from_hex sig_hex ≡ some sig
    pub address_eq : public_key_to_address env key ≡ ok sender
    pub verified : env.falcon_verify (serialize_for_signing env t) sig key ≡ some true
