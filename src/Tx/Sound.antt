-- ===== src/Tx/Sound.antt =====
-- What `validate` of src/tx.py accepts, and whether it can be applied.
use echocoin_core.Prelude.{
  ◌≡◌, refl, ◌↔◌, false, List, [], ◌∷◌, ℤ, pos, ◌+ℤ◌, ◌-ℤ◌, ◌≤ℤ◌, ◌<ℤ◌, int_laws, eqb_refl, Text,
  ok, >>=-eq-ok, >>-eq-ok, reject_if, All, arith,
}
use echocoin_core.Dict.{set}
use echocoin_core.Wire.{Field, given, absent, other, need, need-eq-ok, Output, Tx}
use echocoin_core.Env.{Env}
use echocoin_core.State.{
  State, get_balance, get_nonce, total_out, debit, credit_outputs, set_nonce, apply_tx,
}
use echocoin_core.State.Steps.{credit-ok, debit-ok}
use echocoin_core.Tx.{
  check_present, check_outputs_field, check_fields_and_outputs, check_outputs, check_signature,
  check_nonce, check_balance, validate, is_bad_fee,
}
use echocoin_core.Tx.Checks.{
  IsGoodOutput, IsSigned, check_outputs-IsGoodOutput, check_outputs_of_IsGoodOutput,
  total_out_positive,
}
use echocoin_core.Tx.Signature.{check_signature-IsSigned, check_signature_of_IsSigned}

-- What a transaction promises that may be applied to `s`.
pub record IsValidTx (env : Env) (t : Tx) (s : State) : Type 0 where
  pub sender : Text
  pub first : Output
  pub rest : List Output
  pub total : ℤ
  pub fee : ℤ
  pub nonce : ℤ
  pub from_eq : t.from ≡ given sender
  pub outputs_eq : t.outputs ≡ given (first ∷ rest)
  pub fee_eq : t.fee ≡ given fee
  pub nonce_eq : t.nonce ≡ given nonce
  pub good : All (IsGoodOutput env) (first ∷ rest)
  pub total_eq : total_out (first ∷ rest) ≡ ok total
  pub fee_nonneg : pos 0 ≤ℤ fee
  pub signed : IsSigned env t sender
  pub next_nonce : nonce ≡ get_nonce sender s +ℤ pos 1
  pub covered : total +ℤ fee ≤ℤ get_balance sender s

module _ (env : Env) where
  outputs_field :
      (f : Field (List Output))
      → check_outputs_field env f ≡ ok tt
      → (first : Output) × (rest : List Output) × (f ≡ given (first ∷ rest))
        × All (IsGoodOutput env) (first ∷ rest)
  unfolding check_outputs_field
  outputs_field (given []) h = cc
  outputs_field (given (out ∷ outs)) h =
      (out, outs, refl, check_outputs-IsGoodOutput env (out ∷ outs) h)
  outputs_field absent h = cc
  outputs_field other h = cc

  fee_field : (f : Field ℤ) → is_bad_fee f ≡ false → (fee : ℤ) × (f ≡ given fee) × (pos 0 ≤ℤ fee)
  fee_field (given fee) h = (fee, refl, ground arith)
  fee_field absent h = ground arith
  fee_field other h = ground arith

  pub validate-IsValidTx : (t : Tx) (s : State) → validate env t s ≡ ok tt → IsValidTx env t s
  unfolding validate check_fields_and_outputs check_nonce check_balance
  validate-IsValidTx t s h =
      let (shape, h1) = >>-eq-ok (check_fields_and_outputs env t) _ h in
      let (signature, h2) = >>-eq-ok (check_signature env t) _ h1 in
      let (order, balance) = >>-eq-ok (check_nonce t s) _ h2 in
      let (_, k1) = >>-eq-ok (check_present t) _ shape in
      let (outs, k2) = >>-eq-ok (check_outputs_field env t.outputs) _ k1 in
      let (good_fee, _) = >>-eq-ok (reject_if (is_bad_fee t.fee) _) _ k2 in
      let (sender, f1, n1) = >>=-eq-ok (need t.from) _ order in
      let (nonce, f2, n2) = >>=-eq-ok (need t.nonce) _ n1 in
      let (outputs, f3, b1) = >>=-eq-ok (need t.outputs) _ balance in
      let (total, f4, b2) = >>=-eq-ok (total_out outputs) _ b1 in
      let (sender', f5, b3) = >>=-eq-ok (need t.from) _ b2 in
      let (fee', f6, b4) = >>=-eq-ok (need t.fee) _ b3 in
      let (first, rest, o, good) = outputs_field t.outputs outs in
      let (fee, e, n) = fee_field t.fee (ground (arith, good_fee)) in
      let o3 : t.outputs ≡ given outputs = need-eq-ok t.outputs f3 in
      let same_outputs : outputs ≡ first ∷ rest = cc in
      let e1 : t.from ≡ given sender = need-eq-ok t.from f1 in
      let e5 : t.from ≡ given sender' = need-eq-ok t.from f5 in
      let same_sender : sender' ≡ sender = cc in
      let e6 : t.fee ≡ given fee' = need-eq-ok t.fee f6 in
      let same_fee : fee' ≡ fee = cc in
      record {
        sender = sender;
        first = first;
        rest = rest;
        total = total;
        fee = fee;
        nonce = nonce;
        from_eq = e1;
        outputs_eq = o;
        fee_eq = e;
        nonce_eq = need-eq-ok t.nonce f2;
        good = good;
        total_eq = cc;
        fee_nonneg = n;
        signed = check_signature-IsSigned env t sender e1 signature;
        next_nonce = ground (arith, n2);
        covered = rw (← same_sender, ← same_fee) (ground (arith, b4));
      }

  pub validate_of_IsValidTx : (t : Tx) (s : State) → IsValidTx env t s → validate env t s ≡ ok tt
  unfolding validate check_fields_and_outputs check_present check_outputs_field check_nonce
      check_balance
  validate_of_IsValidTx t s v =
      let sig : check_signature env t ≡ ok tt =
        check_signature_of_IsSigned env t v.sender v.from_eq v.signed in
      let pub_eq : t.pubkey ≡ given v.signed.pubkey_hex = v.signed.pubkey_eq in
      let sig_eq : t.signature ≡ given v.signed.sig_hex = v.signed.signature_eq in
      let outs : check_outputs env (v.first ∷ v.rest) ≡ ok tt =
        check_outputs_of_IsGoodOutput env (v.first ∷ v.rest) v.good in
      ground (
        arith,
        sig,
        pub_eq,
        sig_eq,
        outs,
        v.from_eq,
        v.outputs_eq,
        v.fee_eq,
        v.nonce_eq,
        v.total_eq,
        v.fee_nonneg,
        v.next_nonce,
        v.covered,
        eqb_refl v.nonce,
      )

  -- `validate` accepts a transaction exactly when it is well formed, signed with the key of its
  -- sender's address, carries the sender's next nonce, and its outputs and fee are covered.
  pub validate_iff : (t : Tx) (s : State) → (validate env t s ≡ ok tt) ↔ IsValidTx env t s
  validate_iff t s = (validate-IsValidTx t s, validate_of_IsValidTx t s)

  credit_outputs-ok :
      (outs : List Output) (s : State)
      → All (IsGoodOutput env) outs
      → (s' : State) × (credit_outputs outs s ≡ ok s')
  unfolding credit_outputs
  credit_outputs-ok [] s h = (s, refl)
  credit_outputs-ok (out ∷ outs) s h =
      let paid : State = record s {
        balances = set h.0.to (get_balance h.0.to s +ℤ h.0.amount) s.balances;
      } in
      let (s', e) = credit_outputs-ok outs paid h.1 in
      (s', rw (h.0.shape, credit-ok h.0.to h.0.amount s h.0.positive) e)

  -- A transaction that `validate` accepts is applied without an exception.
  pub validate-apply_tx :
      (t : Tx) (s : State) → validate env t s ≡ ok tt → (s' : State) × (apply_tx t s ≡ ok s')
  unfolding apply_tx
  validate-apply_tx t s h =
      let v : IsValidTx env t s = validate-IsValidTx t s h in
      let some_out : pos 0 <ℤ v.total =
        total_out_positive env v.first v.rest v.total v.good v.total_eq in
      let debited : State = record s {
        balances = set v.sender (get_balance v.sender s -ℤ (v.total +ℤ v.fee)) s.balances;
      } in
      let d : debit v.sender (v.total +ℤ v.fee) s ≡ ok debited =
        debit-ok v.sender (v.total +ℤ v.fee) s (omega (int_laws, some_out, v.fee_nonneg))
          v.covered in
      let (credited, e) = credit_outputs-ok (v.first ∷ v.rest) debited v.good in
      (
        set_nonce v.sender v.nonce credited,
        rw (v.from_eq, v.outputs_eq, v.total_eq, v.fee_eq, d, e, v.nonce_eq) refl,
      )
