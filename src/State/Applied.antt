-- ===== src/State/Applied.antt =====
-- A transaction that `apply_tx` applied, taken apart into its steps.
use echocoin_core.Prelude.{◌≡◌, List, [], ◌∷◌, ℤ, ◌+ℤ◌, Text, ok, >>=-eq-ok}
use echocoin_core.Wire.{Output, Tx, need, given, need-eq-ok}
use echocoin_core.State.{
  State, credit, debit, set_nonce, amount_of, to_of, total_out, credit_outputs, apply_tx,
}

pub record FirstCredit (out : Output) (outs : List Output) (s s' : State) : Type 0 where
  pub to : Text
  pub amount : ℤ
  pub next : State
  pub to_eq : to_of out ≡ ok to
  pub amount_eq : amount_of out ≡ ok amount
  pub credited : credit to amount s ≡ ok next
  pub rest : credit_outputs outs next ≡ ok s'

pub credit_outputs-cons :
    (out : Output) (outs : List Output) (s s' : State)
    → credit_outputs (out ∷ outs) s ≡ ok s'
    → FirstCredit out outs s s'
unfolding credit_outputs
credit_outputs-cons out outs s s' h =
    let (to, e, h1) = >>=-eq-ok (to_of out) _ h in
    let (amount, f, h2) = >>=-eq-ok (amount_of out) _ h1 in
    let (next, g, h3) = >>=-eq-ok (credit to amount s) _ h2 in
    record {
      to = to;
      amount = amount;
      next = next;
      to_eq = e;
      amount_eq = f;
      credited = g;
      rest = h3;
    }

-- What each credit keeps, the loop over the outputs keeps.
pub credit_outputs-keeps :
    (P : State → Type 0)
    → ((to : Text) (amount : ℤ) (s s' : State) → credit to amount s ≡ ok s' → P s → P s')
    → (outs : List Output) (s s' : State) → credit_outputs outs s ≡ ok s'
    → P s
    → P s'
unfolding credit_outputs
credit_outputs-keeps P step [] s s' h p = let e : s ≡ s' = cc in rw (← e) p
credit_outputs-keeps P step (out ∷ outs) s s' h p =
    let c : FirstCredit out outs s s' = credit_outputs-cons out outs s s' h in
    credit_outputs-keeps P step outs c.next s' c.rest (step c.to c.amount s c.next c.credited p)

pub record Applied (t : Tx) (s s' : State) : Type 0 where
  pub sender : Text
  pub outputs : List Output
  pub total : ℤ
  pub fee : ℤ
  pub nonce : ℤ
  pub debited : State
  pub credited : State
  pub from_eq : t.from ≡ given sender
  pub outputs_eq : t.outputs ≡ given outputs
  pub total_eq : total_out outputs ≡ ok total
  pub fee_eq : t.fee ≡ given fee
  pub nonce_eq : t.nonce ≡ given nonce
  pub debit_eq : debit sender (total +ℤ fee) s ≡ ok debited
  pub credit_eq : credit_outputs outputs debited ≡ ok credited
  pub result : s' ≡ set_nonce sender nonce credited

pub apply_tx-Applied : (t : Tx) (s s' : State) → apply_tx t s ≡ ok s' → Applied t s s'
unfolding apply_tx
apply_tx-Applied t s s' h =
    let (sender, e1, h1) = >>=-eq-ok (need t.from) _ h in
    let (outputs, e2, h2) = >>=-eq-ok (need t.outputs) _ h1 in
    let (total, e3, h3) = >>=-eq-ok (total_out outputs) _ h2 in
    let (fee, e4, h4) = >>=-eq-ok (need t.fee) _ h3 in
    let (debited, e5, h5) = >>=-eq-ok (debit sender (total +ℤ fee) s) _ h4 in
    let (credited, e6, h6) = >>=-eq-ok (credit_outputs outputs debited) _ h5 in
    let (nonce, e7, h7) = >>=-eq-ok (need t.nonce) _ h6 in
    record {
      sender = sender;
      outputs = outputs;
      total = total;
      fee = fee;
      nonce = nonce;
      debited = debited;
      credited = credited;
      from_eq = need-eq-ok t.from e1;
      outputs_eq = need-eq-ok t.outputs e2;
      total_eq = e3;
      fee_eq = need-eq-ok t.fee e4;
      nonce_eq = need-eq-ok t.nonce e7;
      debit_eq = e5;
      credit_eq = e6;
      result = cc;
    }
