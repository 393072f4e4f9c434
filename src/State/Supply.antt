-- ===== src/State/Supply.antt =====
-- What a transaction and a reward do to the sum of all balances.
use echocoin_core.Prelude.{
  ◌≡◌, refl, List, [], ◌∷◌, ℤ, pos, ◌∙◌, ◌+ℤ◌, int_laws, Text, ok, >>=-eq-ok, arith, leb_ℤ,
  Bool-cases, inl, inr,
}
use echocoin_core.Dict.{set}
use echocoin_core.Wire.{Output, Tx, given}
use echocoin_core.State.{
  State, get_circulating_supply, credit, set_nonce, amount_of, total_out, credit_outputs, apply_tx,
  apply_reward_distribution, get_balance,
}
use echocoin_core.State.Steps.{
  IsSolvent, supply-credit, supply-debit, credit-IsSolvent, debit-IsSolvent, minted-credit,
  minted-debit, credit-ok, nonces-credit,
}
use echocoin_core.State.Applied.{
  FirstCredit, credit_outputs-cons, credit_outputs-keeps, Applied, apply_tx-Applied,
}

supply-credit_outputs :
    (outs : List Output) (total : ℤ) (s s' : State)
    → total_out outs ≡ ok total
    → credit_outputs outs s ≡ ok s'
    → get_circulating_supply s' ≡ get_circulating_supply s +ℤ total
unfolding total_out credit_outputs
supply-credit_outputs [] total s s' e h =
    let same : s ≡ s' = cc in
    let none_out : pos 0 ≡ total = cc in rw (← same, ← none_out) (omega int_laws)
supply-credit_outputs (out ∷ outs) total s s' e h =
    let c : FirstCredit out outs s s' = credit_outputs-cons out outs s s' h in
    let (amount, f, e1) = >>=-eq-ok (amount_of out) _ e in
    let (rest, g, e2) = >>=-eq-ok (total_out outs) _ e1 in
    let ih : get_circulating_supply s' ≡ get_circulating_supply c.next +ℤ rest =
      supply-credit_outputs outs rest c.next s' g c.rest in
    let step : get_circulating_supply c.next ≡ get_circulating_supply s +ℤ c.amount =
      supply-credit c.to c.amount s c.next c.credited in
    let same : c.amount ≡ amount = cc (c.amount_eq) in
    let sum : amount +ℤ rest ≡ total = cc in rw (ih, step, same, ← sum) (omega int_laws)

supply-set_nonce :
    (addr : Text) (n : ℤ) (s : State)
    → get_circulating_supply (set_nonce addr n s) ≡ get_circulating_supply s
unfolding get_circulating_supply set_nonce
supply-set_nonce addr n s = refl

-- A transaction with a fee that is applied lowers the sum of all balances by exactly that fee.
pub supply-apply_tx :
    (t : Tx) (s s' : State) (fee : ℤ)
    → t.fee ≡ given fee
    → apply_tx t s ≡ ok s'
    → get_circulating_supply s' +ℤ fee ≡ get_circulating_supply s
supply-apply_tx t s s' fee f h =
    let a : Applied t s s' = apply_tx-Applied t s s' h in
    let d : get_circulating_supply a.debited +ℤ (a.total +ℤ a.fee) ≡ get_circulating_supply s =
      supply-debit a.sender (a.total +ℤ a.fee) s a.debited a.debit_eq in
    let c : get_circulating_supply a.credited ≡ get_circulating_supply a.debited +ℤ a.total =
      supply-credit_outputs a.outputs a.total a.debited a.credited a.total_eq a.credit_eq in
    let same : a.fee ≡ fee = cc (a.fee_eq) in
    rw (a.result, supply-set_nonce, c, ← d, ← same) (omega int_laws)

-- No balance becomes negative.
pub apply_tx-IsSolvent : (t : Tx) (s s' : State) → apply_tx t s ≡ ok s' → IsSolvent s → IsSolvent s'
unfolding set_nonce
apply_tx-IsSolvent t s s' h v =
    let a : Applied t s s' = apply_tx-Applied t s s' h in
    rw a.result (
      credit_outputs-keeps IsSolvent credit-IsSolvent a.outputs a.debited a.credited a.credit_eq
        (debit-IsSolvent a.sender (a.total +ℤ a.fee) s a.debited a.debit_eq v))

pub minted-apply_tx :
    (t : Tx) (s s' : State) → apply_tx t s ≡ ok s' → s'.total_minted ≡ s.total_minted
unfolding set_nonce
minted-apply_tx t s s' h =
    let a : Applied t s s' = apply_tx-Applied t s s' h in
    rw a.result (
      credit_outputs-keeps (λ u. u.total_minted ≡ s.total_minted)
        (λ to x u u' e p. cc (minted-credit to x u u' e)) a.outputs a.debited a.credited a.credit_eq
        (minted-debit a.sender (a.total +ℤ a.fee) s a.debited a.debit_eq))

-- A reward distribution never raises, and raises the sum of all balances by what it mints.
pub record Distributed (s s' : State) : Type 0 where
  pub supply :
      get_circulating_supply s' +ℤ s.total_minted ≡ get_circulating_supply s +ℤ s'.total_minted
  pub solvent : IsSolvent s → IsSolvent s'
  pub nonces : s'.nonces ≡ s.nonces

supply-minted :
    (n : ℤ) (s : State)
    → get_circulating_supply (record s { total_minted = n }) ≡ get_circulating_supply s
unfolding get_circulating_supply
supply-minted n s = refl

Distributed-trans :
    (x : ℤ) (to : Text) (s u s' : State)
    → credit to x s ≡ ok u
    → Distributed (record u { total_minted = u.total_minted +ℤ x }) s'
    → Distributed s s'
Distributed-trans x to s u s' e d =
    let more : get_circulating_supply u ≡ get_circulating_supply s +ℤ x =
      supply-credit to x s u e in
    let same : u.total_minted ≡ s.total_minted = minted-credit to x s u e in
    record {
      supply = grind (int_laws, d.supply, supply-minted (u.total_minted +ℤ x) u);
      solvent = λ v. d.solvent (credit-IsSolvent to x s u e v);
      nonces = d.nonces ∙ nonces-credit to x s u e;
    }

pub apply_reward_distribution-Distributed :
    (dist : List (Text × ℤ)) (s : State)
    → (s' : State) × (apply_reward_distribution dist s ≡ ok s') × Distributed s s'
unfolding apply_reward_distribution
apply_reward_distribution-Distributed [] s =
    (s, refl, record { supply = refl; solvent = λ v. v; nonces = refl })
apply_reward_distribution-Distributed ((to, x) ∷ dist) s = elim (Bool-cases (leb_ℤ (pos 1) x)) [
  | inl pays ↦
      let u : State = record s { balances = set to (get_balance to s +ℤ x) s.balances } in
      let e : credit to x s ≡ ok u = credit-ok to x s (ground arith) in
      let (s', done, d) =
        apply_reward_distribution-Distributed dist
          (record u { total_minted = u.total_minted +ℤ x }) in
      (s', rw (pays, e) done, Distributed-trans x to s u s' e d)
  | inr skips ↦
      let (s', done, d) = apply_reward_distribution-Distributed dist s in (s', rw skips done, d)
]
