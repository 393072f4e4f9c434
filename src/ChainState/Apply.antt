-- ===== src/ChainState/Apply.antt =====
-- A validated block's transactions: what the replay of them does.
use echocoin_core.Prelude.{
  ◌≡◌, refl, ◌∙◌, List, [], ◌∷◌, ℤ, pos, ◌+ℤ◌, ◌≤ℤ◌, int_laws, ok, reject, raise, >>=-eq-ok,
  >>-eq-ok, Check, arith,
}
use echocoin_core.Wire.{given, Entry, tx_entry, not_dict, Tx}
use echocoin_core.Env.{Env}
use echocoin_core.State.{State, get_circulating_supply, apply_tx}
use echocoin_core.State.Steps.{IsSolvent}
use echocoin_core.State.Supply.{supply-apply_tx, apply_tx-IsSolvent, minted-apply_tx}
use echocoin_core.Tx.{validate as tx_validate}
use echocoin_core.Tx.Sound.{IsValidTx, validate-IsValidTx}
use echocoin_core.Block.{as_invalid_tx, entries_fees, apply_entries}
use echocoin_core.ChainState.{replay_entries}

as_invalid_tx-eq-ok : (env : Env) (c : Check) → as_invalid_tx env c ≡ ok tt → c ≡ ok tt
as_invalid_tx-eq-ok env (ok u) h = refl
as_invalid_tx-eq-ok env (reject e) h = cc
as_invalid_tx-eq-ok env (raise e) h = cc

-- Transactions that were validated one after the other: the replay has the same result, and the
-- sum of all balances falls by the fees, which are not negative.
pub record Replayed (entries : List Entry) (s s' : State) : Type 0 where
  pub fees : ℤ
  pub replayed : replay_entries entries s ≡ ok s'
  pub fees_eq : entries_fees entries ≡ ok fees
  pub fees_nonneg : pos 0 ≤ℤ fees
  pub supply : get_circulating_supply s' +ℤ fees ≡ get_circulating_supply s
  pub solvent : IsSolvent s → IsSolvent s'
  pub minted : s'.total_minted ≡ s.total_minted

Replayed-cons :
    (t : Tx) (rest : List Entry) (s u s' : State) (fee : ℤ)
    → t.fee ≡ given fee
    → pos 0 ≤ℤ fee
    → apply_tx t s ≡ ok u
    → Replayed rest u s'
    → Replayed (tx_entry t ∷ rest) s s'
unfolding replay_entries entries_fees
Replayed-cons t rest s u s' fee e n a r = record {
  fees = fee +ℤ r.fees;
  replayed = rw a r.replayed;
  fees_eq = rw (e, r.fees_eq) refl;
  fees_nonneg = omega (int_laws, r.fees_nonneg);
  supply = grind (int_laws, supply-apply_tx t s u fee e a, r.supply);
  solvent = λ v. r.solvent (apply_tx-IsSolvent t s u a v);
  minted = r.minted ∙ minted-apply_tx t s u a;
}

pub apply_entries-Replayed :
    (env : Env) (entries : List Entry) (s s' : State)
    → apply_entries env entries s ≡ ok s'
    → Replayed entries s s'
unfolding apply_entries
apply_entries-Replayed env [] s s' h =
    let same : s ≡ s' = cc in
    record {
      fees = pos 0;
      replayed = unfold replay_entries in h;
      fees_eq = unfold entries_fees in refl;
      fees_nonneg = omega arith;
      supply = rw same (omega int_laws);
      solvent = λ v. rw (← same) v;
      minted = rw same;
    }
apply_entries-Replayed env (not_dict ∷ rest) s s' h = absurd (ground arith)
apply_entries-Replayed env (tx_entry t ∷ rest) s s' h =
    let (checked, h1) = >>-eq-ok (as_invalid_tx env (tx_validate env t s)) _ h in
    let (u, a, h2) = >>=-eq-ok (apply_tx t s) _ h1 in
    let v : IsValidTx env t s =
      validate-IsValidTx env t s (as_invalid_tx-eq-ok env (tx_validate env t s) checked) in
    Replayed-cons t rest s u s' v.fee v.fee_eq v.fee_nonneg a
      (apply_entries-Replayed env rest u s' h2)
