-- ===== src/Mempool/Probe.antt =====
-- `probe_state_for` of src/mempool.py: the pending transactions of a sender, applied in order.
use echocoin_core.Prelude.{
  ◌≡◌, ◌⊎◌, inl, inr, ◌∙◌, ap, subst, Result, refl, false, List, [], ◌∷◌, All, ℤ, pos, ◌+ℤ◌, ◌-ℤ◌,
  ◌≤ℤ◌, ◌<ℤ◌, ltb_ℤ, int_laws, Text, text_eq, ok, reject, raise, value_error, arith, Bool-cases,
  text_eq_refl, if◌then◌else◌,
}
use echocoin_core.Dict.{get_or-set, set}
use echocoin_core.Wire.{given, absent, other, Output, Tx}
use echocoin_core.State.{
  State, get_balance, total_out, to_of, amount_of, debit, set_nonce, credit_outputs, apply_tx,
}
use echocoin_core.State.Steps.{credit-ok, debit-ok}
use echocoin_core.Mempool.{
  Mempool, int_of, insert_by, sort_by, nonce_less, txs_from, apply_all, probe_state_for,
}
use echocoin_core.Mempool.Sorting.{sort_by-All}

-- What a transaction takes from its sender's balance.
unfoldable pub cost : Tx → ℤ
cost t = elim t.outputs [
  | absent ↦ pos 0
  | other ↦ pos 0
  | given outputs ↦ elim (total_out outputs) [
    | ok total ↦ total +ℤ int_of t.fee
    | reject e ↦ pos 0
    | raise e ↦ pos 0
  ]
]

unfoldable pub total_cost : List Tx → ℤ
total_cost [] = pos 0
total_cost (t ∷ ts) = cost t +ℤ total_cost ts

-- The sum does not depend on the order.
cost-insert_by :
    (t : Tx) (ts : List Tx) → total_cost (insert_by nonce_less t ts) ≡ cost t +ℤ total_cost ts
unfolding total_cost insert_by
cost-insert_by t [] = refl
cost-insert_by t (u ∷ us) = elim (Bool-cases (nonce_less u t)) [
  | inr placed ↦ rw placed refl
  | inl lower ↦ rw (lower, cost-insert_by t us) (omega int_laws)
]

cost-sort_by : (ts : List Tx) → total_cost (sort_by nonce_less ts) ≡ total_cost ts
unfolding total_cost sort_by
cost-sort_by [] = refl
cost-sort_by (t ∷ ts) =
    cost-insert_by t (sort_by nonce_less ts) ∙ ap (λ n. cost t +ℤ n) (cost-sort_by ts)

get_balance-set :
    (addr to : Text) (amount : ℤ) (s : State)
    → get_balance addr (record s { balances = set to amount s.balances })
      ≡ (if text_eq addr to then amount else get_balance addr s)
unfolding get_balance
get_balance-set addr to amount s = get_or-set addr to (pos 0) amount s.balances

balance-set_nonce :
    (addr sender : Text) (nonce : ℤ) (s : State)
    → get_balance addr (set_nonce sender nonce s) ≡ get_balance addr s
unfolding get_balance set_nonce
balance-set_nonce addr sender nonce s = refl

pays_first : (b c n left : ℤ) → left ≡ b -ℤ c → n ≤ℤ left → c +ℤ n ≤ℤ b
pays_first b c n left e h = let h' : n ≤ℤ b -ℤ c = rw (← e) h in omega (int_laws, h')

lacks_first : (b c n left : ℤ) → left ≡ b -ℤ c → left <ℤ n → b <ℤ c +ℤ n
lacks_first b c n left e h = let h' : b -ℤ c <ℤ n = rw (← e) h in omega (int_laws, h')

module _ (addr : Text) where
  -- An output of a positive amount to another address.
  pub record PaysOther (out : Output) : Type 0 where
    pub to : Text
    pub amount : ℤ
    pub to_eq : to_of out ≡ ok to
    pub amount_eq : amount_of out ≡ ok amount
    pub positive : pos 0 <ℤ amount
    pub is_other : text_eq addr to ≡ false

  -- A transaction of the address that pays others, with all that `apply_tx` reads.
  pub record IsPayment (t : Tx) : Type 0 where
    pub outputs : List Output
    pub total : ℤ
    pub fee : ℤ
    pub nonce : ℤ
    pub from_eq : t.from ≡ given addr
    pub outputs_eq : t.outputs ≡ given outputs
    pub total_eq : total_out outputs ≡ ok total
    pub fee_eq : t.fee ≡ given fee
    pub nonce_eq : t.nonce ≡ given nonce
    pub positive : pos 0 <ℤ total +ℤ fee
    pub to_others : All PaysOther outputs

  cost-IsPayment : (t : Tx) (p : IsPayment t) → cost t ≡ p.total +ℤ p.fee
  unfolding cost
  cost-IsPayment t p = rw (cost, p.outputs_eq, p.total_eq, p.fee_eq) refl

  credit_outputs-others :
      (outs : List Output) (s : State)
      → All PaysOther outs
      → (s' : State) × (credit_outputs outs s ≡ ok s') × (get_balance addr s' ≡ get_balance addr s)
  unfolding credit_outputs
  credit_outputs-others [] s all = (s, refl, refl)
  credit_outputs-others (out ∷ outs) s (p, all) =
      let next = record s { balances = set p.to (get_balance p.to s +ℤ p.amount) s.balances } in
      let (s', runs, same) = credit_outputs-others outs next all in
      (
        s',
        rw (p.to_eq, p.amount_eq, credit-ok p.to p.amount s p.positive) runs,
        same ∙ get_balance-set addr p.to (get_balance p.to s +ℤ p.amount) s ∙ rw p.is_other refl,
      )

  -- A payment that the balance covers is applied, and takes its cost.
  apply_tx-IsPayment :
      (t : Tx) (s : State)
      → IsPayment t
      → cost t ≤ℤ get_balance addr s
      → (s' : State) × (apply_tx t s ≡ ok s') × (get_balance addr s' ≡ get_balance addr s -ℤ cost t)
  unfolding apply_tx
  apply_tx-IsPayment t s p covered =
      let amount = p.total +ℤ p.fee in
      let spent = cost-IsPayment t p in
      let left = get_balance addr s -ℤ amount in
      let debited = record s { balances = set addr left s.balances } in
      let (credited, runs, same) = credit_outputs-others p.outputs debited p.to_others in
      let debit_runs : debit addr amount s ≡ ok debited =
        debit-ok addr amount s p.positive (rw (← spent) covered) in
      (
        set_nonce addr p.nonce credited,
        rw (p.from_eq, p.outputs_eq, p.total_eq, p.fee_eq, debit_runs, runs, p.nonce_eq) refl,
        balance-set_nonce addr addr p.nonce credited
            ∙ same
            ∙ get_balance-set addr addr left s
            ∙ rw (text_eq_refl addr, spent) refl,
      )

  apply_tx-short :
      (t : Tx) (s : State)
      → IsPayment t
      → get_balance addr s <ℤ cost t
      → apply_tx t s ≡ raise value_error
  unfolding apply_tx debit
  apply_tx-short t s p short =
      let few : get_balance addr s <ℤ p.total +ℤ p.fee = rw (← cost-IsPayment t p) short in
      let raises : debit addr (p.total +ℤ p.fee) s ≡ raise value_error =
        ground (arith, few, p.positive) in
      rw (p.from_eq, p.outputs_eq, p.total_eq, p.fee_eq, raises) refl

  total_cost-nonneg : (ts : List Tx) → All IsPayment ts → pos 0 ≤ℤ total_cost ts
  unfolding total_cost
  total_cost-nonneg [] all = omega arith
  total_cost-nonneg (t ∷ ts) (p, all) =
      let costs : pos 0 ≤ℤ cost t = rw (cost-IsPayment t p) (omega (arith, p.positive)) in
      omega (int_laws, costs, total_cost-nonneg ts all)

  -- What applying some payments comes to.
  abbrev pub IsProbe : ℤ → State → Result State → Type 0
  IsProbe spent s probe =
      ((spent ≤ℤ get_balance addr s)
        × (s' : State) × (probe ≡ ok s')
        × (get_balance addr s' ≡ get_balance addr s -ℤ spent))
      ⊎ ((get_balance addr s <ℤ spent) × (probe ≡ raise value_error))

  apply_all-IsProbe :
      (ts : List Tx) (s : State)
      → pos 0 ≤ℤ get_balance addr s
      → All IsPayment ts
      → IsProbe (total_cost ts) s (apply_all ts s)
  unfolding apply_all total_cost
  apply_all-IsProbe [] s solvent all = inl (solvent, s, refl, omega int_laws)
  apply_all-IsProbe (t ∷ ts) s solvent (p, all) =
      elim (Bool-cases (ltb_ℤ (get_balance addr s) (cost t))) [
        | inl short ↦
            let few : get_balance addr s <ℤ cost t = ground (arith, short) in
            inr
              (omega (int_laws, few, total_cost-nonneg ts all), rw (apply_tx-short t s p few) refl)
        | inr enough ↦
            let covered : cost t ≤ℤ get_balance addr s = ground (arith, enough) in
            let (next, runs, left) = apply_tx-IsPayment t s p covered in
            let solvent' : pos 0 ≤ℤ get_balance addr next = rw left (omega (int_laws, covered)) in
            elim (apply_all-IsProbe ts next solvent' all) [
              | inl (fits, s', ends, rest) ↦
                  inl (
                    pays_first _ _ _ _ left fits,
                    s',
                    rw runs ends,
                    rest ∙ rw left (omega int_laws),
                  )
              | inr (over, raises) ↦ inr (lacks_first _ _ _ _ left over, rw runs raises)
            ]
      ]

  -- Where all pending transactions of a sender pay others and its balance is not negative, the probe
  -- is a state in which the balance is lower by the sum of their costs, if the balance covers that
  -- sum; if it does not, the probe raises a ValueError.
  pub probe_state_for_lem :
      (s : State) (m : Mempool)
      → pos 0 ≤ℤ get_balance addr s
      → All IsPayment (txs_from addr m.pool)
      → IsProbe (total_cost (txs_from addr m.pool)) s (probe_state_for addr s m)
  unfolding probe_state_for
  probe_state_for_lem s m solvent all =
      let pending = txs_from addr m.pool in
      subst (λ n. IsProbe n s (apply_all (sort_by nonce_less pending) s)) (cost-sort_by pending)
        (apply_all-IsProbe (sort_by nonce_less pending) s solvent
          (sort_by-All IsPayment nonce_less pending all))
