-- ===== src/State/Steps.antt =====
-- What one credit and one debit do: the facts that the proofs about whole transactions use.
use echocoin_core.Prelude.{
  ◌≡◌, refl, some, text_eq_refl, ℤ, pos, ◌+ℤ◌, ◌-ℤ◌, ◌≤ℤ◌, ◌<ℤ◌, int_laws, Text, ok, arith, [], ◌∷◌,
}
use echocoin_core.Dict.{
  AllValues, get_or, set, sum_values-set, set-AllValues, get_or-set, Dict, get, get-set,
}
use echocoin_core.State.{State, get_balance, get_circulating_supply, credit, debit}

-- No stored balance is negative.
abbrev pub IsSolvent : State → Type 0
IsSolvent s = AllValues (λ v. pos 0 ≤ℤ v) s.balances

pub get_or-nonneg :
    (k : Text) (d : Dict ℤ) → AllValues (λ v. pos 0 ≤ℤ v) d → pos 0 ≤ℤ get_or k (pos 0) d
unfolding get_or
get_or-nonneg k [] h = omega arith
get_or-nonneg k (e ∷ d) h = ground (arith, get_or-nonneg k d h.1)

-- A credit of a positive amount goes through.
pub credit-ok :
    (addr : Text) (amount : ℤ) (s : State)
    → pos 0 <ℤ amount
    → credit addr amount s
      ≡ ok (record s { balances = set addr (get_balance addr s +ℤ amount) s.balances })
unfolding credit
credit-ok addr amount s h = ground arith

-- So does a debit of a positive amount that the balance covers.
pub debit-ok :
    (addr : Text) (amount : ℤ) (s : State)
    → pos 0 <ℤ amount
    → amount ≤ℤ get_balance addr s
    → debit addr amount s
      ≡ ok (record s { balances = set addr (get_balance addr s -ℤ amount) s.balances })
unfolding debit
debit-ok addr amount s h k = ground arith

-- What a credit that went through has done.
pub record Credited (addr : Text) (amount : ℤ) (s s' : State) : Type 0 where
  pub positive : pos 0 <ℤ amount
  pub result : s' ≡ record s { balances = set addr (get_balance addr s +ℤ amount) s.balances }

pub credit-Credited :
    (addr : Text) (amount : ℤ) (s s' : State)
    → credit addr amount s ≡ ok s'
    → Credited addr amount s s'
unfolding credit
credit-Credited addr amount s s' h = ground arith

pub record Debited (addr : Text) (amount : ℤ) (s s' : State) : Type 0 where
  pub positive : pos 0 <ℤ amount
  pub covered : amount ≤ℤ get_balance addr s
  pub result : s' ≡ record s { balances = set addr (get_balance addr s -ℤ amount) s.balances }

pub debit-Debited :
    (addr : Text) (amount : ℤ) (s s' : State)
    → debit addr amount s ≡ ok s'
    → Debited addr amount s s'
unfolding debit
debit-Debited addr amount s s' h = ground arith

module _ (addr : Text) (amount : ℤ) (s s' : State) where
  pub supply-credit :
      credit addr amount s ≡ ok s' → get_circulating_supply s' ≡ get_circulating_supply s +ℤ amount
  unfolding get_circulating_supply get_balance
  supply-credit h =
      let c : Credited addr amount s s' = credit-Credited addr amount s s' h in
      rw c.result (
        grind (int_laws, sum_values-set addr (get_or addr (pos 0) s.balances +ℤ amount) s.balances))

  pub supply-debit :
      debit addr amount s ≡ ok s' → get_circulating_supply s' +ℤ amount ≡ get_circulating_supply s
  unfolding get_circulating_supply get_balance
  supply-debit h =
      let c : Debited addr amount s s' = debit-Debited addr amount s s' h in
      rw c.result (
        grind (int_laws, sum_values-set addr (get_or addr (pos 0) s.balances -ℤ amount) s.balances))

  pub credit-IsSolvent : credit addr amount s ≡ ok s' → IsSolvent s → IsSolvent s'
  unfolding get_balance
  credit-IsSolvent h v =
      let c : Credited addr amount s s' = credit-Credited addr amount s s' h in
      rw c.result (
        set-AllValues _ addr (get_or addr (pos 0) s.balances +ℤ amount) s.balances
          (omega (int_laws, get_or-nonneg addr s.balances v, c.positive)) v)

  pub debit-IsSolvent : debit addr amount s ≡ ok s' → IsSolvent s → IsSolvent s'
  unfolding get_balance
  debit-IsSolvent h v =
      let c : Debited addr amount s s' = debit-Debited addr amount s s' h in
      rw c.result (
        set-AllValues _ addr (get_or addr (pos 0) s.balances -ℤ amount) s.balances
          (omega (int_laws, c.covered)) v)

  pub nonces-credit : credit addr amount s ≡ ok s' → s'.nonces ≡ s.nonces
  nonces-credit h = rw (credit-Credited addr amount s s' h).result

  pub nonces-debit : debit addr amount s ≡ ok s' → s'.nonces ≡ s.nonces
  nonces-debit h = rw (debit-Debited addr amount s s' h).result

  pub minted-credit : credit addr amount s ≡ ok s' → s'.total_minted ≡ s.total_minted
  minted-credit h = rw (credit-Credited addr amount s s' h).result

  pub minted-debit : debit addr amount s ≡ ok s' → s'.total_minted ≡ s.total_minted
  minted-debit h = rw (debit-Debited addr amount s s' h).result

-- A debit of a whole balance keeps the address in the ledger, with a balance of zero.
pub debit_all :
    (addr : Text) (s s' : State)
    → debit addr (get_balance addr s) s ≡ ok s'
    → (get addr s'.balances ≡ some (pos 0)) × (get_balance addr s' ≡ pos 0)
unfolding get_balance
debit_all addr s s' h =
    let d : Debited addr (get_balance addr s) s s' =
      debit-Debited addr (get_balance addr s) s s' h in
    let nothing : get_or addr (pos 0) s.balances -ℤ get_or addr (pos 0) s.balances ≡ pos 0 =
      omega int_laws in
    (
      rw (d.result, nothing, get-set addr addr (pos 0) s.balances, text_eq_refl) refl,
      rw (d.result, nothing, get_or-set addr addr (pos 0) (pos 0) s.balances, text_eq_refl) refl,
    )
