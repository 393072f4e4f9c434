-- ===== src/State/Nonces.antt =====
-- What a transaction does to the nonces.
use echocoin_core.Prelude.{◌≡◌, ◌∙◌, ℤ, pos, Text, text_eq, ok, if◌then◌else◌, ◌+ℤ◌}
use echocoin_core.Dict.{get_or-set}
use echocoin_core.Wire.{Tx, given}
use echocoin_core.State.{State, get_nonce, set_nonce, apply_tx}
use echocoin_core.State.Steps.{nonces-credit, nonces-debit}
use echocoin_core.State.Applied.{credit_outputs-keeps, Applied, apply_tx-Applied}

-- Applying a transaction sets its sender's nonce to the transaction's and changes no other.
pub nonce-apply_tx :
    (t : Tx) (s s' : State) (sender : Text) (nonce : ℤ)
    → t.from ≡ given sender
    → t.nonce ≡ given nonce
    → apply_tx t s ≡ ok s'
    → (j : Text) → get_nonce j s' ≡ (if text_eq j sender then nonce else get_nonce j s)
unfolding get_nonce set_nonce
nonce-apply_tx t s s' sender nonce e f h j =
    let a : Applied t s s' = apply_tx-Applied t s s' h in
    let who : a.sender ≡ sender = cc (a.from_eq) in
    let num : a.nonce ≡ nonce = cc (a.nonce_eq) in
    let kept : a.credited.nonces ≡ s.nonces =
      credit_outputs-keeps (λ u. u.nonces ≡ s.nonces)
        (λ to x u u' e p. nonces-credit to x u u' e ∙ p) a.outputs a.debited a.credited a.credit_eq
        (nonces-debit a.sender (a.total +ℤ a.fee) s a.debited a.debit_eq) in
    rw (a.result, who, num, kept) (get_or-set j sender (pos 0) nonce s.nonces)
