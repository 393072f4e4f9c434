-- ===== src/Tx/Signature.antt =====
-- What `_check_signature` of src/tx.py passes.
use echocoin_core.Prelude.{
  ◌≡◌, refl, true, Text, text_eq_iff, text_eq_refl, ok, >>-eq-ok, reject_if, not, arith, some,
  invalid_signature, Result-cases, Option-cases, inl, inr,
}
use echocoin_core.Wire.{Field, given, absent, other, Tx}
use echocoin_core.Env.{Bytes, Env}
use echocoin_core.Crypto.{public_key_to_address, verify, serialize_for_signing}
use echocoin_core.Tx.{check_address, check_key, check_signature}
use echocoin_core.Tx.Checks.{IsSigned}

module _ (env : Env) where
  check_address-eq :
      (key : Bytes) (sender : Text)
      → check_address env key (given sender) ≡ ok tt
      → public_key_to_address env key ≡ ok sender
  check_address-eq key sender h = elim (Result-cases (public_key_to_address env key)) [
    | inl (addr, e) ↦ ground (arith, text_eq_iff addr sender)
    | inr (inl (r, e)) ↦ ground arith
    | inr (inr (r, e)) ↦ ground arith
  ]

  check_address_of :
      (key : Bytes) (f : Field Text) (sender : Text)
      → f ≡ given sender
      → public_key_to_address env key ≡ ok sender
      → check_address env key f ≡ ok tt
  check_address_of key f sender e h = ground (arith, text_eq_refl sender)

  verify-true :
      (message sig key : Bytes)
      → reject_if (not (verify env message sig key)) invalid_signature ≡ ok tt
      → env.falcon_verify message sig key ≡ some true
  unfolding verify
  verify-true message sig key h = ground arith

  module _ (t : Tx) (sender : Text) (from_eq : t.from ≡ given sender) where
    check_key-IsSigned :
        (pubkey_hex sig_hex : Text)
        → t.pubkey ≡ given pubkey_hex
        → t.signature ≡ given sig_hex
        → check_key env pubkey_hex sig_hex t ≡ ok tt
        → IsSigned env t sender
    unfolding check_key verify
    check_key-IsSigned pubkey_hex sig_hex e f h = elim (Option-cases (env.from_hex pubkey_hex)) [
      | inl bad ↦ ground arith
      | inr (key, k) ↦ elim (Option-cases (env.from_hex sig_hex)) [
        | inl bad ↦ ground arith
        | inr (sig, g) ↦
            let (a, v) = >>-eq-ok (check_address env key t.from) _ (rw (k, g, check_key) at h) in
            record {
              pubkey_hex = pubkey_hex;
              sig_hex = sig_hex;
              key = key;
              sig = sig;
              pubkey_eq = e;
              signature_eq = f;
              key_eq = k;
              sig_eq = g;
              address_eq = check_address-eq key sender (rw from_eq at a);
              verified = verify-true (serialize_for_signing env t) sig key v;
            }
      ]
    ]

    pub check_signature-IsSigned : check_signature env t ≡ ok tt → IsSigned env t sender
    unfolding check_signature
    check_signature-IsSigned h = by_fields t.pubkey t.signature refl refl
      where
        by_fields : (p s : Field Text) → t.pubkey ≡ p → t.signature ≡ s → IsSigned env t sender
        by_fields (given p) (given s) e f = check_key-IsSigned p s e f (ground arith)
        by_fields (given p) absent e f = ground arith
        by_fields (given p) other e f = ground arith
        by_fields absent s e f = ground arith
        by_fields other s e f = ground arith

    pub check_signature_of_IsSigned : IsSigned env t sender → check_signature env t ≡ ok tt
    unfolding check_signature check_key verify
    check_signature_of_IsSigned i =
        rw (i.pubkey_eq, check_signature, i.signature_eq, check_key, i.key_eq, i.sig_eq)
          (rw (check_address_of i.key t.from sender from_eq i.address_eq)
            (ground (arith, i.verified)))
