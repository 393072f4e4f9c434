-- ===== src/Prelude/Results.antt =====
-- What a Python call comes to: a value, the error text of a `(False, error)` pair, or an exception.
use mathlib.Core.Path.{◌≡◌, refl}
use mathlib.Core.Logic.{◌⊎◌, inl, inr}
use mathlib.Core.Bool.{Bool, true, false}
use echocoin_core.Prelude.Int.{ℤ}
use echocoin_core.Prelude.Strings.{Text}

pub data Exception : Type 0 where
  value_error key_error type_error attribute_error index_error struct_error : Exception

-- The error texts of tx.validate, of block.validate and of the node, one constructor for each.
pub data Reason : Type 0 where
  missing_field : Text → Reason
  empty_outputs output_fields output_amount output_address bad_fee nonce_type : Reason
  key_type wrong_key invalid_signature malformed_key bad_nonce insufficient_balance : Reason
  too_large hash_mismatch no_parent wrong_parent wrong_height : Reason
  missing_timestamp in_the_future too_early : Reason
  invalid_builder missing_vdf wrong_iterations invalid_vdf : Reason
  not_a_dict : Reason
  invalid_tx : Reason → Reason
  invalid_block : ℤ → Reason → Reason
  genesis_mismatch replay_error not_better : Reason

pub data Result {ℓ} (A : Type ℓ) : Type ℓ where
  ok : A → Result A
  reject : Reason → Result A
  raise : Exception → Result A

-- A validation step: it passes, rejects or raises.
abbrev pub Check : Type 0
Check = Result (Unit {0})

infixl 5 ◌>>◌ ◌>>=◌
abbrev pub ◌>>=◌ {ℓ κ} : {V : Type ℓ} {W : Type κ} → Result V → (V → Result W) → Result W
raise x >>= next = raise x
reject r >>= next = reject r
ok v >>= next = next v

abbrev pub ◌>>◌ {ℓ} : {W : Type ℓ} → Check → Result W → Result W
step >> rest = step >>= λ _. rest

-- `if c: return False, e`
abbrev pub reject_if : Bool → Reason → Result (Unit {0})
reject_if true e = reject e
reject_if false e = ok tt

-- `if c: raise e`
abbrev pub raise_if : Bool → Exception → Result (Unit {0})
raise_if true e = raise e
raise_if false e = ok tt

pub >>=-eq-ok {ℓ κ} :
    {V : Type ℓ} {W : Type κ} {w : W} (r : Result V) (next : V → Result W)
    → r >>= next ≡ ok w
    → (v : V) × (r ≡ ok v) × (next v ≡ ok w)
>>=-eq-ok (raise x) next h = cc
>>=-eq-ok (reject e) next h = cc
>>=-eq-ok (ok v) next h = (v, refl, h)

pub >>-eq-ok {ℓ} :
    {B : Type ℓ} (m : Result (Unit {0})) (k : Result B) {b : B}
    → (m >> k) ≡ ok b
    → (m ≡ ok tt) × (k ≡ ok b)
>>-eq-ok (ok tt) k h = (refl, h)
>>-eq-ok (reject e) k h = cc
>>-eq-ok (raise e) k h = cc

pub Result-cases {ℓ} :
    {A : Type ℓ} (r : Result A)
    → ((a : A) × (r ≡ ok a)) ⊎ ((e : Reason) × (r ≡ reject e)) ⊎ ((e : Exception) × (r ≡ raise e))
Result-cases (ok a) = inl (a, refl)
Result-cases (reject e) = inr (inl (e, refl))
Result-cases (raise e) = inr (inr (e, refl))

pub ok_injective {ℓ} : {A : Type ℓ} {a b : A} → ok a ≡ ok b → a ≡ b
ok_injective h = cc
