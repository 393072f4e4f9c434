-- ===== src/Tx/Malformed.antt =====
-- A malformed output in `validate` of src/tx.py.
use echocoin_core.Prelude.{◌++◌, ◌≡◌, refl, List, [], ◌∷◌, raise, type_error, arith, ok, All}
use echocoin_core.Wire.{given, Output, scalar, Tx}
use echocoin_core.Env.{Env}
use echocoin_core.State.{State}
use echocoin_core.Tx.{
  check_present, check_output, check_outputs, check_outputs_field, check_fields_and_outputs,
  validate,
}
use echocoin_core.Tx.Checks.{IsGoodOutput}

module _ (env : Env) where
  check_outputs_then_scalar :
      (good rest : List Output)
      → All (IsGoodOutput env) good
      → check_outputs env (good ++ scalar ∷ rest) ≡ raise type_error
  unfolding check_outputs check_output
  check_outputs_then_scalar [] rest h = refl
  check_outputs_then_scalar (out ∷ good) rest h =
      rw h.0.shape
        (ground (arith, h.0.address, h.0.positive, check_outputs_then_scalar good rest h.1))

  append_head :
      (xs rest : List Output) → (y : Output) × (ys : List Output) × (xs ++ scalar ∷ rest ≡ y ∷ ys)
  append_head [] rest = (scalar, rest, refl)
  append_head (x ∷ xs) rest = (x, xs ++ scalar ∷ rest, refl)

  -- A transaction with all its fields, whose list of outputs holds a number, a bool or null behind
  -- good outputs, makes `validate` raise a TypeError, whatever its signature.
  pub validate_scalar_output :
      (t : Tx) (s : State) (good rest : List Output)
      → check_present t ≡ ok tt
      → t.outputs ≡ given (good ++ scalar ∷ rest)
      → All (IsGoodOutput env) good
      → validate env t s ≡ raise type_error
  unfolding validate check_fields_and_outputs check_outputs_field
  validate_scalar_output t s good rest p e h =
      let (y, ys, cons) = append_head good rest in
      let bad : check_outputs env (y ∷ ys) ≡ raise type_error =
        rw (← cons) (check_outputs_then_scalar good rest h) in
      let e' : t.outputs ≡ given (y ∷ ys) = rw cons at e in rw (p, e', bad) refl
