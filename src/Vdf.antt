-- ===== src/Vdf.antt =====
-- src/vdf.py `verify`: any exception reads as a proof that fails.
use echocoin_core.Prelude.{ℕ, zero, suc, Bool, false, none, some, [], ◌∷◌, ◌++◌, ℤ, Text}
use echocoin_core.Env.{Bytes, Env}

abbrev pub disc_size_bits : ℕ
disc_size_bits = 1024

abbrev pub zeros : ℕ → Bytes
zeros zero = []
zeros (suc n) = 0 ∷ zeros n

-- `_GENERATOR`
abbrev pub generator : Bytes
generator = 8 ∷ zeros 99

unfoldable pub vdf_verify : Env → Bytes → Text → Text → ℤ → Bool
vdf_verify env challenge output proof iterations =
    elim (env.create_discriminant challenge disc_size_bits) [
      | none ↦ false
      | some disc ↦ elim (env.from_hex output) [
        | none ↦ false
        | some output_bytes ↦ elim (env.from_hex proof) [
          | none ↦ false
          | some proof_bytes ↦
              elim (env.verify_n_wesolowski disc generator (output_bytes ++ proof_bytes) iterations
                disc_size_bits 0) [ none ↦ false | some b ↦ b ]
        ]
      ]
    ]
