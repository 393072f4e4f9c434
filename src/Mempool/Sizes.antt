-- ===== src/Mempool/Sizes.antt =====
-- The bytes of a pool, and what a write or a removal does to them.
use echocoin_core.Prelude.{ℕ, ◌+◌, ◌≡◌, false, some, [], ◌∷◌, Text, arith}
use echocoin_core.Dict.{Dict, get, contains, set, pop}
use echocoin_core.Env.{Env}
use echocoin_core.Tx.{tx_size}
use echocoin_core.Mempool.{Pending}

module _ (env : Env) where
  -- The sum of the fee-basis sizes of all pending transactions.
  unfoldable pub sizes : Dict Pending → ℕ
  sizes [] = 0
  sizes (e ∷ d) = tx_size env e.1.tx + sizes d

  pub sizes-pop :
      (k : Text) (p : Pending) (d : Dict Pending)
      → get k d ≡ some p
      → sizes (pop k d) + tx_size env p.tx ≡ sizes d
  unfolding sizes get pop
  sizes-pop k p [] h = cc
  sizes-pop k p (e ∷ d) h = ground (arith, sizes-pop k p d)

  pub sizes-set_new :
      (k : Text) (p : Pending) (d : Dict Pending)
      → contains k d ≡ false
      → sizes (set k p d) ≡ sizes d + tx_size env p.tx
  unfolding sizes set contains
  sizes-set_new k p [] h = omega arith
  sizes-set_new k p (e ∷ d) h = ground (arith, sizes-set_new k p d)
