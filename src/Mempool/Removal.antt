-- ===== src/Mempool/Removal.antt =====
-- Removals, and the books of the pool.
use echocoin_core.Prelude.{
  ◌≡◌, refl, none, List, [], ◌∷◌, pos, int_laws, Text, text_eq, text_eq_iff, arith, if◌then◌else◌,
  Option-cases, inl, inr,
}
use echocoin_core.Crypto.{mem}
use echocoin_core.Dict.{Distinct, get, pop-Distinct, get-pop}
use echocoin_core.Env.{Env}
use echocoin_core.Mempool.{Mempool, remove, remove_many}
use echocoin_core.Mempool.Sizes.{sizes, sizes-pop}

module _ (env : Env) where
  -- No hash is pooled twice, and `_total_bytes` is the sum of the sizes.
  pub record IsAccounted (m : Mempool) : Type 0 where
    pub distinct : Distinct m.pool
    pub bytes : m.total_bytes ≡ pos (sizes env m.pool)

  pub remove-IsAccounted : (h : Text) (m : Mempool) → IsAccounted m → IsAccounted (remove env h m)
  unfolding remove
  remove-IsAccounted h m a = elim (Option-cases (get h m.pool)) [
    | inl missing ↦ rw (missing, remove) a
    | inr (p, e) ↦
        rw (e, remove)
          (record {
            distinct = pop-Distinct h m.pool a.distinct;
            bytes = rw a.bytes (omega (int_laws, sizes-pop env h p m.pool e));
          })
  ]

  pub get-remove :
      (j h : Text) (m : Mempool)
      → IsAccounted m
      → get j (remove env h m).pool ≡ (if text_eq j h then none else get j m.pool)
  unfolding remove
  get-remove j h m a = elim (Option-cases (get h m.pool)) [
    | inl missing ↦ ground (arith, missing, text_eq_iff j h)
    | inr (p, e) ↦ ground (arith, e, get-pop j h m.pool a.distinct)
  ]

  pub remove_many-IsAccounted :
      (hs : List Text) (m : Mempool) → IsAccounted m → IsAccounted (remove_many env hs m)
  unfolding remove_many
  remove_many-IsAccounted [] m a = a
  remove_many-IsAccounted (h ∷ hs) m a =
      remove_many-IsAccounted hs (remove env h m) (remove-IsAccounted h m a)

  pub get-remove_many :
      (j : Text) (hs : List Text) (m : Mempool)
      → IsAccounted m
      → get j (remove_many env hs m).pool ≡ (if mem j hs then none else get j m.pool)
  unfolding remove_many mem
  get-remove_many j [] m a = refl
  get-remove_many j (h ∷ hs) m a =
      ground (
        arith,
        get-remove_many j hs (remove env h m) (remove-IsAccounted h m a),
        get-remove j h m a,
      )
