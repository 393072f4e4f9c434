-- ===== src/Mempool/Sorting.antt =====
-- Python's `sorted`, as the code of src/mempool.py and src/block.py calls it.
use echocoin_core.Prelude.{◌≡◌, Bool, false, List, [], ◌∷◌, All, arith, Bool-cases, inl, inr}
use echocoin_core.Wire.{Tx}
use echocoin_core.Mempool.{insert_by, sort_by, nonce_less}

module _ {A : Type 0} (P : A → Type 0) (less : A → A → Bool) where
  pub insert_by-All : (x : A) (xs : List A) → P x → All P xs → All P (insert_by less x xs)
  unfolding insert_by
  insert_by-All x [] p all = (p, tt)
  insert_by-All x (y ∷ ys) p all = elim (Bool-cases (less y x)) [
    | inl lower ↦ rw lower (all.0, insert_by-All x ys p all.1)
    | inr placed ↦ rw placed (p, all)
  ]

  pub sort_by-All : (xs : List A) → All P xs → All P (sort_by less xs)
  unfolding sort_by
  sort_by-All [] all = tt
  sort_by-All (x ∷ xs) all = insert_by-All x (sort_by less xs) all.0 (sort_by-All xs all.1)

-- No nonce is below the one before it.
abbrev pub IsAscending : List Tx → Type 0
IsAscending [] = Unit
IsAscending (t ∷ ts) = All (λ u. nonce_less u t ≡ false) ts × IsAscending ts

nonce_floor :
    (t u : Tx) (us : List Tx)
    → nonce_less u t ≡ false
    → All (λ v. nonce_less v u ≡ false) us
    → All (λ v. nonce_less v t ≡ false) us
nonce_floor t u [] placed all = tt
nonce_floor t u (v ∷ vs) placed all =
    (ground (arith, placed, all.0), nonce_floor t u vs placed all.1)

insert_by-IsAscending :
    (t : Tx) (ts : List Tx) → IsAscending ts → IsAscending (insert_by nonce_less t ts)
unfolding insert_by
insert_by-IsAscending t [] h = (tt, tt)
insert_by-IsAscending t (u ∷ us) h = elim (Bool-cases (nonce_less u t)) [
  | inl lower ↦ rw lower (
    insert_by-All (λ v. nonce_less v u ≡ false) nonce_less t us (ground (arith, lower)) h.0,
    insert_by-IsAscending t us h.1,
  )
  | inr placed ↦ rw placed ((placed, nonce_floor t u us placed h.0), h)
]

pub sort_by-IsAscending : (ts : List Tx) → IsAscending (sort_by nonce_less ts)
unfolding sort_by
sort_by-IsAscending [] = tt
sort_by-IsAscending (t ∷ ts) =
    insert_by-IsAscending t (sort_by nonce_less ts) (sort_by-IsAscending ts)
