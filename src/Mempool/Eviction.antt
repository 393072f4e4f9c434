-- ===== src/Mempool/Eviction.antt =====
-- The choice of the transactions to evict.
use echocoin_core.Prelude.{
  ◌≡◌, refl, ◌∙◌, true, false, some, [], ◌∷◌, ℤ, pos, ◌+ℤ◌, ◌-ℤ◌, leb_ℤ, int_laws, Text, text_eq,
  text_eq_iff, text_eq_refl, arith, if◌then◌else◌, Bool-cases, inl, inr, All,
}
use echocoin_core.Crypto.{mem}
use echocoin_core.Dict.{Dict, Distinct, get, contains}
use echocoin_core.Wire.{Tx}
use echocoin_core.Env.{Env}
use echocoin_core.Tx.{tx_size}
use echocoin_core.Mempool.Sorting.{sort_by-All}
use echocoin_core.Mempool.{
  Pending, Mempool, insert_by, sort_by, rate_less, entry_less, items, choose, remove, remove_many,
  victims, overflow_of,
}
use echocoin_core.Mempool.Removal.{IsAccounted, remove-IsAccounted, get-remove}

-- The entry's transaction is pooled under the entry's hash.
pub record Pooled (d : Dict Pending) (e : Text × Tx) : Type 0 where
  pub entry : Pending
  pub found : get e.0 d ≡ some entry
  pub tx_eq : entry.tx ≡ e.1

-- Entries under other keys stay pooled when one key changes.
Pooled-transport :
    (d d' : Dict Pending) (k : Text) (l : Dict Tx)
    → ((j : Text) → text_eq j k ≡ false → get j d' ≡ get j d)
    → contains k l ≡ false
    → All (Pooled d) l
    → All (Pooled d') l
unfolding contains
Pooled-transport d d' k [] same out h = tt
Pooled-transport d d' k (e ∷ l) same out h =
    let differs : text_eq e.0 k ≡ false =
      ground (arith, out, text_eq_iff e.0 k, text_eq_iff k e.0) in
    (
      record { entry = h.0.entry; found = same e.0 differs ∙ h.0.found; tx_eq = h.0.tx_eq },
      Pooled-transport d d' k l same (ground (arith, out)) h.1,
    )

module _ (env : Env) where
  contains-items : (k : Text) (d : Dict Pending) → contains k (items env d) ≡ contains k d
  unfolding contains
  contains-items k [] = refl
  contains-items k (e ∷ d) = rw (contains-items k d)

  items-Distinct : (d : Dict Pending) → Distinct d → Distinct (items env d)
  items-Distinct [] h = tt
  items-Distinct (e ∷ d) h = (contains-items e.0 d ∙ h.0, items-Distinct d h.1)

  items-Pooled : (d : Dict Pending) → Distinct d → All (Pooled d) (items env d)
  unfolding get
  items-Pooled [] h = tt
  items-Pooled (e ∷ d) h = (
    record { entry = e.1; found = rw text_eq_refl; tx_eq = refl },
    Pooled-transport d (e ∷ d) e.0 (items env d) (λ j differs. rw differs)
        (contains-items e.0 d ∙ h.0) (items-Pooled d h.1),
  )

  contains-insert_by :
      (k : Text) (e : Text × Tx) (l : Dict Tx)
      → contains k (insert_by (entry_less env) e l) ≡ (if text_eq k e.0 then true else contains k l)
  unfolding contains insert_by
  contains-insert_by k e [] = refl
  contains-insert_by k e (f ∷ l) = ground (arith, contains-insert_by k e l)

  contains-sort_by :
      (k : Text) (l : Dict Tx) → contains k (sort_by (entry_less env) l) ≡ contains k l
  unfolding contains sort_by
  contains-sort_by k [] = refl
  contains-sort_by k (e ∷ l) =
      rw (contains-insert_by k e (sort_by (entry_less env) l), contains-sort_by k l)

  insert_by-Distinct :
      (e : Text × Tx) (l : Dict Tx)
      → contains e.0 l ≡ false
      → Distinct l
      → Distinct (insert_by (entry_less env) e l)
  unfolding insert_by contains
  insert_by-Distinct e [] out h = (refl, tt)
  insert_by-Distinct e (f ∷ l) out h = ground (
    arith,
    insert_by-Distinct e l,
    contains-insert_by f.0 e l,
    text_eq_iff e.0 f.0,
    text_eq_iff f.0 e.0,
  )

  sort_by-Distinct : (l : Dict Tx) → Distinct l → Distinct (sort_by (entry_less env) l)
  unfolding sort_by
  sort_by-Distinct [] h = tt
  sort_by-Distinct (e ∷ l) h =
      insert_by-Distinct e (sort_by (entry_less env) l) (contains-sort_by e.0 l ∙ h.0)
        (sort_by-Distinct l h.1)

  bytes-remove :
      (e : Text × Tx) (m : Mempool)
      → Pooled m.pool e
      → (remove env e.0 m).total_bytes ≡ m.total_bytes -ℤ pos (tx_size env e.1)
  unfolding remove
  bytes-remove e m p = rw (p.found, remove, p.tx_eq) refl

  -- Removing the chosen transactions frees exactly the bytes that the loop counted.
  bytes-choose :
      (t : Tx) (overflow freed : ℤ) (l : Dict Tx) (m : Mempool)
      → IsAccounted env m
      → Distinct l
      → All (Pooled m.pool) l
      → let (hs, total) = choose env t overflow freed l in
        (remove_many env hs m).total_bytes +ℤ total ≡ m.total_bytes +ℤ freed
  unfolding choose remove_many
  bytes-choose t overflow freed [] m a d h = refl
  bytes-choose t overflow freed (e ∷ l) m a d h =
      let ih : (remove_many env (choose env t overflow (freed +ℤ pos (tx_size env e.1)) l).0
              (remove env e.0 m)).total_bytes
            +ℤ (choose env t overflow (freed +ℤ pos (tx_size env e.1)) l).1
          ≡ (remove env e.0 m).total_bytes +ℤ (freed +ℤ pos (tx_size env e.1)) =
        bytes-choose t overflow (freed +ℤ pos (tx_size env e.1)) l (remove env e.0 m)
          (remove-IsAccounted env e.0 m a) d.1
          (Pooled-transport m.pool (remove env e.0 m).pool e.0 l
            (λ j differs. get-remove env j e.0 m a ∙ rw differs) d.0 h.1) in
      let gone : (remove env e.0 m).total_bytes ≡ m.total_bytes -ℤ pos (tx_size env e.1) =
        bytes-remove e m h.0 in
      elim (Bool-cases (leb_ℤ overflow freed)) [
        | inl enough ↦ rw enough refl
        | inr short ↦ elim (Bool-cases (rate_less env e.1 t)) [
          | inl lower ↦ rw (short, lower) (rw (ih, gone) (omega int_laws))
          | inr higher ↦ rw (short, higher) refl
        ]
      ]

  -- Every chosen transaction has a lower fee rate than the new one.
  choose-lower :
      (t : Tx) (overflow freed : ℤ) (l : Dict Tx) (m : Mempool) (h : Text)
      → All (Pooled m.pool) l
      → mem h (choose env t overflow freed l).0 ≡ true
      → (p : Pending) × (get h m.pool ≡ some p) × (rate_less env p.tx t ≡ true)
  unfolding choose mem
  choose-lower t overflow freed [] m h pooled chosen = cc
  choose-lower t overflow freed (e ∷ l) m h pooled chosen =
      elim (Bool-cases (leb_ℤ overflow freed)) [
        | inl enough ↦ absurd (ground arith)
        | inr short ↦ elim (Bool-cases (rate_less env e.1 t)) [
          | inl lower ↦ elim (Bool-cases (text_eq h e.0)) [
            | inl same ↦
                let k : h ≡ e.0 = (text_eq_iff h e.0).0 same in
                (pooled.0.entry, rw k pooled.0.found, rw pooled.0.tx_eq lower)
            | inr differs ↦
                choose-lower t overflow (freed +ℤ pos (tx_size env e.1)) l m h pooled.1
                  (ground arith)
          ]
          | inr higher ↦ absurd (ground arith)
        ]
      ]

  module _ (t : Tx) (m : Mempool) (a : IsAccounted env m) where
    sorted_items : All (Pooled m.pool) (sort_by (entry_less env) (items env m.pool))
    sorted_items =
        sort_by-All (Pooled m.pool) (entry_less env) (items env m.pool)
          (items-Pooled m.pool a.distinct)

    pub bytes-victims :
        (remove_many env (victims env t m).0 m).total_bytes +ℤ (victims env t m).1 ≡ m.total_bytes
    unfolding victims
    bytes-victims =
        bytes-choose t (overflow_of env t m) (pos 0) (sort_by (entry_less env) (items env m.pool)) m
          a (sort_by-Distinct (items env m.pool) (items-Distinct m.pool a.distinct)) sorted_items
        ∙ omega int_laws

    pub victims-lower :
        (h : Text)
        → mem h (victims env t m).0 ≡ true
        → (p : Pending) × (get h m.pool ≡ some p) × (rate_less env p.tx t ≡ true)
    unfolding victims
    victims-lower h chosen =
        choose-lower t (overflow_of env t m) (pos 0) (sort_by (entry_less env) (items env m.pool)) m
          h sorted_items chosen
