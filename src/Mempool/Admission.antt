-- ===== src/Mempool/Admission.antt =====
-- What `add` of src/mempool.py does to the pool.
use echocoin_core.Prelude.{
  ℕ, ◌≡◌, ◌≢◌, refl, sym, true, false, some, none, List, [], ℤ, pos, ◌+ℤ◌, ◌-ℤ◌, ◌≤ℤ◌, ltb_ℤ,
  int_laws, Text, text_eq, text_eq_refl, text_eq_iff, arith, if◌then◌else◌, Bool-cases, inl, inr,
}
use echocoin_core.Crypto.{mem}
use echocoin_core.Dict.{
  get, contains, get-set, set-Distinct, get_of_not-contains, not-contains_of_none,
}
use echocoin_core.Wire.{Tx}
use echocoin_core.Env.{Env}
use echocoin_core.Tx.{tx_hash, tx_size}
use echocoin_core.Mempool.{
  Pending, Mempool, mempool_max_bytes, added, duplicate, full, remove_many, victims, overflow_of,
  admit, add, rate_less,
}
use echocoin_core.Mempool.Sizes.{sizes-set_new}
use echocoin_core.Mempool.Removal.{IsAccounted, remove_many-IsAccounted, get-remove_many}
use echocoin_core.Mempool.Eviction.{bytes-victims, victims-lower}

-- The bytes that are left over suffice.
room :
    (left freed total : ℤ) (size : ℕ)
    → left +ℤ freed ≡ total
    → ltb_ℤ freed (total +ℤ pos size -ℤ pos mempool_max_bytes) ≡ false
    → left +ℤ pos size ≤ℤ pos mempool_max_bytes
room left freed total size e h =
    let enough : total +ℤ pos size -ℤ pos mempool_max_bytes ≤ℤ freed = ground (arith, h) in
    grind (int_laws, e, enough)

fitting :
    (total : ℤ) (size : ℕ)
    → ltb_ℤ (pos 0) (total +ℤ pos size -ℤ pos mempool_max_bytes) ≡ false
    → total +ℤ pos size ≤ℤ pos mempool_max_bytes
fitting total size h =
    let enough : total +ℤ pos size -ℤ pos mempool_max_bytes ≤ℤ pos 0 = ground (arith, h) in
    omega int_laws

module _ (env : Env) where
  -- No hash twice, the byte count is the sum of the sizes, and it is within the limit.
  pub record IsValid (m : Mempool) : Type 0 where
    pub accounted : IsAccounted env m
    pub bounded : m.total_bytes ≤ℤ pos mempool_max_bytes

  gone_after_removal :
      (h : Text) (hs : List Text) (m : Mempool)
      → IsAccounted env m
      → contains h m.pool ≡ false
      → contains h (remove_many env hs m).pool ≡ false
  gone_after_removal h hs m a new =
      not-contains_of_none h (remove_many env hs m).pool
        (ground (arith, get-remove_many env h hs m a, get_of_not-contains h m.pool new))

  admit-IsValid :
      (now : ℤ) (t : Tx) (hs : List Text) (m : Mempool)
      → IsAccounted env m
      → contains (tx_hash env t) m.pool ≡ false
      → (remove_many env hs m).total_bytes +ℤ pos (tx_size env t) ≤ℤ pos mempool_max_bytes
      → IsValid (admit env now t hs m).0
  unfolding admit
  admit-IsValid now t hs m a new room =
      let after : IsAccounted env (remove_many env hs m) = remove_many-IsAccounted env hs m a in
      let h = tx_hash env t in
      let p : Pending = record { tx = t; entered = now } in
      record {
        accounted = record {
          distinct = set-Distinct h p (remove_many env hs m).pool after.distinct;
          bytes = rw after.bytes (
              omega (
                int_laws,
                sizes-set_new env h p (remove_many env hs m).pool (gone_after_removal h hs m a new),
              ));
        };
        bounded = room;
      }

  -- `add` keeps the pool valid: no hash twice, `_total_bytes` equal to the sum of the sizes, and
  -- never more than the limit, with or without evictions.
  pub add-IsValid : (now : ℤ) (t : Tx) (m : Mempool) → IsValid m → IsValid (add env now t m).0
  unfolding add remove_many
  add-IsValid now t m v = elim (Bool-cases (contains (tx_hash env t) m.pool)) [
    | inl known ↦ rw known v
    | inr new ↦ elim (Bool-cases (ltb_ℤ (pos 0) (overflow_of env t m))) [
      | inl over ↦ elim (Bool-cases (ltb_ℤ (victims env t m).1 (overflow_of env t m))) [
        | inl short ↦ rw (new, over, short) v
        | inr enough ↦
            rw (new, over, enough)
              (admit-IsValid now t (victims env t m).0 m v.accounted new (
                room (remove_many env (victims env t m).0 m).total_bytes (victims env t m).1
                  m.total_bytes (tx_size env t) (bytes-victims env t m v.accounted) enough))
      ]
      | inr fits ↦
          rw (new, fits)
            (admit-IsValid now t [] m v.accounted new (fitting m.total_bytes (tx_size env t) fits))
    ]
  ]

  -- The three ways in which `add` ends.
  data AddCase (now : ℤ) (t : Tx) (m : Mempool) : Type 0 where
    known : add env now t m ≡ (m, duplicate) → AddCase now t m
    refused : add env now t m ≡ (m, full) → AddCase now t m
    taken :
        (hs : List Text)
        → add env now t m ≡ admit env now t hs m
        → ((h : Text) → mem h hs ≡ true → mem h (victims env t m).0 ≡ true)
        → AddCase now t m

  add-AddCase : (now : ℤ) (t : Tx) (m : Mempool) → AddCase now t m
  unfolding add mem
  add-AddCase now t m = elim (Bool-cases (contains (tx_hash env t) m.pool)) [
    | inl old ↦ known (rw old refl)
    | inr new ↦ elim (Bool-cases (ltb_ℤ (pos 0) (overflow_of env t m))) [
      | inl over ↦ elim (Bool-cases (ltb_ℤ (victims env t m).1 (overflow_of env t m))) [
        | inl short ↦ refused (rw (new, over, short) refl)
        | inr enough ↦ taken (victims env t m).0 (rw (new, over, enough) refl) (λ h c. c)
      ]
      | inr fits ↦ taken [] (rw (new, fits) refl) (λ h c. cc)
    ]
  ]

  -- What a call of `add` may do to the entry under one hash.
  pub data Effect (t : Tx) (m m' : Mempool) (j : Text) : Type 0 where
    kept : get j m'.pool ≡ get j m.pool → Effect t m m' j
    evicted :
        (p : Pending)
        → get j m.pool ≡ some p
        → get j m'.pool ≡ none
        → rate_less env p.tx t ≡ true
        → Effect t m m' j

  -- A transaction that `add` takes into a valid pool is pooled under its hash with its time of
  -- entry, and every other entry stays as it was, or is evicted and paid a lower fee rate than
  -- the new one.
  pub add-Effect :
      (now : ℤ) (t : Tx) (m : Mempool) (h j : Text)
      → IsValid m
      → (add env now t m).1 ≡ added h
      → j ≢ h
      → (h ≡ tx_hash env t)
        × (get h (add env now t m).0.pool ≡ some (record { tx = t; entered = now }))
        × Effect t m (add env now t m).0 j
  unfolding admit
  add-Effect now t m h j v e differs = by_case (add-AddCase now t m)
    where
      by_case :
          AddCase now t m
          → (h ≡ tx_hash env t)
            × (get h (add env now t m).0.pool ≡ some (record { tx = t; entered = now }))
            × Effect t m (add env now t m).0 j
      by_case (known a) = absurd (ground (arith, a))
      by_case (refused a) = absurd (ground (arith, a))
      by_case (taken hs a chosen) =
          let same : tx_hash env t ≡ h = ground (arith, a) in
          let p : Pending = record { tx = t; entered = now } in
          (
            sym same,
            rw (a, get-set h (tx_hash env t) p (remove_many env hs m).pool, same, text_eq_refl)
                refl,
            let ne : text_eq j (tx_hash env t) ≡ false = ground (arith, text_eq_iff j h, same) in
                let after : get j (add env now t m).0.pool
                    ≡ (if mem j hs then none else get j m.pool) =
                  rw (a, get-set j (tx_hash env t) p (remove_many env hs m).pool, ne)
                    (get-remove_many env j hs m v.accounted) in
                elim (Bool-cases (mem j hs)) [
                  | inl out ↦
                      let (q, found, lower) = victims-lower env t m v.accounted j (chosen j out) in
                      evicted q found (rw out at after) lower
                  | inr stays ↦ kept (rw stays at after)
                ],
          )

  -- `add` that does not take a transaction changes nothing.
  pub add_refused :
      (now : ℤ) (t : Tx) (m : Mempool)
      → ((h : Text) → (add env now t m).1 ≢ added h)
      → (add env now t m).0 ≡ m
  unfolding admit
  add_refused now t m no_hash = by_case (add-AddCase now t m)
    where
      by_case : AddCase now t m → (add env now t m).0 ≡ m
      by_case (known a) = rw a refl
      by_case (refused a) = rw a refl
      by_case (taken hs a chosen) = absurd (no_hash (tx_hash env t) (rw a refl))
