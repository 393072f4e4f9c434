-- ===== src/Storage/Order.antt =====
-- Rows in the order of their keys.
use echocoin_core.Prelude.{
  keep, ◌≡◌, ◌∙◌, ap, refl, Bool, false, [], ◌∷◌, ◌++◌, ℤ, ltb_ℤ, ◌<ℤ◌, ◌≤ℤ◌, arith, if◌then◌else◌,
  All, Bool-cases, inl, inr, eqb_ℤ,
}
use echocoin_core.Table.{Table, integer_key, put}
use echocoin_core.Storage.{insert_row, in_order}

module _ {V : Type 0} where
  -- Every key is below `k`.
  abbrev pub IsBelow : ℤ → Table ℤ V → Type 0
  IsBelow k rows = All (λ row. row.0 <ℤ k) rows

  abbrev pub IsOrdered : Table ℤ V → Type 0
  IsOrdered [] = Unit
  IsOrdered (r ∷ rows) = All (λ row. r.0 ≤ℤ row.0) rows × IsOrdered rows

  abbrev pub below : ℤ → ℤ × V → Bool
  below k row = ltb_ℤ row.0 k

  insert_row-All :
      (P : ℤ × V → Type 0) (row : ℤ × V) (rows : Table ℤ V)
      → P row
      → All P rows
      → All P (insert_row row rows)
  unfolding insert_row
  insert_row-All P row [] p h = (p, tt)
  insert_row-All P row (r ∷ rows) p h = elim (Bool-cases (ltb_ℤ r.0 row.0)) [
    | inl less ↦ rw less (h.0, insert_row-All P row rows p h.1)
    | inr more ↦ rw more (p, h)
  ]

  All-weaker :
      (a b : ℤ) (rows : Table ℤ V)
      → a ≤ℤ b
      → All (λ row. b ≤ℤ row.0) rows
      → All (λ row. a ≤ℤ row.0) rows
  All-weaker a b [] t h = tt
  All-weaker a b (r ∷ rows) t h = (omega (arith, t, h.0), All-weaker a b rows t h.1)

  insert_row-IsOrdered :
      (row : ℤ × V) (rows : Table ℤ V) → IsOrdered rows → IsOrdered (insert_row row rows)
  unfolding insert_row
  insert_row-IsOrdered row [] h = (tt, tt)
  insert_row-IsOrdered row (r ∷ rows) h = elim (Bool-cases (ltb_ℤ r.0 row.0)) [
    | inl less ↦ rw less (
      insert_row-All (λ q. r.0 ≤ℤ q.0) row rows (ground (arith, less)) h.0,
      insert_row-IsOrdered row rows h.1,
    )
    | inr more ↦
        let t : row.0 ≤ℤ r.0 = ground (arith, more) in
        rw more ((t, All-weaker row.0 r.0 rows t h.0), h)
  ]

  in_order-IsOrdered : (rows : Table ℤ V) → IsOrdered (in_order rows)
  unfolding in_order
  in_order-IsOrdered [] = tt
  in_order-IsOrdered (row ∷ rows) =
      insert_row-IsOrdered row (in_order rows) (in_order-IsOrdered rows)

  keep_none :
      (k a : ℤ) (rows : Table ℤ V)
      → ltb_ℤ a k ≡ false
      → All (λ row. a ≤ℤ row.0) rows
      → keep (below k) rows ≡ []
  unfolding keep
  keep_none k a [] h above = refl
  keep_none k a (r ∷ rows) h above =
      let out : ltb_ℤ r.0 k ≡ false = ground (arith, h, above.0) in
      rw out (keep_none k a rows h above.1)

  keep-insert_row :
      (k : ℤ) (row : ℤ × V) (rows : Table ℤ V)
      → IsOrdered rows
      → keep (below k) (insert_row row rows)
        ≡ (if ltb_ℤ row.0 k then insert_row row (keep (below k) rows) else keep (below k) rows)
  unfolding keep insert_row
  keep-insert_row k row [] h = refl
  keep-insert_row k row (r ∷ rows) h = elim (Bool-cases (ltb_ℤ r.0 k)) [
    | inl low ↦ ground (arith, low, keep-insert_row k row rows h.1)
    | inr high ↦ ground (arith, high, keep-insert_row k row rows h.1, keep_none k r.0 rows high h.0)
  ]

  -- Rows are dropped above a height before or after the ordering alike.
  pub in_order-keep :
      (k : ℤ) (rows : Table ℤ V) → in_order (keep (below k) rows) ≡ keep (below k) (in_order rows)
  unfolding in_order keep
  in_order-keep k [] = refl
  in_order-keep k (row ∷ rows) =
      ground (
        arith,
        in_order-keep k rows,
        keep-insert_row k row (in_order rows) (in_order-IsOrdered rows),
      )

  pub keep-IsBelow : (k : ℤ) (rows : Table ℤ V) → IsBelow k (keep (below k) rows)
  unfolding keep
  keep-IsBelow k [] = tt
  keep-IsBelow k (r ∷ rows) = elim (Bool-cases (ltb_ℤ r.0 k)) [
    | inl low ↦ rw low (ground (arith, low), keep-IsBelow k rows)
    | inr high ↦ rw high (keep-IsBelow k rows)
  ]

  insert_row_last :
      (row last : ℤ × V) (rows : Table ℤ V)
      → row.0 <ℤ last.0
      → insert_row row (rows ++ last ∷ []) ≡ insert_row row rows ++ last ∷ []
  unfolding insert_row
  insert_row_last row last [] h =
      let more : ltb_ℤ last.0 row.0 ≡ false = ground (arith, h) in rw more refl
  insert_row_last row last (r ∷ rows) h = ground (arith, insert_row_last row last rows h)

  -- A row with a larger key than all goes to the end.
  pub in_order-put :
      (k : ℤ) (v : V) (rows : Table ℤ V)
      → IsBelow k rows
      → in_order (put k v rows) ≡ in_order rows ++ (k, v) ∷ []
  unfolding in_order put insert_row
  in_order-put k v [] h = refl
  in_order-put k v (r ∷ rows) h =
      let fresh : eqb_ℤ k r.0 ≡ false = ground (arith, h.0) in
      rw fresh (
        ap (insert_row r) (in_order-put k v rows h.1)
        ∙ insert_row_last r (k, v) (in_order rows) h.0)

  pub put-IsBelow :
      (k next : ℤ) (v : V) (rows : Table ℤ V)
      → IsBelow k rows
      → k <ℤ next
      → IsBelow next (put k v rows)
  unfolding put
  put-IsBelow k next v [] h t = (t, tt)
  put-IsBelow k next v (r ∷ rows) h t =
      let fresh : eqb_ℤ k r.0 ≡ false = ground (arith, h.0) in
      rw fresh (omega (arith, h.0, t), put-IsBelow k next v rows h.1 t)

  insert_row-All_back :
      (P : ℤ × V → Type 0) (row : ℤ × V) (rows : Table ℤ V)
      → All P (insert_row row rows)
      → P row × All P rows
  unfolding insert_row
  insert_row-All_back P row [] = λ h. h
  insert_row-All_back P row (r ∷ rows) = elim (Bool-cases (ltb_ℤ r.0 row.0)) [
    | inl less ↦
        rw less (λ h. let rest = insert_row-All_back P row rows h.1 in (rest.0, (h.0, rest.1)))
    | inr more ↦ rw more (λ h. h)
  ]

  pub All-in_order : (P : ℤ × V → Type 0) (rows : Table ℤ V) → All P (in_order rows) → All P rows
  unfolding in_order
  All-in_order P [] h = tt
  All-in_order P (row ∷ rows) h =
      let parts = insert_row-All_back P row (in_order rows) h in
      (parts.0, All-in_order P rows parts.1)
