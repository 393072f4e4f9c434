-- ===== src/Block/Assemble/Packed.antt =====
-- What `assemble` of src/block.py puts into a block.
use echocoin_core.Prelude.{
  ℕ, suc, ◌+◌, ◌≤◌, ◌≡◌, ◌∙◌, sym, ap, Bool, true, false, List, [], ◌∷◌, ◌++◌, append_assoc,
  append-nil, length, take, ltb, if◌then◌else◌, arith, Bool-cases, inl, inr, ℤ, Text,
}
use echocoin_core.Params.{block_size_limit}
use echocoin_core.Wire.{Tx, Time, Block}
use echocoin_core.Env.{Env}
use echocoin_core.Tx.{tx_size_in_block}
use echocoin_core.Block.{block_size}
use echocoin_core.Block.Assemble.{
  Packing, t_size, packed_with, pack_group, pack_groups, groups_of, skeleton, unpacked, packing,
}

-- The transactions are a first part of each group, one group behind the other.
pub data IsPrefixes : List (List Tx) → List Tx → Type 0 where
  none_left : (gs : List (List Tx)) → IsPrefixes gs []
  then_part :
      (g : List Tx) (gs : List (List Tx)) (n : ℕ) (ts : List Tx)
      → IsPrefixes gs ts
      → IsPrefixes (g ∷ gs) (take n g ++ ts)

if_lem {κ} : {A : Type 0} (P : A → Type κ) (b : Bool) {x y : A} → P x → P y → P (if b then x else y)
if_lem P true h k = h
if_lem P false h k = k

module _ (env : Env) where
  -- The bytes that transactions take behind `n` others.
  unfoldable pub bytes_from : ℕ → List Tx → ℕ
  bytes_from n [] = 0
  bytes_from n (t ∷ ts) = tx_size_in_block env t n + bytes_from (suc n) ts

  bytes_from-append :
      (n m : ℕ) (xs : List Tx) (t : Tx)
      → m ≡ n + length xs
      → bytes_from n (xs ++ t ∷ []) ≡ bytes_from n xs + tx_size_in_block env t m
  unfolding bytes_from
  bytes_from-append n m [] t e = let same : n ≡ m = omega (arith, e) in rw same (omega arith)
  bytes_from-append n m (x ∷ xs) t e =
      omega (arith, bytes_from-append (suc n) m xs t (omega (arith, e)))

  -- The running size is that of the empty block and the transactions, and within the limit.
  abbrev pub IsWithin : ℕ → Packing → Type 0
  IsWithin base p = (p.running ≡ base + bytes_from 0 p.valid_txs) × (p.running ≤ block_size_limit)

  module _ (late : ℕ → Bool) (base : ℕ) where
    pack_group-IsWithin :
        (g : List Tx) (p : Packing) → IsWithin base p → IsWithin base (pack_group env late g p)
    unfolding pack_group
    pack_group-IsWithin [] p h = h
    pack_group-IsWithin (t ∷ ts) p h = elim (Bool-cases (late p.checks)) [
      | inl past ↦ rw past h
      | inr early ↦ elim (Bool-cases (ltb block_size_limit (p.running + t_size env late t p))) [
        | inl large ↦ rw (early, large) h
        | inr fits ↦
            rw (early, fits)
              (pack_group-IsWithin ts (packed_with env late t p) (
                omega (
                  arith,
                  h.0,
                  bytes_from-append 0 (length p.valid_txs) p.valid_txs t (omega arith),
                ),
                ground (arith, fits),
              ))
      ]
    ]

    pack_groups-IsWithin :
        (gs : List (List Tx)) (p : Packing)
        → IsWithin base p
        → IsWithin base (pack_groups env late gs p)
    unfolding pack_groups
    pack_groups-IsWithin [] p h = h
    pack_groups-IsWithin (g ∷ gs) p h =
        if_lem (IsWithin base) p.hit_deadline h
          (pack_groups-IsWithin gs (pack_group env late g p) (pack_group-IsWithin g p h))

    pack_group-prefix :
        (g : List Tx) (p : Packing)
        → (n : ℕ) × ((pack_group env late g p).valid_txs ≡ p.valid_txs ++ take n g)
    unfolding pack_group
    pack_group-prefix [] p = (0, sym (append-nil p.valid_txs))
    pack_group-prefix (t ∷ ts) p = elim (Bool-cases (late p.checks)) [
      | inl past ↦ rw past (0, sym (append-nil p.valid_txs))
      | inr early ↦ elim (Bool-cases (ltb block_size_limit (p.running + t_size env late t p))) [
        | inl large ↦ rw (early, large) (0, sym (append-nil p.valid_txs))
        | inr fits ↦
            let (n, e) = pack_group-prefix ts (packed_with env late t p) in
            rw (early, fits) (suc n, e ∙ append_assoc p.valid_txs (t ∷ []) (take n ts))
      ]
    ]

    pack_groups-IsPrefixes :
        (gs : List (List Tx)) (p : Packing)
        → (ts : List Tx) × IsPrefixes gs ts
          × ((pack_groups env late gs p).valid_txs ≡ p.valid_txs ++ ts)
    unfolding pack_groups
    pack_groups-IsPrefixes [] p = ([], none_left [], sym (append-nil p.valid_txs))
    pack_groups-IsPrefixes (g ∷ gs) p =
        let (n, e) = pack_group-prefix g p in
        let (ts, parts, f) = pack_groups-IsPrefixes gs (pack_group env late g p) in
        let joined = f ∙ ap (λ xs. xs ++ ts) e ∙ append_assoc p.valid_txs (take n g) ts in
        if_lem
          (λ (q : Packing).
            (xs : List Tx) × IsPrefixes (g ∷ gs) xs × (q.valid_txs ≡ p.valid_txs ++ xs))
          p.hit_deadline ([], none_left (g ∷ gs), sym (append-nil p.valid_txs))
          (take n g ++ ts, then_part g gs n ts parts, joined)

-- If the block without transactions is within the size limit, then so is the size that `assemble`
-- counts, which is that of the empty block and of each transaction at its place; and the
-- transactions that it takes are a first part of each group, in the order of the groups.
pub packing_sound :
    (env : Env) (late : ℕ → Bool) (now : Time) (number : ℕ → Text) (tip : Block) (txs : List Tx)
    (builder : Text) (iterations : ℤ)
    → block_size env (skeleton env number late now tip builder iterations) ≤ block_size_limit
    → IsWithin env
        (block_size env (skeleton env number late now tip builder iterations))
        (packing env number late now tip txs builder iterations)
      × IsPrefixes
          (groups_of env txs)
          (packing env number late now tip txs builder iterations).valid_txs
unfolding packing bytes_from
packing_sound env late now number tip txs builder iterations h =
    let base = block_size env (skeleton env number late now tip builder iterations) in
    let p = unpacked env number late now tip builder iterations in
    let (ts, parts, e) = pack_groups-IsPrefixes env late base (groups_of env txs) p in
    (pack_groups-IsWithin env late base (groups_of env txs) p (omega arith, h), rw e parts)
