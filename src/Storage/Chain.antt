-- ===== src/Storage/Chain.antt =====
-- The blocks of a chain in the database, written, cut back and read.
use echocoin_core.Prelude.{
  keep, ℕ, zero, suc, ◌+◌, ◌≤◌, ◌≡◌, ◌∙◌, sym, ap, refl, true, false, some, List, [], ◌∷◌, ◌++◌,
  map, append_assoc, append-nil, ℤ, pos, ltb_ℤ, ◌<ℤ◌, Text, arith, All, length, take, Result, ok,
  ◌>>=◌, subst,
}
use echocoin_core.Table.{Table, integer_key}
use echocoin_core.Wire.{need_or, Entry, Block}
use echocoin_core.Env.{Env}
use echocoin_core.State.{State}
use echocoin_core.Storage.Order.{
  IsBelow, below, in_order-keep, keep-IsBelow, in_order-put, put-IsBelow, All-in_order,
}
use echocoin_core.Storage.{
  Database, Json, in_order, index_entries, put_index, index_block, put_block, load_row, load_rows,
  load_all_blocks, save_block_and_state, save_state, save_state_inner, delete_from, put_blocks,
  index_blocks, replace_chain_and_state, insert_blocks,
}

-- The heights of consecutive blocks.
abbrev pub HasHeights : ℕ → List Block → Type 0
HasHeights from [] = Unit
HasHeights from (b ∷ bs) = (b.height ≡ pos from) × HasHeights (suc from) bs

HasHeights-append :
    (from n : ℕ) (xs ys : List Block)
    → n ≡ from + length xs
    → HasHeights from xs
    → HasHeights n ys
    → HasHeights from (xs ++ ys)
HasHeights-append from n [] ys e h k =
    let same : n ≡ from = omega (arith, e) in subst (λ m. HasHeights m ys) same k
HasHeights-append from n (x ∷ xs) ys e h k =
    (h.0, HasHeights-append (suc from) n xs ys (omega (arith, e)) h.1 k)

HasHeights-take : (from n : ℕ) (xs : List Block) → HasHeights from xs → HasHeights from (take n xs)
HasHeights-take from zero xs h = tt
HasHeights-take from (suc n) [] h = tt
HasHeights-take from (suc n) (x ∷ xs) h = (h.0, HasHeights-take (suc from) n xs h.1)

length-take : (n : ℕ) (xs : List Block) → n ≤ length xs → length (take n xs) ≡ n
length-take zero xs h = refl
length-take (suc n) [] h = absurd (omega (arith, h))
length-take (suc n) (x ∷ xs) h = omega (arith, length-take n xs (omega (arith, h)))

-- The rows of the state are those that saving it writes.
abbrev pub IsSaved : State → Database → Type 0
IsSaved s after = (before : Database) × (after ≡ save_state s before)

-- The transactions of a block can be read, so that its index rows can be written.
abbrev pub HasIndex : Env → Block → Type 0
HasIndex env b =
    (txs : List Entry) × (rows : List (Text × List Text)) × (need_or [] b.transactions ≡ ok txs)
    × (index_entries env txs ≡ ok rows)

put_index-blocks :
    (rows : List (Text × List Text)) (height : ℤ) (db : Database)
    → (put_index rows height db).blocks ≡ db.blocks
unfolding put_index
put_index-blocks [] height db = refl
put_index-blocks (row ∷ rows) height db = put_index-blocks rows height _

module _ (env : Env) where
  index_block-ok :
      (b : Block) (db : Database)
      → HasIndex env b
      → (after : Database) × (index_block env b db ≡ ok after) × (after.blocks ≡ db.blocks)
  unfolding index_block
  index_block-ok b db (txs, rows, e, i) =
      (put_index rows b.height db, rw (e, i) refl, put_index-blocks rows b.height db)

  index_blocks-ok :
      (bs : List Block) (db : Database)
      → All (HasIndex env) bs
      → (after : Database) × (index_blocks env bs db ≡ ok after) × (after.blocks ≡ db.blocks)
  unfolding index_blocks
  index_blocks-ok [] db h = (db, refl, refl)
  index_blocks-ok (b ∷ bs) db h =
      let (one, run, same) = index_block-ok b db h.0 in
      let (all, rest, still) = index_blocks-ok bs one h.1 in (all, rw run rest, still ∙ same)

module _ (json : Json) where
  -- The database holds a chain that starts at height 0.
  abbrev pub IsStored : List Block → Database → Type 0
  IsStored chain db =
      (in_order db.blocks ≡ map (λ b. (b.height, (b.hash, json.dumps b))) chain)
      × HasHeights 0 chain

  abbrev rows_of : List Block → Table ℤ (Text × Text)
  rows_of chain = map (λ b. (b.height, (b.hash, json.dumps b))) chain

  rows_of-append : (xs ys : List Block) → rows_of (xs ++ ys) ≡ rows_of xs ++ rows_of ys
  rows_of-append [] ys = refl
  rows_of-append (x ∷ xs) ys =
      ap (λ rows. (x.height, (x.hash, json.dumps x)) ∷ rows) (rows_of-append xs ys)

  -- The JSON text of each block reads back as that block.
  abbrev pub IsReadable : List Block → Type 0
  IsReadable = All (λ b. json.loads (json.dumps b) ≡ some b)

  load_rows-rows_of : (bs : List Block) → IsReadable bs → load_rows json (rows_of bs) ≡ ok bs
  unfolding load_rows load_row
  load_rows-rows_of [] back = refl
  load_rows-rows_of (b ∷ bs) back =
      let one : load_row json (b.hash, json.dumps b) ≡ ok b = rw (load_row, back.0) refl in
      rw (one, load_rows-rows_of bs back.1) refl

  keep-rows_of_none :
      (k from : ℕ) (bs : List Block)
      → k ≤ from
      → HasHeights from bs
      → keep (below (pos k)) (rows_of bs) ≡ []
  unfolding keep
  keep-rows_of_none k from [] t h = refl
  keep-rows_of_none k from (b ∷ bs) t h =
      let out : ltb_ℤ b.height (pos k) ≡ false = rw h.0 (ground (arith, t)) in
      rw out (keep-rows_of_none k (suc from) bs (omega (arith, t)) h.1)

  keep-rows_of :
      (k from n : ℕ) (bs : List Block)
      → k ≡ from + n
      → HasHeights from bs
      → keep (below (pos k)) (rows_of bs) ≡ rows_of (take n bs)
  unfolding keep
  keep-rows_of k from zero bs e h = keep-rows_of_none k from bs (omega (arith, e)) h
  keep-rows_of k from (suc n) [] e h = refl
  keep-rows_of k from (suc n) (b ∷ bs) e h =
      let low : ltb_ℤ b.height (pos k) ≡ true = rw h.0 (ground (arith, e)) in
      rw low (
        ap (λ rows. (b.height, (b.hash, json.dumps b)) ∷ rows)
          (keep-rows_of k (suc from) n bs (omega (arith, e)) h.1))

  rows_of-IsBelow :
      (from n : ℕ) (bs : List Block)
      → n ≡ from + length bs
      → HasHeights from bs
      → IsBelow (pos n) (rows_of bs)
  rows_of-IsBelow from n [] e h = tt
  rows_of-IsBelow from n (b ∷ bs) e h =
      (rw h.0 (omega (arith, e)), rows_of-IsBelow (suc from) n bs (omega (arith, e)) h.1)

  in_order-put_blocks :
      (from : ℕ) (bs : List Block) (db : Database)
      → HasHeights from bs
      → IsBelow (pos from) db.blocks
      → in_order (put_blocks json bs db).blocks ≡ in_order db.blocks ++ rows_of bs
  unfolding put_blocks put_block
  in_order-put_blocks from [] db h low = sym (append-nil (in_order db.blocks))
  in_order-put_blocks from (b ∷ bs) db h low =
      let low_b : IsBelow b.height db.blocks = rw h.0 low in
      let next : b.height <ℤ pos (suc from) = rw h.0 (omega arith) in
      let row : Text × Text = (b.hash, json.dumps b) in
      let rest =
        in_order-put_blocks (suc from) bs (put_block json b db) h.1
          (put-IsBelow b.height (pos (suc from)) row db.blocks low_b next) in
      rest
      ∙ ap (λ rows. rows ++ rows_of bs) (in_order-put b.height row db.blocks low_b)
      ∙ append_assoc (in_order db.blocks) _ (rows_of bs)

  -- Blocks written above a cut end the chain that is stored.
  store_lem :
      (bs chain : List Block) (n : ℕ) (db : Database)
      → n ≡ length chain
      → IsStored chain db
      → HasHeights n bs
      → IsBelow (pos n) db.blocks
      → IsStored (chain ++ bs) (put_blocks json bs db)
  store_lem bs chain n db e s h low = (
    in_order-put_blocks n bs db h low
        ∙ ap (λ rows. rows ++ rows_of bs) s.0
        ∙ sym (rows_of-append chain bs),
    HasHeights-append 0 n chain bs (omega (arith, e)) s.1 h,
  )

  stored-IsBelow :
      (chain : List Block) (db : Database)
      → IsStored chain db
      → IsBelow (pos (length chain)) db.blocks
  stored-IsBelow chain db s =
      All-in_order (λ row. row.0 <ℤ pos (length chain)) db.blocks
        (rw s.0 (rows_of-IsBelow 0 (length chain) chain (omega arith) s.1))

  delete_from-IsStored :
      (n : ℕ) (chain : List Block) (db : Database)
      → IsStored chain db
      → IsStored (take n chain) (delete_from (pos n) db)
  unfolding delete_from
  delete_from-IsStored n chain db s = (
    in_order-keep (pos n) db.blocks
        ∙ ap (keep (below (pos n))) s.0
        ∙ keep-rows_of n 0 n chain (omega arith) s.1,
    HasHeights-take 0 n chain s.1,
  )

  delete_from-IsBelow : (n : ℕ) (db : Database) → IsBelow (pos n) (delete_from (pos n) db).blocks
  unfolding delete_from
  delete_from-IsBelow n db = keep-IsBelow (pos n) db.blocks

  same_blocks-IsStored :
      (chain : List Block) (a b : Database)
      → a.blocks ≡ b.blocks
      → IsStored chain b
      → IsStored chain a
  same_blocks-IsStored chain a b e s = (ap in_order e ∙ s.0, s.1)

  save_state_inner-IsStored :
      (chain : List Block) (s : State) (db : Database)
      → IsStored chain db
      → IsStored chain (save_state_inner s db)
  unfolding save_state_inner
  save_state_inner-IsStored chain s db h = h

  load_all_blocks-stored :
      (chain : List Block) (db : Database)
      → IsReadable chain
      → IsStored chain db
      → load_all_blocks json db ≡ ok chain
  unfolding load_all_blocks
  load_all_blocks-stored chain db back s = rw s.0 (load_rows-rows_of chain back)

module _ (env : Env) (json : Json) where
  -- What the writing of the state makes of the blocks that were written.
  finish_lem :
      (chain : List Block) (s : State) (r : Result Database) (indexed db : Database)
      → IsReadable json chain
      → r ≡ ok indexed
      → indexed.blocks ≡ db.blocks
      → IsStored json chain db
      → (after : Database) × (r >>= (λ i. ok (save_state_inner s i)) ≡ ok after)
        × IsStored json chain after
        × (load_all_blocks json after ≡ ok chain)
        × IsSaved s after
  unfolding save_state
  finish_lem chain s r indexed db back run same new =
      let stored =
        save_state_inner-IsStored json chain s indexed
          (same_blocks-IsStored json chain indexed db same new) in
      (
        save_state_inner s indexed,
        rw run refl,
        stored,
        load_all_blocks-stored json chain (save_state_inner s indexed) back stored,
        (indexed, refl),
      )

  -- If the JSON texts of the blocks read back as those blocks, and the database holds a chain from height
  -- 0 on, then replacing the chain from a fork point that is not above its end, by one block or more
  -- of consecutive heights whose transactions can be indexed, passes; the database then holds the
  -- chain up to the fork point with the new blocks behind it, and that is what is loaded.
  pub load_all_blocks-replace :
      (chain : List Block) (n : ℕ) (first : Block) (more : List Block) (s : State) (db : Database)
      → n ≤ length chain
      → IsReadable json (take n chain ++ first ∷ more)
      → IsStored json chain db
      → HasHeights n (first ∷ more)
      → All (HasIndex env) (first ∷ more)
      → (after : Database) × (replace_chain_and_state env json (pos n) (first ∷ more) s db
          ≡ ok after)
        × IsStored json (take n chain ++ first ∷ more) after
        × (load_all_blocks json after ≡ ok (take n chain ++ first ∷ more))
        × IsSaved s after
  unfolding replace_chain_and_state insert_blocks
  load_all_blocks-replace chain n first more s db t back stored h index =
      let cut = delete_from (pos n) db in
      let low = delete_from-IsBelow json n db in
      let new =
        store_lem json (first ∷ more) (take n chain) n cut (sym (length-take n chain t))
          (delete_from-IsStored json n chain db stored) h low in
      let (indexed, run, same) =
        index_blocks-ok env (first ∷ more) (put_blocks json (first ∷ more) cut) index in
      finish_lem (take n chain ++ first ∷ more) s _ indexed (put_blocks json (first ∷ more) cut)
        back run same new

  -- The same for a block of the next height that is saved with the state: the chain grows by it.
  pub load_all_blocks-save :
      (chain : List Block) (b : Block) (s : State) (db : Database)
      → IsReadable json (chain ++ b ∷ [])
      → IsStored json chain db
      → b.height ≡ pos (length chain)
      → HasIndex env b
      → (after : Database) × (save_block_and_state env json b s db ≡ ok after)
        × IsStored json (chain ++ b ∷ []) after
        × (load_all_blocks json after ≡ ok (chain ++ b ∷ []))
        × IsSaved s after
  unfolding save_block_and_state put_blocks
  load_all_blocks-save chain b s db back stored h index =
      let row : HasHeights (length chain) (b ∷ []) = (h, tt) in
      let low = stored-IsBelow json chain db stored in
      let new = store_lem json (b ∷ []) chain (length chain) db refl stored row low in
      let (indexed, run, same) = index_block-ok env b (put_block json b db) index in
      finish_lem (chain ++ b ∷ []) s _ indexed (put_block json b db) back run same new
