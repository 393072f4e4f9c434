-- ===== src/Storage.antt =====
-- src/storage.py: the tables of the database, what is written to them and how they are read.
-- A table is the list of its rows, each with its primary key first.
pub mod Order
pub mod Chain
pub mod Snapshot
use echocoin_core.Prelude.{
  Bool, true, false, not, ◌&&◌, ◌||◌, Option, none, some, List, [], ◌∷◌, ◌++◌, map, ℤ, pos, negsuc,
  ltb_ℤ, Text, text_eq, codes, if◌then◌else◌, keep, member, add_member, Result, ok, reject, raise,
  value_error, attribute_error, ◌>>=◌,
}
use echocoin_core.Dict.{Dict, get_or}
use echocoin_core.Table.{Table, Key, integer_key, text_key, texts_key, find, put, put_new}
use echocoin_core.Wire.{need, need_or, Output, Tx, Entry, tx_entry, not_dict, Block}
use echocoin_core.Env.{Env}
use echocoin_core.State.{State, to_of}
use echocoin_core.Tx.{tx_hash}

pub record Database : Type 0 where
  -- height, with the hash and the JSON text
  pub blocks : Table ℤ (Text × Text)
  -- address, with balance and nonce
  pub states : Table Text (ℤ × ℤ)
  pub emission : Table Text ℤ
  pub metas : Table Text Text
  -- transaction hash, with block height
  pub tx_index : Table Text ℤ
  -- address and transaction hash, with block height
  pub addr_index : Table (Text × Text) ℤ

-- json.dumps and json.loads of a block, which may raise, and what executing peewee's `insert_many`
-- of no rows comes to.
pub record Json : Type 0 where
  pub dumps : Block → Text
  pub loads : Text → Option Block
  pub insert_none : Result (Unit {0})

module _ {V : Type 0} where
  unfoldable pub insert_row : ℤ × V → Table ℤ V → Table ℤ V
  insert_row row [] = row ∷ []
  insert_row row (r ∷ rows) = if ltb_ℤ r.0 row.0 then r ∷ insert_row row rows else row ∷ r ∷ rows

  -- The rows ordered by their key.
  unfoldable pub in_order : Table ℤ V → Table ℤ V
  in_order [] = []
  in_order (row ∷ rows) = insert_row row (in_order rows)

-- `{o["to"] for o in outputs}`, added to a set
unfoldable pub add_recipients : List Output → List Text → Result (List Text)
add_recipients [] set = ok set
add_recipients (out ∷ outs) set = do to ← to_of out; add_recipients outs (add_member to set)

-- The rows that `_index_block` writes for a transaction: its hash, and the addresses.
unfoldable pub index_entry : Env → Entry → Result (Text × List Text)
index_entry env (tx_entry t) = do
  sender ← need t.from
  outputs ← need_or [] t.outputs
  addrs ← add_recipients outputs (sender ∷ [])
  ok (tx_hash env t, addrs)
index_entry env not_dict = raise attribute_error

unfoldable pub index_entries : Env → List Entry → Result (List (Text × List Text))
index_entries env [] = ok []
index_entries env (t ∷ ts) = do
  row ← index_entry env t
  rows ← index_entries env ts
  ok (row ∷ rows)

-- `AddrIndex.insert_many(...).on_conflict_ignore()`, for one transaction
unfoldable pub put_addrs : List Text → Text → ℤ → Table (Text × Text) ℤ → Table (Text × Text) ℤ
put_addrs [] h height rows = rows
put_addrs (a ∷ addrs) h height rows = put_addrs addrs h height (put_new (a, h) height rows)

unfoldable pub put_index : List (Text × List Text) → ℤ → Database → Database
put_index [] height db = db
put_index (row ∷ rows) height db = put_index rows height (record db {
  tx_index = put_new row.0 height db.tx_index;
  addr_index = put_addrs row.1 row.0 height db.addr_index;
})

unfoldable pub index_block : Env → Block → Database → Result Database
index_block env blk db = do
  txs ← need_or [] blk.transactions
  rows ← index_entries env txs
  ok (put_index rows blk.height db)

-- `Block.insert(...).on_conflict_replace()`
unfoldable pub put_block : Json → Block → Database → Database
put_block json blk db = record db { blocks = put blk.height (blk.hash, json.dumps blk) db.blocks }

-- A transaction that raises leaves the database as it was.
unfoldable pub save_block : Env → Json → Block → Database → Result Database
save_block env json blk db = index_block env blk (put_block json blk db)

unfoldable pub get_tx_height : Text → Database → Option ℤ
get_tx_height h db = find h db.tx_index

module _ {A : Type 0} where
  unfoldable pub reverse_rows : List A → List A → List A
  reverse_rows [] done = done
  reverse_rows (row ∷ rows) done = reverse_rows rows (row ∷ done)

-- Rows with the larger key first.
abbrev pub descending : {V : Type 0} → Table ℤ V → Table ℤ V
descending rows = reverse_rows (in_order rows) []

unfoldable pub heights_of : Text → Table (Text × Text) ℤ → Table ℤ Text
heights_of addr [] = []
heights_of addr (e ∷ rows) =
    if text_eq e.0.0 addr then (e.1, e.0.1) ∷ heights_of addr rows else heights_of addr rows

unfoldable pub get_tx_heights_for_addr : Text → Database → Table ℤ Text
get_tx_heights_for_addr addr db = descending (heights_of addr db.addr_index)

module _ (json : Json) where
  -- `json.loads(row.data)`
  unfoldable pub load_row : Text × Text → Result Block
  load_row row = elim (json.loads row.1) [ none ↦ raise value_error | some blk ↦ ok blk ]

  -- `load_block`; no row is `none`
  unfoldable pub load_block : ℤ → Database → Result (Option Block)
  load_block height db = elim (find height db.blocks) [
    | none ↦ ok none
    | some row ↦ do blk ← load_row row; ok (some blk)
  ]

  unfoldable pub load_rows : Table ℤ (Text × Text) → Result (List Block)
  load_rows [] = ok []
  load_rows (row ∷ rows) = do blk ← load_row row.1; blks ← load_rows rows; ok (blk ∷ blks)

  unfoldable pub load_all_blocks : Database → Result (List Block)
  load_all_blocks db = load_rows (in_order db.blocks)

unfoldable pub chain_height : Database → ℤ
chain_height db = elim (descending db.blocks) [ [] ↦ negsuc 0 | row ∷ rows ↦ row.0 ]

-- `balances.keys() | nonces.keys()`
unfoldable pub all_keys : Dict ℤ → List Text → List Text
all_keys [] set = set
all_keys (e ∷ d) set = all_keys d (add_member e.0 set)

abbrev pub state_row : State → Text → Text × (ℤ × ℤ)
state_row s addr = (addr, (get_or addr (pos 0) s.balances, get_or addr (pos 0) s.nonces))

abbrev pub total_key : Text
total_key = codes "total_minted"

unfoldable pub save_state_inner : State → Database → Database
save_state_inner s db = record db {
  states = map (state_row s) (all_keys s.nonces (all_keys s.balances []));
  emission = put total_key s.total_minted db.emission;
}

unfoldable pub save_state : State → Database → Database
save_state s db = save_state_inner s db

abbrev pub total_of : Option ℤ → ℤ
total_of none = pos 0
total_of (some total) = total

unfoldable pub load_state : Database → State
load_state db = record {
  balances = map (λ row. (row.0, row.1.0)) db.states;
  nonces = map (λ row. (row.0, row.1.1)) db.states;
  total_minted = total_of (find total_key db.emission);
}

unfoldable pub state_exists : Database → Bool
state_exists db = elim db.states [ [] ↦ false | row ∷ rows ↦ true ]

unfoldable pub save_block_and_state : Env → Json → Block → State → Database → Result Database
save_block_and_state env json blk s db = do
  indexed ← index_block env blk (put_block json blk db)
  ok (save_state_inner s indexed)

-- The rows of a table that stand below a height, and its `insert_many`.
unfoldable pub delete_from : ℤ → Database → Database
delete_from fork_point db = record db {
  blocks = keep (λ row. ltb_ℤ row.0 fork_point) db.blocks;
  tx_index = keep (λ row. ltb_ℤ row.1 fork_point) db.tx_index;
  addr_index = keep (λ row. ltb_ℤ row.1 fork_point) db.addr_index;
}

unfoldable pub put_blocks : Json → List Block → Database → Database
put_blocks json [] db = db
put_blocks json (blk ∷ blks) db = put_blocks json blks (put_block json blk db)

unfoldable pub index_blocks : Env → List Block → Database → Result Database
index_blocks env [] db = ok db
index_blocks env (blk ∷ blks) db = do
  indexed ← index_block env blk db
  index_blocks env blks indexed

-- `Block.insert_many([...]).on_conflict_replace()`
unfoldable pub insert_blocks : Json → List Block → Database → Result Database
insert_blocks json [] db = do done ← json.insert_none; ok db
insert_blocks json (blk ∷ blks) db = ok (put_blocks json (blk ∷ blks) db)

unfoldable pub replace_chain_and_state :
    Env → Json → ℤ → List Block → State → Database → Result Database
replace_chain_and_state env json fork_point blocks s db = do
  inserted ← insert_blocks json blocks (delete_from fork_point db)
  indexed ← index_blocks env blocks inserted
  ok (save_state_inner s indexed)

unfoldable pub get_meta : Text → Option Text → Database → Option Text
get_meta key default db = elim (find key db.metas) [ none ↦ default | some value ↦ some value ]

unfoldable pub set_meta : Text → Text → Database → Database
set_meta key value db = record db { metas = put key value db.metas }
