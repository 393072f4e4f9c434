-- ===== src/Node/Startup.antt =====
-- src/node.py: what a node loads when it starts, and that it finds there what it had stored.
use echocoin_core.Prelude.{
  ℕ, ◌+◌, List, [], ◌∷◌, Text, codes, if◌then◌else◌, Result, ok, raise, attribute_error, ◌>>=◌,
}
use echocoin_core.Dict.{contains, set}
use echocoin_core.Wire.{need_or, Entry, tx_entry, not_dict, Block}
use echocoin_core.Env.{Env}
use echocoin_core.Tx.{tx_size}
use echocoin_core.ChainState.{ChainState, from_chain, from_genesis, from_storage}
use echocoin_core.Storage.{Database, Json, load_all_blocks, load_state, state_exists, save_block}

module _ (env : Env) (number : ℕ → Text) where
  -- `sum(tx_size(t) for t in ...)`
  unfoldable pub sizes : List Entry → Result ℕ
  sizes [] = ok 0
  sizes (tx_entry t ∷ rest) = do n ← sizes rest; ok (tx_size env t + n)
  sizes (not_dict ∷ rest) = raise attribute_error

  -- A block of an older database gets its "tx_bytes"; `number` is the JSON text of a number.
  unfoldable pub backfill : Block → Result Block
  backfill blk = if contains (codes "tx_bytes") blk.extra then ok blk else (do
    txs ← need_or [] blk.transactions
    n ← sizes txs
    ok (record blk {
      body = record blk.body { extra = set (codes "tx_bytes") (number n) blk.extra };
    }))

  unfoldable pub backfill_all : List Block → Result (List Block)
  backfill_all [] = ok []
  backfill_all (blk ∷ blks) = do b ← backfill blk; bs ← backfill_all blks; ok (b ∷ bs)

  unfoldable pub first_start : Json → Text → Database → Result (ChainState × Database)
  first_start json message db = elim (from_genesis env message).chain [
    | [] ↦ ok (from_genesis env message, db)
    | genesis ∷ rest ↦ do
      saved ← save_block env json genesis db
      ok (from_genesis env message, saved)
  ]

  -- The chain state with the database, which a first start writes to.
  unfoldable pub load_cs : Json → Text → Database → Result (ChainState × Database)
  load_cs json message db = do
    stored ← load_all_blocks json db
    (elim stored [
      | [] ↦ first_start json message db
      | blk ∷ blks ↦ do
        chain ← backfill_all (blk ∷ blks)
        cs ← (if state_exists db then from_storage chain (load_state db) else from_chain chain)
        ok (cs, db)
    ])
