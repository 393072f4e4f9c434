-- ===== src/Node/Restart.antt =====
-- src/node.py and src/storage.py: what a node that committed a block finds when it starts again.
use echocoin_core.Prelude.{
  add_member, ℕ, ◌≡◌, ◌∙◌, sym, ap, refl, Bool, true, List, [], ◌∷◌, ◌++◌, ℤ, pos, ◌+ℤ◌, Text,
  codes, length, ok, append-nil, ok_injective, >>=-eq-ok, Bool-cases, inl, inr,
}
use echocoin_core.Dict.{contains}
use echocoin_core.Wire.{need, need_or, need-eq-ok, Output, Tx, Entry, tx_entry, not_dict, Block}
use echocoin_core.Env.{Env}
use echocoin_core.State.{
  State, to_of, amount_of, apply_tx, credit, credit_outputs, total_out, debit,
}
use echocoin_core.ChainState.{
  ChainState, replay_entries, apply_block, apply_block_with_state, cumulative, from_storage,
  reward_if_builder,
}
use echocoin_core.Tx.{tx_hash}
use echocoin_core.Gossip.{Lru}
use echocoin_core.Storage.{
  Database, Json, add_recipients, index_entry, index_entries, load_all_blocks, load_state,
  state_exists, save_block_and_state,
}
use echocoin_core.Storage.Chain.{HasIndex, IsReadable, IsStored, IsSaved, load_all_blocks-save}
use echocoin_core.Storage.Snapshot.{IsSameState, load_state-save_state, state_exists-save_state}
use echocoin_core.Node.Machine.{NodeState, entry_hashes, entries_of, hashes_of, committed, commit}
use echocoin_core.Node.Startup.{sizes, backfill, backfill_all, load_cs}

credit_outputs-recipients :
    (outs : List Output) (s s' : State) (set : List Text)
    → credit_outputs outs s ≡ ok s'
    → (addrs : List Text) × (add_recipients outs set ≡ ok addrs)
unfolding credit_outputs add_recipients
credit_outputs-recipients [] s s' set h = (set, refl)
credit_outputs-recipients (out ∷ outs) s s' set h =
    let (to, e, h1) = >>=-eq-ok (to_of out) _ h in
    let (amount, f, h2) = >>=-eq-ok (amount_of out) _ h1 in
    let (paid, g, h3) = >>=-eq-ok (credit to amount s) _ h2 in
    let (addrs, i) = credit_outputs-recipients outs paid s' (add_member to set) h3 in
    let run : add_recipients (out ∷ outs) set ≡ ok addrs = rw (add_recipients, e) i in (addrs, run)

module _ (env : Env) where
  index_entry_lem :
      (t : Tx) (sender : Text) (outs : List Output) (addrs : List Text)
      → need t.from ≡ ok sender
      → need_or [] t.outputs ≡ ok outs
      → add_recipients outs (sender ∷ []) ≡ ok addrs
      → index_entry env (tx_entry t) ≡ ok (tx_hash env t, addrs)
  unfolding index_entry
  index_entry_lem t sender outs addrs e f g = rw (e, f, g) refl

  apply_tx-index :
      (t : Tx) (s s' : State)
      → apply_tx t s ≡ ok s'
      → (row : Text × List Text) × (index_entry env (tx_entry t) ≡ ok row)
  unfolding apply_tx
  apply_tx-index t s s' h =
      let (sender, e, h1) = >>=-eq-ok (need t.from) _ h in
      let (outs, f, h2) = >>=-eq-ok (need t.outputs) _ h1 in
      let (total, g, h3) = >>=-eq-ok (total_out outs) _ h2 in
      let (fee, i, h4) = >>=-eq-ok (need t.fee) _ h3 in
      let (debited, j, h5) = >>=-eq-ok (debit sender (total +ℤ fee) s) _ h4 in
      let (credited, k, h6) = >>=-eq-ok (credit_outputs outs debited) _ h5 in
      let (addrs, l) = credit_outputs-recipients outs debited credited (sender ∷ []) k in
      let whole : need_or [] t.outputs ≡ ok outs = rw (need-eq-ok t.outputs f) refl in
      ((tx_hash env t, addrs), index_entry_lem t sender outs addrs e whole l)

  -- Transactions that can be replayed can be indexed and hashed.
  replay_entries-index :
      (txs : List Entry) (s s' : State)
      → replay_entries txs s ≡ ok s'
      → ((rows : List (Text × List Text)) × (index_entries env txs ≡ ok rows))
        × ((hs : List Text) × (entry_hashes env txs ≡ ok hs))
  unfolding replay_entries index_entries entry_hashes
  replay_entries-index [] s s' h = (([], refl), ([], refl))
  replay_entries-index (not_dict ∷ rest) s s' h = cc
  replay_entries-index (tx_entry t ∷ rest) s s' h =
      let (u, e, h1) = >>=-eq-ok (apply_tx t s) _ h in
      let (row, f) = apply_tx-index t s u e in
      let ((rows, g), (hs, i)) = replay_entries-index rest u s' h1 in
      ((row ∷ rows, rw (f, g) refl), (tx_hash env t ∷ hs, rw i refl))

  apply_block-index :
      (cs cs' : ChainState) (blk : Block)
      → apply_block cs blk ≡ ok cs'
      → HasIndex env blk
        × ((hs : List Text) × (hashes_of env (blk ∷ []) ≡ ok hs))
        × (cs'.chain ≡ cs.chain ++ blk ∷ [])
  unfolding apply_block apply_block_with_state hashes_of entries_of
  apply_block-index cs cs' blk h =
      let (txs, e, h1) = >>=-eq-ok (need_or [] blk.transactions) _ h in
      let (post_tx, f, h2) = >>=-eq-ok (replay_entries txs cs.state) _ h1 in
      let ((rows, g), (hs, i)) = replay_entries-index txs cs.state post_tx f in
      let (s, j, h3) = >>=-eq-ok (reward_if_builder blk post_tx) _ h2 in
      let (work, k, h4) = >>=-eq-ok (need_or (pos 0) blk.vdf_iterations) _ h3 in
      let whole : hashes_of env (blk ∷ []) ≡ ok hs =
        rw (hashes_of, entries_of, e, append-nil txs) i in
      ((txs, rows, e, g), (hs, whole), ap (λ c. c.chain) (sym (ok_injective h4)))

  -- What was filled in does not touch the heights and the iterations.
  backfill-kept :
      (number : ℕ → Text) (b b' : Block)
      → backfill env number b ≡ ok b'
      → (b'.height ≡ b.height) × (b'.vdf_iterations ≡ b.vdf_iterations)
  unfolding backfill
  backfill-kept number b b' h = elim (Bool-cases (contains (codes "tx_bytes") b.extra)) [
    | inl there ↦
        let same : b ≡ b' = ok_injective (rw there at h) in
        (ap (λ c. c.height) (sym same), ap (λ c. c.vdf_iterations) (sym same))
    | inr missing ↦
        let run = rw missing at h in
        let (txs, e, h1) = >>=-eq-ok (need_or [] b.transactions) _ run in
        let (n, f, h2) = >>=-eq-ok (sizes env number txs) _ h1 in
        let same = ok_injective h2 in
        (ap (λ c. c.height) (sym same), ap (λ c. c.vdf_iterations) (sym same))
  ]

  cumulative-backfill :
      (number : ℕ → Text) (chain filled : List Block)
      → backfill_all env number chain ≡ ok filled
      → cumulative filled ≡ cumulative chain
  unfolding backfill_all cumulative
  cumulative-backfill number [] filled h = rw (sym (ok_injective h)) refl
  cumulative-backfill number (b ∷ bs) filled h =
      let (b', e, h1) = >>=-eq-ok (backfill env number b) _ h in
      let (bs', f, h2) = >>=-eq-ok (backfill_all env number bs) _ h1 in
      let kept = backfill-kept number b b' e in
      rw (sym (ok_injective h2), kept.0, kept.1, cumulative-backfill number bs bs' f) refl

append_cons :
    (xs : List Block) (y : Block) → (b : Block) × (bs : List Block) × (xs ++ y ∷ [] ≡ b ∷ bs)
append_cons [] y = (y, [], refl)
append_cons (x ∷ xs) y = (x, xs ++ y ∷ [], refl)

-- What a start makes of a chain with its state.
abbrev pub IsRestarted : List Block → ChainState → ChainState → Type 0
IsRestarted filled cs restarted =
    (restarted.chain ≡ filled)
    × (restarted.cumulative_iterations ≡ cs.cumulative_iterations)
    × IsSameState restarted.state cs.state

module _ (env : Env) (number : ℕ → Text) (json : Json) (message : Text) where
  load_cs_lem :
      (b : Block) (bs filled : List Block) (work : ℤ) (db : Database)
      → load_all_blocks json db ≡ ok (b ∷ bs)
      → backfill_all env number (b ∷ bs) ≡ ok filled
      → state_exists db ≡ true
      → cumulative filled ≡ ok work
      → load_cs env number json message db
        ≡ ok (record { chain = filled; state = load_state db; cumulative_iterations = work }, db)
  unfolding load_cs from_storage
  load_cs_lem b bs filled work db e f g h = rw (e, f, g, h) refl

  -- A database that holds a chain and its state gives that chain state to a start.
  pub load_cs-saved :
      (cs : ChainState) (b : Block) (bs filled : List Block) (a : Text) (db : Database)
      → cs.chain ≡ b ∷ bs
      → load_all_blocks json db ≡ ok cs.chain
      → IsSaved cs.state db
      → backfill_all env number cs.chain ≡ ok filled
      → cumulative cs.chain ≡ ok cs.cumulative_iterations
      → contains a cs.state.balances ≡ true
      → (restarted : ChainState) × (load_cs env number json message db ≡ ok (restarted, db))
        × IsRestarted filled cs restarted
  load_cs-saved cs b bs filled a db shape e (before, saved) f w h =
      let there : state_exists db ≡ true = rw saved (state_exists-save_state cs.state before a h) in
      let work : cumulative filled ≡ ok cs.cumulative_iterations =
        cumulative-backfill env number cs.chain filled f ∙ w in
      let same : IsSameState (load_state db) cs.state =
        rw saved (load_state-save_state cs.state before) in
      (
        _,
        load_cs_lem b bs filled cs.cumulative_iterations db (e ∙ ap ok shape) (rw (sym shape) f)
            there work,
        (refl, refl, same),
      )

module _ {C : Type 0} (lru : Lru C) (env : Env) (number : ℕ → Text) (json : Json)
    (message : Text) where
  commit_lem :
      (blk : Block) (relay : Bool) (node : NodeState C) (hs : List Text) (cs : ChainState)
      (db : Database)
      → hashes_of env (blk ∷ []) ≡ ok hs
      → apply_block node.cs blk ≡ ok cs
      → save_block_and_state env json blk cs.state node.db ≡ ok db
      → commit lru env json blk relay node ≡ (committed lru env blk relay hs cs db node, ok tt)
  unfolding commit
  commit_lem blk relay node hs cs db e f g = rw (e, f, g) refl

  -- If the JSON texts of the blocks read back as those blocks, the node's chain is in the database, and a
  -- block of the next height can be applied, then committing it passes, the database then holds the
  -- longer chain, and a node that starts from it has that chain (with "tx_bytes" filled in), its
  -- work, and every balance and nonce; `cs.cumulative_iterations` is the work of the chain, the
  -- blocks can be filled in, and some address has a balance.
  pub load_cs-commit :
      (blk : Block) (relay : Bool) (node : NodeState C) (cs : ChainState) (filled : List Block)
      (a : Text)
      → apply_block node.cs blk ≡ ok cs
      → IsReadable json cs.chain
      → IsStored json node.cs.chain node.db
      → blk.height ≡ pos (length node.cs.chain)
      → backfill_all env number cs.chain ≡ ok filled
      → cumulative cs.chain ≡ ok cs.cumulative_iterations
      → contains a cs.state.balances ≡ true
      → (after : NodeState C) × (commit lru env json blk relay node ≡ (after, ok tt))
        × (after.cs ≡ cs)
        × IsStored json cs.chain after.db
        × ((restarted : ChainState) × (load_cs env number json message after.db
              ≡ ok (restarted, after.db))
            × IsRestarted filled cs restarted)
  unfolding committed
  load_cs-commit blk relay node cs filled a run back stored height fill work some_balance =
      let (index, (hs, hashes), grown) = apply_block-index env node.cs cs blk run in
      let (db, saved, kept, load, rows) =
        load_all_blocks-save env json node.cs.chain blk cs.state node.db (rw (sym grown) back)
          stored height index in
      let (b, bs, shape) = append_cons node.cs.chain blk in
      (
        committed lru env blk relay hs cs db node,
        commit_lem blk relay node hs cs db hashes run saved,
        refl,
        rw grown kept,
        load_cs-saved env number json message cs b bs filled a db (grown ∙ shape)
            (load ∙ ap ok (sym grown)) rows fill work some_balance,
      )
