-- ===== src/Node/Switch.antt =====
-- src/node.py and src/storage.py: what a node that adopted another chain finds when it starts again.
use echocoin_core.Prelude.{
  ℕ, ◌≡◌, ◌∙◌, sym, ap, refl, true, List, [], ◌∷◌, ◌++◌, ℤ, pos, Text, length, take, drop, All, ◌≤◌,
  Result, Check, ok, reject, raise, Bool-cases, Result-cases, ◌⊎◌, inl, inr, member,
}
use echocoin_core.Dict.{contains}
use echocoin_core.Wire.{Time, Tx, Entry, tx_entry, not_dict, Block}
use echocoin_core.Env.{Env}
use echocoin_core.State.{State}
use echocoin_core.Tx.{tx_hash, validate}
use echocoin_core.ChainState.{ChainState, cumulative}
use echocoin_core.Mempool.{add, Added, added, duplicate, full, remove_many}
use echocoin_core.Gossip.{Lru, Draw}
use echocoin_core.Storage.{Database, Json, replace_chain_and_state}
use echocoin_core.Storage.Chain.{
  HasHeights, HasIndex, IsReadable, IsStored, load_all_blocks-replace,
}
use echocoin_core.Node.{accepted, evaluate_remote_chain}
use echocoin_core.Node.Machine.{
  NodeState, entries_of, hashes_of, with_value, add_and_flood, readd_valid_txs, reorg_mempool,
  adopt, apply_better_chain,
}
use echocoin_core.Node.Startup.{backfill_all, load_cs}
use echocoin_core.Node.Restart.{IsRestarted, load_cs-saved}

-- The chain and the database are as they were.
abbrev IsKept : {C : Type 0} → NodeState C → NodeState C → Type 0
IsKept before after = (after.cs ≡ before.cs) × (after.db ≡ before.db)

Added-cases : (o : Added) → ((h : Text) × (o ≡ added h)) ⊎ (o ≡ duplicate) ⊎ (o ≡ full)
Added-cases (added h) = inl (h, refl)
Added-cases duplicate = inr (inl refl)
Added-cases full = inr (inr refl)

module _ {C : Type 0} (lru : Lru C) (env : Env) (now : ℤ) (draw : Draw) where
  add_and_flood-IsKept :
      (t : Tx) (node : NodeState C) → IsKept node (add_and_flood lru env now draw t node)
  unfolding add_and_flood
  add_and_flood-IsKept t node = elim (Added-cases (add env now t node.mempool).1) [
    | inl (h, pooled) ↦ rw (add_and_flood, pooled) (refl, refl)
    | inr (inl known) ↦ rw (add_and_flood, known) (refl, refl)
    | inr (inr crowded) ↦ rw (add_and_flood, crowded) (refl, refl)
  ]

  with_value-IsKept :
      {A : Type 0} (r : Result A) (node : NodeState C) (next : A → NodeState C × Check)
      → ((a : A) → IsKept node (next a).0)
      → IsKept node (with_value lru env r node next).0
  with_value-IsKept (ok a) node next h = h a
  with_value-IsKept (reject e) node next h = (refl, refl)
  with_value-IsKept (raise x) node next h = (refl, refl)

  readd_valid_txs-IsKept :
      (txs : List Entry) (exclude : List Text) (s : State) (node : NodeState C)
      → IsKept node (readd_valid_txs lru env now draw txs exclude s node).0
  unfolding readd_valid_txs
  readd_valid_txs-IsKept [] exclude s node = (refl, refl)
  readd_valid_txs-IsKept (not_dict ∷ rest) exclude s node = (refl, refl)
  readd_valid_txs-IsKept (tx_entry t ∷ rest) exclude s node =
      elim (Bool-cases (member (tx_hash env t) exclude)) [
        | inl known ↦ rw known (readd_valid_txs-IsKept rest exclude s node)
        | inr new ↦ elim (Result-cases (validate env t s)) [
          | inl (u, valid) ↦
              let one = add_and_flood-IsKept t node in
              let others =
                readd_valid_txs-IsKept rest exclude s (add_and_flood lru env now draw t node) in
              rw (new, readd_valid_txs, valid) (others.0 ∙ one.0, others.1 ∙ one.1)
          | inr (inl (e, refused)) ↦
              rw (new, readd_valid_txs, refused) (readd_valid_txs-IsKept rest exclude s node)
          | inr (inr (x, raised)) ↦ rw (new, readd_valid_txs, raised) (refl, refl)
        ]
      ]

  reorg_mempool-IsKept :
      (fork : ℕ) (old_chain new_chain : List Block) (s : State) (node : NodeState C)
      → IsKept node (reorg_mempool lru env now draw fork old_chain new_chain s node).0
  unfolding reorg_mempool
  reorg_mempool-IsKept fork old_chain new_chain s node =
      with_value-IsKept (entries_of (drop fork old_chain)) node _ (λ old_txs.
        with_value-IsKept (hashes_of env (drop fork new_chain)) node _ (λ confirmed.
          readd_valid_txs-IsKept old_txs confirmed s
            (record node { mempool = remove_many env confirmed node.mempool })))

append_cons :
    (xs : List Block) (y : Block) (ys : List Block)
    → (b : Block) × (bs : List Block) × (xs ++ y ∷ ys ≡ b ∷ bs)
append_cons [] y ys = (y, ys, refl)
append_cons (x ∷ xs) y ys = (x, xs ++ y ∷ ys, refl)

module _ {C : Type 0} (lru : Lru C) (env : Env) (number : ℕ → Text) (json : Json)
    (message : Text) where
  adopt_lem :
      (now : ℤ) (draw : Draw) (n : ℕ) (tail remote : List Block) (remote_cs : ChainState)
      (node : NodeState C) (db : Database)
      → replace_chain_and_state env json (pos n) tail remote_cs.state node.db ≡ ok db
      → adopt lru env now draw json n tail remote remote_cs node ≡ (
        (reorg_mempool lru env now draw n node.cs.chain remote remote_cs.state
            (record node { cs = remote_cs; db = db })).0,
        ok tt,
      )
  unfolding adopt
  adopt_lem now draw n tail remote remote_cs node db e = rw e refl

  apply_better_chain_lem :
      (now : ℤ) (draw : Draw) (clock : Block → Time) (remote tail : List Block) (n : ℕ)
      (remote_cs : ChainState) (node : NodeState C)
      → evaluate_remote_chain env clock message node.cs remote ≡ ok (accepted n tail remote_cs)
      → apply_better_chain lru env now draw json clock message remote node
        ≡ adopt lru env now draw json n tail remote remote_cs node
  unfolding apply_better_chain
  apply_better_chain_lem now draw clock remote tail n remote_cs node e =
      rw (apply_better_chain, e) refl

  -- If the node finds a remote chain better, which has one new block or more of consecutive heights
  -- behind the node's own blocks up to the fork point, and the node's chain is in the database, then
  -- adopting it passes, whatever becomes of the mempool: the node has the remote chain's state, the
  -- database holds the remote chain, and a node that starts from it has that chain (with "tx_bytes"
  -- filled in), its work, and every balance and nonce. The JSON texts of the blocks read back, the
  -- new transactions can be indexed, the blocks can be filled in, `remote_cs` has the chain and its
  -- work, and some address has a balance.
  pub load_cs-apply_better_chain :
      (now : ℤ) (draw : Draw) (clock : Block → Time) (remote : List Block) (n : ℕ) (first : Block)
      (more filled : List Block) (remote_cs : ChainState) (node : NodeState C) (a : Text)
      → evaluate_remote_chain env clock message node.cs remote
        ≡ ok (accepted n (first ∷ more) remote_cs)
      → remote_cs.chain ≡ take n node.cs.chain ++ first ∷ more
      → n ≤ length node.cs.chain
      → IsReadable json remote_cs.chain
      → IsStored json node.cs.chain node.db
      → HasHeights n (first ∷ more)
      → All (HasIndex env) (first ∷ more)
      → backfill_all env number remote_cs.chain ≡ ok filled
      → cumulative remote_cs.chain ≡ ok remote_cs.cumulative_iterations
      → contains a remote_cs.state.balances ≡ true
      → (after : NodeState C) × (apply_better_chain lru env now draw json clock message remote node
          ≡ (after, ok tt))
        × (after.cs ≡ remote_cs)
        × IsStored json remote_cs.chain after.db
        × ((restarted : ChainState) × (load_cs env number json message after.db
              ≡ ok (restarted, after.db))
            × IsRestarted filled remote_cs restarted)
  load_cs-apply_better_chain now draw clock remote n first more filled remote_cs node a found whole
        t back stored heights index fill work some_balance =
      let (db, replaced, kept, load, rows) =
        load_all_blocks-replace env json node.cs.chain n first more remote_cs.state node.db t
          (rw (sym whole) back) stored heights index in
      let (b, bs, shape) = append_cons (take n node.cs.chain) first more in
      let middle : NodeState C = record node { cs = remote_cs; db = db } in
      let same =
        reorg_mempool-IsKept lru env now draw n node.cs.chain remote remote_cs.state middle in
      let (restarted, start, matches) =
        load_cs-saved env number json message remote_cs b bs filled a db (whole ∙ shape)
          (load ∙ ap ok (sym whole)) rows fill work some_balance in
      let stored_after : IsStored json remote_cs.chain db = rw whole kept in
      (
        (reorg_mempool lru env now draw n node.cs.chain remote remote_cs.state middle).0,
        apply_better_chain_lem now draw clock remote (first ∷ more) n remote_cs node found
            ∙ adopt_lem now draw n (first ∷ more) remote remote_cs node db replaced,
        same.0,
        rw same.1 stored_after,
        (restarted, rw same.1 start, matches),
      )
