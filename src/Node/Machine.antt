-- ===== src/Node/Machine.antt =====
-- src/node.py: the node's own state, its queue handlers, the commit of a block and the adoption of a
-- better chain. A handler returns the state with its outcome, also where an exception leaves it.
use echocoin_core.Prelude.{
  member, ℕ, Bool, Option, none, some, List, [], ◌∷◌, ◌++◌, map, ℤ, pos, ◌*◌, ◌-ℤ◌, ltb_ℤ, Text,
  if◌then◌else◌, drop, Reason, Result, Check, ok, reject, raise, attribute_error, ◌>>=◌,
}
use echocoin_core.Dict.{Dict, get, set, pop}
use echocoin_core.Wire.{given, absent, other, need_or, Tx, Entry, tx_entry, not_dict, Time, Block}
use echocoin_core.Env.{Env}
use echocoin_core.State.{State}
use echocoin_core.Tx.{tx_hash, validate}
use echocoin_core.ChainState.{ChainState, apply_block}
use echocoin_core.Mempool.{
  Mempool, Added, added, duplicate, full, add, remove_many, probe_state_for,
}
use echocoin_core.Gossip.{Lru, Gossip, Draw, flood_tx, relay_tx, dandelion_send, broadcast_block}
use echocoin_core.Storage.{Database, Json, save_block_and_state, replace_chain_and_state}
use echocoin_core.Node.{refused, accepted, evaluate_remote_chain}

pub record NodeState (C : Type 0) : Type 0 where
  pub cs : ChainState
  pub mempool : Mempool
  pub db : Database
  pub gossip : Gossip C
  pub local_pending : Dict ℤ

-- `(True, h)` and `(False, err)` of `submit_tx`
pub data Reply : Type 0 where
  accepted_tx : Text → Reply
  rejected_tx : Reason → Reply
  not_added : Added → Reply

-- Seconds of a monotonic clock, in its units.
abbrev pub relay_retry_seconds : ℤ
relay_retry_seconds = pos (180 * 4194304)

-- `{tx_hash(t) for t in entries}`, added to a list of hashes
unfoldable pub entry_hashes : Env → List Entry → Result (List Text)
entry_hashes env [] = ok []
entry_hashes env (tx_entry t ∷ rest) = do hs ← entry_hashes env rest; ok (tx_hash env t ∷ hs)
entry_hashes env (not_dict ∷ rest) = raise attribute_error

unfoldable pub entries_of : List Block → Result (List Entry)
entries_of [] = ok []
entries_of (blk ∷ blks) = do
  txs ← need_or [] blk.transactions
  rest ← entries_of blks
  ok (txs ++ rest)

unfoldable pub hashes_of : Env → List Block → Result (List Text)
hashes_of env blks = do entries ← entries_of blks; entry_hashes env entries

module _ {C : Type 0} (lru : Lru C) (env : Env) where
  unfoldable pub probe_for : Tx → NodeState C → Result State
  probe_for t node = elim t.from [
    | given sender ↦ probe_state_for sender node.cs.state node.mempool
    | absent ↦ ok node.cs.state
    | other ↦ ok node.cs.state
  ]

  unfoldable pub validate_for_mempool : Tx → NodeState C → Check
  validate_for_mempool t node = do probe ← probe_for t node; validate env t probe

  -- The rest of `submit_tx`, behind `self.mempool.add`.
  unfoldable pub after_add :
      ℤ → Draw → Tx → NodeState C → Mempool × Added → NodeState C × Result Reply
  after_add now draw t node (m, added h) = (
    record node {
      mempool = m;
      gossip = relay_tx lru env draw t node.gossip;
      local_pending = set h now node.local_pending;
    },
    ok (accepted_tx h),
  )
  after_add now draw t node (m, duplicate) = (record node { mempool = m }, ok (not_added duplicate))
  after_add now draw t node (m, full) = (record node { mempool = m }, ok (not_added full))

  unfoldable pub submit_tx : ℤ → Draw → Tx → NodeState C → NodeState C × Result Reply
  submit_tx now draw t node = elim (validate_for_mempool t node) [
    | ok u ↦ after_add now draw t node (add env now t node.mempool)
    | reject e ↦ (node, ok (rejected_tx e))
    | raise x ↦ (node, raise x)
  ]

  -- `added, h = self.mempool.add(t)`, and the flood if it was added
  unfoldable pub add_and_flood : ℤ → Draw → Tx → NodeState C → NodeState C
  add_and_flood now draw t node =
      let (m, outcome) = add env now t node.mempool in
      elim outcome [
        | added h ↦ record node {
          mempool = m;
          gossip = dandelion_send lru env draw t (pos 0) node.gossip;
        }
        | duplicate ↦ record node { mempool = m }
        | full ↦ record node { mempool = m }
      ]

  -- The fluff part of `_handle_inbound_tx`.
  unfoldable pub admit_inbound : ℤ → Draw → Tx → NodeState C → NodeState C × Check
  admit_inbound now draw t node = elim (validate_for_mempool t node) [
    | ok u ↦ (add_and_flood now draw t node, ok tt)
    | reject e ↦ (node, ok tt)
    | raise x ↦ (node, raise x)
  ]

  -- `_handle_inbound_tx`; the flag is `msg.get("relay_type") == "tx_stem"`.
  unfoldable pub handle_inbound_tx : ℤ → Draw → Tx → Bool → ℤ → NodeState C → NodeState C × Check
  handle_inbound_tx now draw t is_stem remaining node =
      if is_stem
      then (if ltb_ℤ (pos 0) remaining
          then (record node { gossip = dandelion_send lru env draw t remaining node.gossip }, ok tt)
          else admit_inbound now draw t node)
      else admit_inbound now draw t node

  -- One round of `_retry_stuck_local_txs`.
  unfoldable pub retry_one : ℤ → Text → NodeState C → NodeState C
  retry_one now h node = elim (get h node.mempool.pool) [
    | none ↦ record node { local_pending = pop h node.local_pending }
    | some p ↦ elim (get h node.local_pending) [
      | none ↦ node
      | some since ↦ if ltb_ℤ (now -ℤ since) relay_retry_seconds then node else record node {
        gossip = record node.gossip { sent = flood_tx p.tx ∷ node.gossip.sent };
        local_pending = set h now node.local_pending;
      }
    ]
  ]

  unfoldable pub retry_all : ℤ → List Text → NodeState C → NodeState C
  retry_all now [] node = node
  retry_all now (h ∷ hs) node = retry_all now hs (retry_one now h node)

  unfoldable pub retry_stuck_local_txs : ℤ → NodeState C → NodeState C
  retry_stuck_local_txs now node = retry_all now (map (λ e. e.0) node.local_pending) node

  -- `_readd_valid_txs`; an exception leaves what was added before it.
  unfoldable pub readd_valid_txs :
      ℤ → Draw → List Entry → List Text → State → NodeState C → NodeState C × Check
  readd_valid_txs now draw [] exclude s node = (node, ok tt)
  readd_valid_txs now draw (not_dict ∷ rest) exclude s node = (node, raise attribute_error)
  readd_valid_txs now draw (tx_entry t ∷ rest) exclude s node =
      if member (tx_hash env t) exclude
      then readd_valid_txs now draw rest exclude s node
      else (elim (validate env t s) [
        | ok u ↦ readd_valid_txs now draw rest exclude s (add_and_flood now draw t node)
        | reject e ↦ readd_valid_txs now draw rest exclude s node
        | raise x ↦ (node, raise x)
      ])

  -- A value that is needed before the state changes.
  abbrev pub with_value :
      {A : Type 0} → Result A → NodeState C → (A → NodeState C × Check) → NodeState C × Check
  with_value (ok a) node next = next a
  with_value (reject e) node next = (node, reject e)
  with_value (raise x) node next = (node, raise x)

  unfoldable pub salvage_fork_txs : ℤ → Draw → ℕ → List Block → NodeState C → NodeState C × Check
  salvage_fork_txs now draw fork tail node =
      with_value (hashes_of env (drop fork node.cs.chain)) node (λ confirmed.
        with_value (entries_of tail) node
          (λ txs. readd_valid_txs now draw txs confirmed node.cs.state node))

  unfoldable pub reorg_mempool :
      ℤ → Draw → ℕ → List Block → List Block → State → NodeState C → NodeState C × Check
  reorg_mempool now draw fork old_chain new_chain s node =
      with_value (entries_of (drop fork old_chain)) node (λ old_txs.
        with_value (hashes_of env (drop fork new_chain)) node (λ confirmed.
          readd_valid_txs now draw old_txs confirmed s
            (record node { mempool = remove_many env confirmed node.mempool })))

  -- What `apply_better_chain` returns: (True, None), or (False, err).
  unfoldable pub adopt :
      ℤ → Draw → Json → ℕ → List Block → List Block → ChainState → NodeState C → NodeState C × Check
  adopt now draw json fork tail remote remote_cs node =
      with_value (replace_chain_and_state env json (pos fork) tail remote_cs.state node.db) node
        (λ db. (
          (reorg_mempool now draw fork node.cs.chain remote remote_cs.state
              (record node { cs = remote_cs; db = db })).0,
          ok tt,
        ))

  unfoldable pub refuse :
      ℤ → Draw → Option (ℕ × List Block) → Reason → NodeState C → NodeState C × Check
  refuse now draw none e node = (node, reject e)
  refuse now draw (some (fork, [])) e node = (node, reject e)
  refuse now draw (some (fork, b ∷ tail)) e node =
      let salvaged = salvage_fork_txs now draw fork (b ∷ tail) node in
      (salvaged.0, elim salvaged.1 [ ok u ↦ reject e | reject r ↦ reject r | raise x ↦ raise x ])

  unfoldable pub apply_better_chain :
      ℤ → Draw → Json → (Block → Time) → Text → List Block → NodeState C → NodeState C × Check
  apply_better_chain now draw json clock message remote node =
      elim (evaluate_remote_chain env clock message node.cs remote) [
        | ok (refused at_fork e) ↦ refuse now draw at_fork e node
        | ok (accepted fork tail remote_cs) ↦ adopt now draw json fork tail remote remote_cs node
        | reject e ↦ (node, reject e)
        | raise x ↦ (node, raise x)
      ]

  -- The end of `_commit`, with what is stored.
  unfoldable pub committed :
      Block → Bool → List Text → ChainState → Database → NodeState C → NodeState C
  committed blk relay confirmed cs db node = record node {
    cs = cs;
    db = db;
    mempool = remove_many env confirmed node.mempool;
    gossip = if relay then broadcast_block lru blk node.gossip else node.gossip;
  }

  -- `_commit`: where storage raises, the node already has the new chain.
  unfoldable pub commit : Json → Block → Bool → NodeState C → NodeState C × Check
  commit json blk relay node = with_value (hashes_of env (blk ∷ [])) node (λ confirmed.
      with_value (apply_block node.cs blk) node (λ cs.
        with_value (save_block_and_state env json blk cs.state node.db) (record node { cs = cs })
          (λ db. (committed blk relay confirmed cs db node, ok tt))))
