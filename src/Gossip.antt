-- ===== src/Gossip.antt =====
-- src/gossip.py: the Dandelion relay of transactions. What is sent is a log, the latest first.
use echocoin_core.Prelude.{
  ℕ, Bool, true, false, Option, none, some, List, [], ◌∷◌, ℤ, pos, ◌-ℤ◌, ltb_ℤ, ltb, Text,
  if◌then◌else◌,
}
use echocoin_core.Wire.{Tx, Block}
use echocoin_core.Env.{Env}
use echocoin_core.Tx.{tx_hash}

abbrev pub min_peers_for_stem : ℕ
min_peers_for_stem = 8

-- cachetools.LRUCache: `h in cache` and `cache[h] = True`, which may evict other keys.
pub record Lru (C : Type 0) : Type 0 where
  pub has : Text → C → Bool
  pub note : Text → C → C

-- A call of the transport: `send_tx` to one peer with hops left, or to all; `send_block`.
pub data Sent : Type 0 where
  stem_tx : Text → Tx → ℤ → Sent
  flood_tx : Tx → Sent
  flood_block : Block → Sent

pub record Gossip (C : Type 0) : Type 0 where
  pub seen : C
  pub sent : List Sent

-- What a step reads of the outside: `pool.count()`, `pool.random()` and the `random.randint`.
pub record Draw : Type 0 where
  pub count : ℕ
  pub peer : Option Text
  pub hops : ℤ

module _ {C : Type 0} (lru : Lru C) where
  unfoldable pub mark_seen : Text → Gossip C → Gossip C × Bool
  mark_seen h g =
      if lru.has h g.seen then (g, true) else (record g { seen = lru.note h g.seen }, false)

  unfoldable pub broadcast_block : Block → Gossip C → Gossip C
  broadcast_block blk g = record g { sent = flood_block blk ∷ g.sent }

  -- The fluff phase: to all peers, once for each hash that the cache remembers.
  unfoldable pub fluff : Env → Tx → Gossip C → Gossip C
  fluff env t g =
      if lru.has (tx_hash env t) g.seen
      then g
      else record { seen = lru.note (tx_hash env t) g.seen; sent = flood_tx t ∷ g.sent }

  -- `if peer:`; an empty address counts as none.
  unfoldable pub stem : Env → Tx → Option Text → ℤ → Gossip C → Gossip C
  stem env t none hops g = fluff env t g
  stem env t (some []) hops g = fluff env t g
  stem env t (some (c ∷ cs)) hops g = record g {
    sent = stem_tx (c ∷ cs) t (hops -ℤ pos 1) ∷ g.sent;
  }

  unfoldable pub dandelion_send : Env → Draw → Tx → ℤ → Gossip C → Gossip C
  dandelion_send env draw t remaining_hops g =
      if ltb_ℤ (pos 0) remaining_hops then stem env t draw.peer remaining_hops g else fluff env t g

  unfoldable pub relay_tx : Env → Draw → Tx → Gossip C → Gossip C
  relay_tx env draw t g =
      if ltb draw.count min_peers_for_stem
      then dandelion_send env draw t (pos 0) g
      else dandelion_send env draw t draw.hops g
