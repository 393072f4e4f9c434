-- ===== src/Block/Assemble.antt =====
-- `create`, `assemble` and `block_time_stats` of src/block.py.
pub mod Packed
pub mod Ordered
pub mod Senders
use echocoin_core.Prelude.{
  ℕ, zero, suc, ◌+◌, ◌-◌, Bool, true, false, Option, none, some, List, [], ◌∷◌, ◌++◌, map, length,
  ℤ, pos, ◌+ℤ◌, Text, codes, ltb, if◌then◌else◌, Result, ok, ◌>>=◌,
}
use echocoin_core.Params.{block_size_limit, vdf_iterations_start}
use echocoin_core.Dict.{Dict, get_or, set}
use echocoin_core.Wire.{
  Field, given, absent, other, Tx, Entry, tx_entry, Time, time_sub, Body, Block,
}
use echocoin_core.Env.{Env}
use echocoin_core.Tx.{tx_size_in_block}
use echocoin_core.Block.{timestamp_at, deltas, block_hash, block_size}
use echocoin_core.Mempool.{sort_by, nonce_less, rate_less}

abbrev pub block_time_median_window : ℕ
block_time_median_window = 30

-- "own", "median" and "diff"
pub record TimeStats : Type 0 where
  pub own : Time
  pub median : Time
  pub diff : Time

unfoldable pub block_time_stats : (List Time → Time) → List Block → ℕ → Result (Option TimeStats)
block_time_stats median chain zero = ok none
block_time_stats median chain (suc h) = do
  this ← timestamp_at chain (suc h)
  parent ← timestamp_at chain h
  let lo = if ltb block_time_median_window (suc h) then suc h - block_time_median_window + 1 else 1
  window ← deltas chain lo (suc h + 1 - lo)
  ok (
      some (record {
        own = time_sub this parent;
        median = median window;
        diff = time_sub (time_sub this parent) (median window);
      }))

-- `create` without its hash; what is None is no `str`.
unfoldable pub create_body : ℤ → Text → List Entry → Text → Time → ℤ → Body
create_body height previous_hash transactions builder timestamp iterations = record {
  height = height;
  previous_hash = previous_hash;
  timestamp = given timestamp;
  transactions = given transactions;
  builder = given builder;
  vdf_output = other;
  vdf_proof = other;
  vdf_iterations = given iterations;
  extra = [];
}

unfoldable pub create : Env → ℤ → Text → List Entry → Text → Time → ℤ → Block
create env height previous_hash transactions builder timestamp iterations =
    let body = create_body height previous_hash transactions builder timestamp iterations in
    record { body = body; hash = block_hash env body }

-- `t.get("from")`: every transaction of the mempool has one.
abbrev pub sender_of : Tx → Text
sender_of t = elim t.from [ given sender ↦ sender | absent ↦ [] | other ↦ [] ]

-- `by_sender`
unfoldable pub group_by_sender : List Tx → Dict (List Tx) → Dict (List Tx)
group_by_sender [] groups = groups
group_by_sender (t ∷ ts) groups =
    group_by_sender ts (set (sender_of t) (get_or (sender_of t) [] groups ++ t ∷ []) groups)

-- A group comes first if its first transaction has the larger fee rate.
unfoldable pub pays_more : Env → List Tx → List Tx → Bool
pays_more env (t ∷ ts) (u ∷ us) = rate_less env u t
pays_more env [] us = false
pays_more env (t ∷ ts) [] = false

-- The groups in nonce order, those that pay more first.
unfoldable pub groups_of : Env → List Tx → List (List Tx)
groups_of env txs =
    sort_by (pays_more env) (map (λ e. sort_by nonce_less e.1) (group_by_sender txs []))

-- The state of the loops: what is packed, its size with the block's, the checks of the clock made.
pub record Packing : Type 0 where
  pub valid_txs : List Tx
  pub running : ℕ
  pub checks : ℕ
  pub hit_deadline : Bool

module _ (env : Env) (late : ℕ → Bool) where
  -- `tx_size_in_block(t, position=len(valid_txs))`
  abbrev pub t_size : Tx → Packing → ℕ
  t_size t p = tx_size_in_block env t (length p.valid_txs)

  abbrev pub packed_with : Tx → Packing → Packing
  packed_with t p = record {
    valid_txs = p.valid_txs ++ t ∷ [];
    running = p.running + t_size t p;
    checks = suc p.checks;
    hit_deadline = p.hit_deadline;
  }

  -- `late n` is the n-th `deadline is not None and time.time() >= deadline`.
  unfoldable pub pack_group : List Tx → Packing → Packing
  pack_group [] p = p
  pack_group (t ∷ ts) p =
      let rest = pack_group ts (packed_with t p) in
      if late p.checks
      then record p { checks = suc p.checks; hit_deadline = true }
      else if ltb block_size_limit (p.running + t_size t p)
      then record p { checks = suc p.checks }
      else rest

  unfoldable pub pack_groups : List (List Tx) → Packing → Packing
  pack_groups [] p = p
  pack_groups (g ∷ gs) p =
      let rest = pack_groups gs (pack_group g p) in if p.hit_deadline then p else rest

-- The skeleton of the block, with its transactions and "tx_bytes" but without a hash; `number` is
-- the JSON text of a number.
module _ (env : Env) (number : ℕ → Text) (late : ℕ → Bool) (now : Time) where
  abbrev pub skeleton : Block → Text → ℤ → Block
  skeleton tip builder iterations =
      create env (tip.height +ℤ pos 1) tip.hash [] builder now iterations

  abbrev pub unpacked : Block → Text → ℤ → Packing
  unpacked tip builder iterations = record {
    valid_txs = [];
    running = block_size env (skeleton tip builder iterations);
    checks = 0;
    hit_deadline = false;
  }

  unfoldable pub packing : Block → List Tx → Text → ℤ → Packing
  packing tip txs builder iterations =
      pack_groups env late (groups_of env txs) (unpacked tip builder iterations)

  unfoldable pub assemble : Block → List Tx → Text → ℤ → Body
  assemble tip txs builder iterations =
      let p = packing tip txs builder iterations in
      let empty = skeleton tip builder iterations in
      record empty.body {
        transactions = given (map tx_entry p.valid_txs);
        extra = (codes "tx_bytes", number (p.running - block_size env empty)) ∷ [];
      }
