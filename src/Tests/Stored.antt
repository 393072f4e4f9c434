-- ===== src/Tests/Stored.antt =====
-- The theorems about the storage, the packing of a block and the payouts at concrete inputs.
use echocoin_core.Prelude.{
  take, keep, ◌/◌, sub_ℕ, negsuc, ◌≤ℤ◌, suc, ℕ, ◌==◌, if◌then◌else◌, ◌≡◌, refl, true, false, Option,
  some, none, List, [], ◌∷◌, ℤ, pos, pos_part, ◌+ℤ◌, Text, codes, ok, arith, text_eq,
}
use echocoin_core.Dict.{get_or, set, contains}
use echocoin_core.Wire.{given, Tx, Block, Time, seconds}
use echocoin_core.Table.{find}
use echocoin_core.State.{get_balance}
use echocoin_core.Block.{create_genesis, block_size}
use echocoin_core.Block.Assemble.{skeleton, packing}
use echocoin_core.Block.Assemble.Packed.{IsWithin}
use echocoin_core.Block.Assemble.Ordered.{is_theirs}
use echocoin_core.Mempool.Sorting.{IsAscending}
use echocoin_core.Block.Assemble.Senders.{packing_in_order}
use echocoin_core.Mempool.{sort_by, nonce_less}
use echocoin_core.ChainState.{ChainState, apply_block}
use echocoin_core.Tests.Cycle.{adopts, clock}
use echocoin_core.Gossip.{Draw, Lru}
use echocoin_core.Storage.{get_tx_height, Database, Json, insert_row, in_order, index_entries}
use echocoin_core.Storage.Chain.{IsStored}
use echocoin_core.Node.Switch.{load_cs-apply_better_chain}
use echocoin_core.Node.Machine.{apply_better_chain, NodeState, commit}
use echocoin_core.Node.Startup.{load_cs, backfill, backfill_all, sizes}
use echocoin_core.Node.Restart.{IsRestarted, load_cs-commit}
use echocoin_core.Rewarder.{
  is_confirmed, Budget, View, is_eligible, recent_block_win_counts, resolve_pending, run_once,
}
use echocoin_core.Rewarder.Conserved.{IsPayout, run_once-IsPayout}
use echocoin_core.Tests.Toy.{toy, alice, payment, message, genesis_state, block_one, chain_runs}
use echocoin_core.Tests.Chain.{one}

abbrev top : Block
top = create_genesis toy message

-- The JSON text of a block is its height.
abbrev loads : Text → Option Block
loads [] = none
loads (n ∷ rest) = if n == 0 then some top else some block_one

abbrev json : Json
json = record { dumps = λ b. pos_part b.height ∷ []; loads = loads; insert_none = ok tt }

abbrev stored_genesis : Database
stored_genesis = record {
  blocks = (pos 0, (top.hash, 0 ∷ [])) ∷ [];
  states = [];
  emission = [];
  metas = [];
  tx_index = [];
  addr_index = [];
}

abbrev lru : Lru (List Text)
lru = record { has = λ h seen. false; note = λ h seen. h ∷ seen }

abbrev node : NodeState (List Text)
node = record {
  cs = genesis_state;
  mempool = record { pool = []; total_bytes = pos 0 };
  db = stored_genesis;
  gossip = record { seen = []; sent = [] };
  local_pending = [];
}

abbrev draw : Draw
draw = record { count = 0; peer = none; hops = pos 2 }

abbrev number : ℕ → Text
number n = n ∷ []

abbrev with_bytes : Block → Block
with_bytes b = record b { body = record b.body { extra = set (codes "tx_bytes") (0 ∷ []) b.extra } }

load_cs-commit_example :
    (after : NodeState (List Text)) × (commit lru toy json block_one true node ≡ (after, ok tt))
    × (after.cs ≡ one)
    × IsStored json one.chain after.db
    × ((restarted : ChainState) × (load_cs toy number json message after.db
          ≡ ok (restarted, after.db))
        × IsRestarted (with_bytes top ∷ with_bytes block_one ∷ []) one restarted)
unfolding chain_runs apply_block in_order insert_row backfill backfill_all sizes
load_cs-commit_example =
    load_cs-commit lru toy number json message block_one true node one
      (with_bytes top ∷ with_bytes block_one ∷ []) alice refl (refl, (refl, tt)) (refl, (refl, tt))
      refl refl refl refl

load_cs-apply_better_chain_example :
    (after : NodeState (List Text)) × (apply_better_chain lru toy
        (pos 7)
        draw
        json
        clock
        message
        one.chain
        node
      ≡ (after, ok tt))
    × (after.cs ≡ one)
    × IsStored json one.chain after.db
    × ((restarted : ChainState) × (load_cs toy number json message after.db
          ≡ ok (restarted, after.db))
        × IsRestarted (with_bytes top ∷ with_bytes block_one ∷ []) one restarted)
unfolding chain_runs in_order insert_row index_entries backfill backfill_all sizes
load_cs-apply_better_chain_example =
    load_cs-apply_better_chain lru toy number json message (pos 7) draw clock one.chain 1 block_one
      [] (with_bytes top ∷ with_bytes block_one ∷ []) one node alice adopts refl (omega arith)
      (refl, (refl, tt)) (refl, (refl, tt)) (refl, tt) (([], [], refl, refl), tt) refl refl refl

abbrev packed_at : Time
packed_at = seconds 1787869500

-- Two transactions of one sender, the later one first.
abbrev in_pool : List Tx
in_pool = record payment { nonce = given (pos 2) } ∷ payment ∷ []

packing_in_order_example :
    IsWithin toy
      (block_size toy (skeleton toy number (λ n. false) packed_at block_one alice (pos 5)))
      (packing toy number (λ n. false) packed_at block_one in_pool alice (pos 5))
    × ((sender : Text)
        → IsAscending (sort_by nonce_less (keep (is_theirs sender) in_pool))
          × (n : ℕ) × (keep
                (is_theirs sender)
                (packing toy number
                  (λ n. false)
                  packed_at
                  block_one
                  in_pool
                  alice
                  (pos 5)).valid_txs
              ≡ take n (sort_by nonce_less (keep (is_theirs sender) in_pool))))
unfolding block_size
packing_in_order_example =
    packing_in_order toy (λ n. false) packed_at number block_one in_pool alice (pos 5) (omega arith)

-- The node's own wallet, and a peer's that was seen now and has won no block.
abbrev reward_addr : Text
reward_addr = codes "own"

abbrev view : View
view = record {
  reward_addr = reward_addr;
  state = record { balances = (reward_addr, pos 500) ∷ []; nonces = []; total_minted = pos 500 };
  chain = top ∷ [];
  mempool = record { pool = []; total_bytes = pos 0 };
  db = stored_genesis;
  peers =
      record {
        addr = codes "10.0.0.1:8334";
        last_seen = pos 0;
        is_active = true;
        info = record {
          height = given (pos 0);
          wallet = alice;
          inferred_wallet = [];
          version = [];
          http = none;
        };
        http_reachable = none;
      }
      ∷ [];
  wall = pos 0;
}

abbrev budget : Budget
budget = record { remaining_ticks = pos 1000; pending = some (codes "lost", pos 24) }

-- A cycle may spend half of what is left, as with a half-life of one hour: `int(n * 0.5)`, which
-- rounds towards zero.
abbrev half_of : ℤ → ℤ
half_of (pos n) = pos (n / 2)
half_of (negsuc n) = sub_ℕ 0 (suc n / 2)

half_of-le : (n : ℤ) → pos 0 ≤ℤ n → half_of n ≤ℤ n
half_of-le (pos n) h = omega arith
half_of-le (negsuc n) h = absurd (omega (arith, h))

run_once-IsPayout_example :
    IsPayout
      (is_eligible toy reward_addr
        (recent_block_win_counts 30 view.chain)
        view.state
        (resolve_pending view.mempool view.db budget).remaining_ticks)
      (resolve_pending view.mempool view.db budget).remaining_ticks
      (get_balance reward_addr view.state)
      (run_once toy 30 (λ outputs. some (codes "sent")) (λ other. other) half_of view budget)
unfolding resolve_pending is_confirmed get_tx_height ◌+ℤ◌ find get_balance get_or contains text_eq
run_once-IsPayout_example =
    run_once-IsPayout toy 30 (λ outputs. some (codes "sent")) half_of view budget half_of-le
      (omega arith) (omega arith)
