-- ===== src/Rewarder.antt =====
-- src/uptime_rewarder.py: the payout of a budget to peers that cannot mine yet. Amounts are ticks.
pub mod Conserved
use echocoin_core.Prelude.{
  ℕ, zero, suc, ◌+◌, ◌-◌, Bool, true, false, not, ◌&&◌, ◌||◌, Option, none, some, List, [], ◌∷◌,
  map, keep, add_member, ℤ, pos, ◌+ℤ◌, ◌-ℤ◌, scale, floor_div, ltb_ℤ, leb_ℤ, max_ℤ, eqb_ℤ, Text,
  text_eq, if◌then◌else◌, length, drop,
}
use echocoin_core.Params.{ticks_per_lapse}
use echocoin_core.Dict.{Dict, get_or, set, contains}
use echocoin_core.Wire.{Field, given, absent, other, Block}
use echocoin_core.Env.{Env}
use echocoin_core.State.{State, get_balance}
use echocoin_core.Crypto.{is_valid_address}
use echocoin_core.Mempool.{Mempool}
use echocoin_core.PeerPool.{Row, units}
use echocoin_core.Storage.{Database, get_tx_height}

abbrev pub active_window_s : ℕ
active_window_s = 3600

-- The state file: what is left, and the hash and amount of the last payout.
pub record Budget : Type 0 where
  pub remaining_ticks : ℤ
  pub pending : Option (Text × ℤ)

-- The dict in the state file, where it can be read; the budget may be missing there.
pub record Stored : Type 0 where
  pub remaining_ticks : Option ℤ
  pub pending : Option (Text × ℤ)

unfoldable pub load_budget : ℕ → Option Stored → Budget
load_budget default_lapse none = record {
  remaining_ticks = scale (pos default_lapse) ticks_per_lapse;
  pending = none;
}
load_budget default_lapse (some stored) = elim stored.remaining_ticks [
  | none ↦ record { remaining_ticks = scale (pos default_lapse) ticks_per_lapse; pending = none }
  | some ticks ↦ record { remaining_ticks = ticks; pending = stored.pending }
]

-- `delta_ticks` is `int(delta_lapse * TICKS_PER_LAPSE)`.
unfoldable pub adjust_budget : ℤ → Budget → Budget
adjust_budget delta_ticks b = record b {
  remaining_ticks = max_ℤ (pos 0) (b.remaining_ticks +ℤ delta_ticks);
}

-- `wallet or inferred_wallet`
abbrev pub wallet_of : Row → Text
wallet_of row = elim row.info.wallet [ [] ↦ row.info.inferred_wallet | c ∷ cs ↦ c ∷ cs ]

abbrev pub add_wallet : ℤ → Text → ℤ → List Text → List Text
add_wallet wall [] last_seen set = set
add_wallet wall (c ∷ cs) last_seen set =
    if leb_ℤ (wall -ℤ last_seen) (units active_window_s) then add_member (c ∷ cs) set else set

-- The set, in an order of the rows; `wall` is time.time().
unfoldable pub active_peer_wallets : ℤ → List Row → List Text
active_peer_wallets wall [] = []
active_peer_wallets wall (row ∷ rows) =
    add_wallet wall (wallet_of row) row.last_seen (active_peer_wallets wall rows)

-- `counts[builder] = counts.get(builder, 0) + 1`, for a builder that is there
abbrev pub count_builder : Field Text → Dict ℤ → Dict ℤ
count_builder (given []) counts = counts
count_builder (given (c ∷ cs)) counts =
    set (c ∷ cs) (get_or (c ∷ cs) (pos 0) counts +ℤ pos 1) counts
count_builder absent counts = counts
count_builder other counts = counts

unfoldable pub count_wins : List Block → Dict ℤ → Dict ℤ
count_wins [] counts = counts
count_wins (blk ∷ blks) counts = count_wins blks (count_builder blk.builder counts)

-- The last `window` blocks of the chain; ℕ's `-` is the `max(0, ...)`.
unfoldable pub recent_block_win_counts : ℕ → List Block → Dict ℤ
recent_block_win_counts window chain = count_wins (drop (length chain - window) chain) []

module _ (env : Env) where
  -- The tests of the loop over the wallets, for one that is not the node's own.
  unfoldable pub is_eligible : Text → Dict ℤ → State → ℤ → Text → Bool
  is_eligible reward_addr wins s remaining addr =
      not (text_eq addr reward_addr)
      && not (ltb_ℤ (get_or reward_addr (pos 0) wins) (get_or addr (pos 0) wins))
      && is_valid_address env addr
      && ltb_ℤ (get_balance addr s) remaining

  unfoldable pub eligible : Text → Dict ℤ → State → ℤ → List Text → List Text
  eligible reward_addr wins s remaining = keep (is_eligible reward_addr wins s remaining)

-- `404-equivalent`: the hash is neither in the mempool nor in a block.
unfoldable pub is_confirmed : Text → Mempool → Database → Bool
is_confirmed h m db =
    if contains h m.pool then true else elim (get_tx_height h db) [ none ↦ false | some n ↦ true ]

unfoldable pub resolve_pending : Mempool → Database → Budget → Budget
resolve_pending m db b = elim b.pending [
  | none ↦ b
  | some p ↦
      if is_confirmed p.0 m db
      then record b { pending = none }
      else record { remaining_ticks = b.remaining_ticks +ℤ p.1; pending = none }
]

-- The node as the rewarder reads it: its address, its view's state and chain, the mempool, the
-- storage, the peers' rows and the time.
pub record View : Type 0 where
  pub reward_addr : Text
  pub state : State
  pub chain : List Block
  pub mempool : Mempool
  pub db : Database
  pub peers : List Row
  pub wall : ℤ

abbrev pub min_ℤ : ℤ → ℤ → ℤ
min_ℤ a b = if ltb_ℤ b a then b else a

-- `share` for each of the eligible wallets, and the outputs.
unfoldable pub share_of : ℤ → ℕ → ℤ
share_of pool_amount zero = pos 0
share_of pool_amount (suc n) = floor_div pool_amount (suc n)

abbrev pub outputs_of : ℤ → List Text → List (Text × ℤ)
outputs_of share = map (λ addr. (addr, share))

-- A budget, with the outputs of the transaction that was sent.
abbrev pub Cycle : Type 0
Cycle = Budget × List (Text × ℤ)

-- The last part of `run_once`. `submit` is what building, signing and submitting the outputs comes
-- to: a hash, or none; `meanwhile` is what other threads make of the budget until then.
unfoldable pub send :
    (List (Text × ℤ) → Option Text) → (Budget → Budget) → ℤ → ℤ → List Text → Budget → Cycle
send submit meanwhile remaining share wallets b = elim (submit (outputs_of share wallets)) [
  | none ↦ (meanwhile b, [])
  | some h ↦ (
    record {
      remaining_ticks = remaining -ℤ scale share (length wallets);
      pending = some (h, scale share (length wallets));
    },
    outputs_of share wallets,
  )
]

unfoldable pub pay_share :
    (List (Text × ℤ) → Option Text) → (Budget → Budget) → ℤ → ℤ → List Text → Budget → Cycle
pay_share submit meanwhile remaining share wallets b =
    if leb_ℤ share (pos 0)
    then (meanwhile b, [])
    else send submit meanwhile remaining share wallets b

-- `slice` is `int(remaining_ticks * (1 - 0.5 ** (1 / halflife_hours)))`.
unfoldable pub pay_pool :
    (List (Text × ℤ) → Option Text)
    → (Budget → Budget)
    → (ℤ → ℤ)
    → ℤ
    → ℤ
    → List Text
    → Budget
    → Cycle
pay_pool submit meanwhile slice remaining wallet_balance wallets b =
    let pool_amount = min_ℤ (slice remaining) wallet_balance in
    if leb_ℤ pool_amount (pos 0)
    then (meanwhile b, [])
    else pay_share submit meanwhile remaining (share_of pool_amount (length wallets)) wallets b

unfoldable pub eligible_wallets : Env → ℕ → View → ℤ → List Text
eligible_wallets env window v remaining =
    eligible env v.reward_addr (recent_block_win_counts window v.chain) v.state remaining
      (active_peer_wallets v.wall v.peers)

unfoldable pub pay_out :
    (List (Text × ℤ) → Option Text)
    → (Budget → Budget)
    → (ℤ → ℤ)
    → ℤ
    → ℤ
    → List Text
    → Budget
    → Cycle
pay_out submit meanwhile slice remaining wallet_balance [] b = (meanwhile b, [])
pay_out submit meanwhile slice remaining wallet_balance (w ∷ ws) b =
    pay_pool submit meanwhile slice remaining wallet_balance (w ∷ ws) b

unfoldable pub run_once :
    Env → ℕ → (List (Text × ℤ) → Option Text) → (Budget → Budget) → (ℤ → ℤ) → View → Budget → Cycle
run_once env window submit meanwhile slice v b =
    let resolved = resolve_pending v.mempool v.db b in
    if leb_ℤ resolved.remaining_ticks (pos 0)
    then (resolved, [])
    else pay_out submit meanwhile slice resolved.remaining_ticks (get_balance v.reward_addr v.state)
        (eligible_wallets env window v resolved.remaining_ticks) resolved
