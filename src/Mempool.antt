-- ===== src/Mempool.antt =====
-- src/mempool.py: pending transactions. The pool maps a hash to a transaction and the monotonic
-- time of its entry; only validated transactions reach it, so their fees and nonces are integers.
pub mod Removal
pub mod Sizes
pub mod Eviction
pub mod Admission
pub mod Pruning
pub mod Sorting
pub mod Probe
use echocoin_core.Prelude.{
  ℕ, ◌+◌, ◌*◌, ◌<◌, Bool, not, true, false, ◌||◌, ◌&&◌, Option, none, some, List, [], ◌∷◌, map, ℤ,
  pos, negsuc, ◌+ℤ◌, ◌-ℤ◌, ltb_ℤ, leb_ℤ, max_ℤ, Text, text_eq, ltb, if◌then◌else◌, Result, ok,
  ◌>>=◌,
}
use echocoin_core.Dict.{Dict, get, contains, set, pop}
use echocoin_core.Wire.{Field, absent, other, given, Tx}
use echocoin_core.Env.{Env}
use echocoin_core.State.{State, get_nonce, apply_tx}
use echocoin_core.Tx.{tx_hash, tx_size}

abbrev pub mempool_max_bytes : ℕ
mempool_max_bytes = 100_000_000

abbrev pub mempool_ttl_seconds : ℕ
mempool_ttl_seconds = 30 * 60

pub record Pending : Type 0 where
  pub tx : Tx
  pub entered : ℤ

pub record Mempool : Type 0 where
  pub pool : Dict Pending
  pub total_bytes : ℤ

-- The integer in a field of a validated transaction.
abbrev pub int_of : Field ℤ → ℤ
int_of (given n) = n
int_of absent = pos 0
int_of other = pos 0

-- `t.get("from") == addr`
abbrev pub is_from : Text → Tx → Bool
is_from addr t = elim t.from [ given sender ↦ text_eq sender addr | absent ↦ false | other ↦ false ]

-- `(True, h)`, `(False, "duplicate")` and `(False, "mempool full: ...")`
pub data Added : Type 0 where
  added : Text → Added
  duplicate : Added
  full : Added

module _ {A : Type 0} (less : A → A → Bool) where
  -- Python's stable `sorted`.
  unfoldable pub insert_by : A → List A → List A
  insert_by x [] = x ∷ []
  insert_by x (y ∷ ys) = if less y x then y ∷ insert_by x ys else x ∷ y ∷ ys

  unfoldable pub sort_by : List A → List A
  sort_by [] = []
  sort_by (x ∷ xs) = insert_by x (sort_by xs)

-- The transactions of `addr`, in the pool's order.
unfoldable pub txs_from : Text → Dict Pending → List Tx
txs_from addr [] = []
txs_from addr (e ∷ d) =
    let rest = txs_from addr d in if is_from addr e.1.tx then e.1.tx ∷ rest else rest

-- `max(nonces) if nonces else 0`
unfoldable pub max_nonce : List Tx → ℤ
max_nonce [] = pos 0
max_nonce (t ∷ []) = int_of t.nonce
max_nonce (t ∷ u ∷ ts) = max_ℤ (int_of t.nonce) (max_nonce (u ∷ ts))

unfoldable pub pending_nonce : Text → Mempool → ℤ
pending_nonce addr m = max_nonce (txs_from addr m.pool)

abbrev pub nonce_less : Tx → Tx → Bool
nonce_less t u = ltb_ℤ (int_of t.nonce) (int_of u.nonce)

unfoldable pub apply_all : List Tx → State → Result State
apply_all [] s = ok s
apply_all (t ∷ ts) s = do s' ← apply_tx t s; apply_all ts s'

unfoldable pub probe_state_for : Text → State → Mempool → Result State
probe_state_for addr s m = apply_all (sort_by nonce_less (txs_from addr m.pool)) s

-- `t["nonce"] <= state.get_nonce(t["from"])`
abbrev pub is_superseded : State → Tx → Bool
is_superseded s t = elim t.from [
  | given sender ↦ leb_ℤ (int_of t.nonce) (get_nonce sender s)
  | absent ↦ false
  | other ↦ false
]

-- `now - entered > ttl_seconds`, in the units of `Time`
abbrev pub is_expired : ℤ → ℕ → Pending → Bool
is_expired now ttl p = ltb_ℤ (pos (ttl * 4194304)) (now -ℤ p.entered)

abbrev pub is_stale : State → ℤ → ℕ → Pending → Bool
is_stale s now ttl p = is_superseded s p.tx || is_expired now ttl p

unfoldable pub stale_hashes : State → ℤ → ℕ → Dict Pending → List Text
stale_hashes s now ttl [] = []
stale_hashes s now ttl (e ∷ d) =
    let rest = stale_hashes s now ttl d in if is_stale s now ttl e.1 then e.0 ∷ rest else rest

module _ (env : Env) where
  -- `fee_rate(t) < fee_rate(u)`
  unfoldable pub rate_less : Tx → Tx → Bool
  rate_less t u =
      env.ratio_lt (int_of t.fee, (if ltb (tx_size env t) 1 then 1 else tx_size env t))
        (int_of u.fee, (if ltb (tx_size env u) 1 then 1 else tx_size env u))

  unfoldable pub remove : Text → Mempool → Mempool
  remove h m = elim (get h m.pool) [
    | none ↦ m
    | some p ↦ record { pool = pop h m.pool; total_bytes = m.total_bytes -ℤ pos (tx_size env p.tx) }
  ]

  unfoldable pub remove_many : List Text → Mempool → Mempool
  remove_many [] m = m
  remove_many (h ∷ hs) m = remove_many hs (remove h m)

  abbrev pub entry_less : Text × Tx → Text × Tx → Bool
  entry_less e f = rate_less e.1 f.1

  -- `(h2, t2) for h2, (t2, _) in self._pool.items()`
  abbrev pub items : Dict Pending → Dict Tx
  items = map (λ e. (e.0, e.1.tx))

  -- The loop over `by_worst_first`: the hashes to evict, and the bytes that they free.
  unfoldable pub choose : Tx → ℤ → ℤ → Dict Tx → List Text × ℤ
  choose t overflow freed [] = ([], freed)
  choose t overflow freed (e ∷ rest) =
      let chosen = choose t overflow (freed +ℤ pos (tx_size env e.1)) rest in
      if leb_ℤ overflow freed
      then ([], freed)
      else if not (rate_less e.1 t)
      then ([], freed)
      else (e.0 ∷ chosen.0, chosen.1)

  -- `self._pool[h] = (tx_dict, now)`, behind the evictions.
  unfoldable pub admit : ℤ → Tx → List Text → Mempool → Mempool × Added
  admit now t evicted m =
      let m' = remove_many evicted m in
      (
        record {
          pool = set (tx_hash env t) (record { tx = t; entered = now }) m'.pool;
          total_bytes = m'.total_bytes +ℤ pos (tx_size env t);
        },
        added (tx_hash env t),
      )

  abbrev pub overflow_of : Tx → Mempool → ℤ
  overflow_of t m = m.total_bytes +ℤ pos (tx_size env t) -ℤ pos mempool_max_bytes

  unfoldable pub victims : Tx → Mempool → List Text × ℤ
  victims t m = choose t (overflow_of t m) (pos 0) (sort_by entry_less (items m.pool))

  unfoldable pub add : ℤ → Tx → Mempool → Mempool × Added
  add now t m =
      if contains (tx_hash env t) m.pool
      then (m, duplicate)
      else if ltb_ℤ (pos 0) (overflow_of t m)
      then (if ltb_ℤ (victims t m).1 (overflow_of t m)
          then (m, full)
          else admit now t (victims t m).0 m)
      else admit now t [] m

  unfoldable pub prune_stale : State → ℤ → ℕ → Mempool → Mempool × List Text
  prune_stale s now ttl m =
      let pruned = stale_hashes s now ttl m.pool in (remove_many pruned m, pruned)
