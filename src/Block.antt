-- ===== src/Block.antt =====
-- src/block.py: hashing, the required VDF iterations and validation of blocks.
pub mod Iterations
pub mod Follows
pub mod Sound
pub mod Gaps
pub mod Assemble
use echocoin_core.Prelude.{
  ℕ, zero, suc, ◌+◌, ◌-◌, ◌*◌, ◌/◌, ◌<◌, Bool, not, true, false, ◌||◌, Option, none, some, List, [],
  ◌∷◌, ◌++◌, ℤ, pos, negsuc, sub_ℕ, ◌+ℤ◌, eqb_ℤ, Text, codes, text_eq, ltb, leb, if◌then◌else◌,
  length, get_elem?, last?, Reason, too_large, hash_mismatch, no_parent, wrong_parent, wrong_height,
  missing_timestamp, in_the_future, too_early, invalid_builder, missing_vdf, wrong_iterations,
  invalid_vdf, not_a_dict, invalid_tx, Result, Check, ok, reject, raise, value_error, index_error,
  attribute_error, type_error, ◌>>=◌, ◌>>◌, reject_if,
}
use echocoin_core.Params.{
  block_size_limit, vdf_iterations_start, vdf_adjust_interval, vdf_adjust_min_seconds,
  timestamp_skew_seconds, genesis_timestamp,
}
use echocoin_core.Wire.{
  Field, absent, other, given, need, need_or, Tx, Entry, tx_entry, not_dict, Time, seconds,
  time_add, time_sub, time_ltb, Body, Block,
}
use echocoin_core.Env.{Bytes, Env}
use echocoin_core.Crypto.{sha256_hex, is_valid_address}
use echocoin_core.State.{State, apply_tx}
use echocoin_core.Tx.{validate as tx_validate}
use echocoin_core.Vdf.{vdf_verify}

-- int(prior * VDF_ADJUST_FACTOR): below 2^46 the double product truncates to this.
unfoldable pub raise_iterations : ℤ → ℤ
raise_iterations (pos n) = pos (n * 102 / 100)
raise_iterations (negsuc n) = sub_ℕ 0 (suc n * 102 / 100)

-- `chain[h].get("vdf_iterations", VDF_ITERATIONS)`
unfoldable pub iterations_at : List Block → ℕ → Result ℤ
iterations_at chain h = elim (get_elem? chain h) [
  | none ↦ raise index_error
  | some blk ↦ need_or (pos vdf_iterations_start) blk.vdf_iterations
]

-- `chain[h]["timestamp"]`
unfoldable pub timestamp_at : List Block → ℕ → Result Time
timestamp_at chain h = elim (get_elem? chain h) [
  | none ↦ raise index_error
  | some blk ↦ need blk.timestamp
]

-- `[chain[h]["timestamp"] - chain[h - 1]["timestamp"] for h in range(lo, lo + n)]`, for 1 ≤ lo
unfoldable pub deltas : List Block → ℕ → ℕ → Result (List Time)
deltas chain lo zero = ok []
deltas chain lo (suc n) = do
  this ← timestamp_at chain lo
  parent ← timestamp_at chain (lo - 1)
  rest ← deltas chain (lo + 1) n
  ok (time_sub this parent ∷ rest)

-- `deltas and statistics.median(deltas) < VDF_ADJUST_MIN_SECONDS`
unfoldable pub is_fast : (List Time → Time) → List Time → Bool
is_fast median [] = false
is_fast median (d ∷ ds) = time_ltb (median (d ∷ ds)) (seconds vdf_adjust_min_seconds)

-- The boundary's own requirement, from the window `[window_start, last_boundary)`.
unfoldable pub boundary_iterations : (List Time → Time) → List Block → ℕ → ℕ → Result ℤ
boundary_iterations median chain window_start last_boundary = do
  prior ← iterations_at chain window_start
  let lo = if ltb window_start 1 then 1 else window_start
  window ← deltas chain lo (last_boundary - lo)
  ok (if is_fast median window then raise_iterations prior else prior)

unfoldable pub get_vdf_iterations : (List Time → Time) → List Block → Result ℤ
get_vdf_iterations median chain =
    let next_height = length chain in
    let last_boundary = next_height / vdf_adjust_interval * vdf_adjust_interval in
    if ltb next_height vdf_adjust_interval
    then ok (pos vdf_iterations_start)
    else if ltb last_boundary next_height
    then iterations_at chain last_boundary
    else boundary_iterations median chain (last_boundary - vdf_adjust_interval) last_boundary

-- `blk.get("vdf_output") or blk["hash"]`, where an output that is no text counts as false.
unfoldable pub tie_break_key : Block → Text
tie_break_key blk = elim blk.vdf_output [
  | given output ↦ elim output [ [] ↦ blk.hash | c ∷ cs ↦ c ∷ cs ]
  | absent ↦ blk.hash
  | other ↦ blk.hash
]

-- `sum(t.get("fee", 0) for t in ...)`
unfoldable pub entries_fees : List Entry → Result ℤ
entries_fees [] = ok (pos 0)
entries_fees (tx_entry t ∷ rest) = do
  fee ← need_or (pos 0) t.fee
  fees ← entries_fees rest
  ok (fee +ℤ fees)
entries_fees (not_dict ∷ rest) = raise attribute_error

unfoldable pub block_fees : Block → Result ℤ
block_fees blk = do entries ← need_or [] blk.transactions; entries_fees entries

unfoldable pub check_parent : Block → List Block → Check
check_parent blk chain = if eqb_ℤ blk.height (pos 0) then ok tt else elim (last? chain) [
  | none ↦ reject no_parent
  | some parent ↦ do
    reject_if (not (text_eq blk.previous_hash parent.hash)) wrong_parent
    reject_if (not (eqb_ℤ blk.height (parent.height +ℤ pos 1))) wrong_height
]

-- `if chain: ...`, with the block's timestamp.
unfoldable pub check_after_parent : Time → List Block → Check
check_after_parent ts chain = elim (last? chain) [
  | none ↦ ok tt
  | some parent ↦ do
    parent_ts ← need parent.timestamp
    reject_if (time_ltb ts (time_add parent_ts (seconds timestamp_skew_seconds))) too_early
]

-- `now` is time.time()
unfoldable pub check_timestamp : Time → Block → List Block → Check
check_timestamp now blk chain = elim blk.timestamp [
  | given ts ↦ do
    reject_if (time_ltb (time_add now (seconds timestamp_skew_seconds)) ts) in_the_future
    check_after_parent ts chain
  | absent ↦ reject missing_timestamp
  | other ↦ reject missing_timestamp
]

-- `block_iterations != expected_iterations`
abbrev pub is_iterations : Field ℤ → ℤ → Bool
is_iterations absent expected = eqb_ℤ (pos vdf_iterations_start) expected
is_iterations other expected = false
is_iterations (given n) expected = eqb_ℤ n expected

-- `chain[-1]["hash"]`
unfoldable pub tip_hash : List Block → Result Text
tip_hash chain = elim (last? chain) [ none ↦ raise index_error | some tip ↦ ok tip.hash ]

module _ (env : Env) where
  unfoldable pub vdf_challenge : Text → Text → Result Bytes
  vdf_challenge previous_hash builder = elim (env.from_hex previous_hash) [
    | none ↦ raise value_error
    | some previous ↦ ok (env.sha256 (previous ++ env.encode builder))
  ]

  unfoldable pub block_hash : Body → Text
  block_hash body = sha256_hex env (env.body_json body)

  unfoldable pub block_size : Block → ℕ
  block_size blk = length (env.block_json blk)

  unfoldable pub create_genesis : Text → Block
  create_genesis message =
      let body : Body = record {
        height = pos 0;
        previous_hash = codes "0000000000000000000000000000000000000000000000000000000000000000";
        timestamp = given (seconds genesis_timestamp);
        transactions = given [];
        builder = other;
        vdf_output = other;
        vdf_proof = other;
        vdf_iterations = given (pos vdf_iterations_start);
        extra = (codes "message", message) ∷ [];
      } in
      record { body = body; hash = block_hash body }

  unfoldable pub check_hash : Block → Check
  check_hash blk = reject_if (not (text_eq blk.hash (block_hash blk.body))) hash_mismatch

  -- The part of `_check_builder_and_vdf` behind the type tests.
  unfoldable pub check_vdf : Block → List Block → Text → Text → Text → Check
  check_vdf blk chain builder output proof = do
    expected ← get_vdf_iterations env.median chain
    reject_if (not (is_iterations blk.vdf_iterations expected)) wrong_iterations
    parent_hash ← tip_hash chain
    challenge ← vdf_challenge parent_hash builder
    reject_if (not (vdf_verify env challenge output proof expected)) invalid_vdf

  unfoldable pub check_vdf_fields : Block → List Block → Text → Check
  check_vdf_fields blk chain builder = elim blk.vdf_output [
    | given output ↦ elim blk.vdf_proof [
      | given proof ↦ check_vdf blk chain builder output proof
      | absent ↦ reject missing_vdf
      | other ↦ reject missing_vdf
    ]
    | absent ↦ reject missing_vdf
    | other ↦ reject missing_vdf
  ]

  unfoldable pub check_builder_and_vdf : Block → List Block → Check
  check_builder_and_vdf blk chain = if eqb_ℤ blk.height (pos 0) then ok tt else elim blk.builder [
    | given builder ↦ do
      reject_if (not (is_valid_address env builder)) invalid_builder
      check_vdf_fields blk chain builder
    | absent ↦ reject invalid_builder
    | other ↦ reject invalid_builder
  ]

  -- `f"invalid tx: {err}"`
  abbrev pub as_invalid_tx : Check → Check
  as_invalid_tx (ok u) = ok u
  as_invalid_tx (reject e) = reject (invalid_tx e)
  as_invalid_tx (raise e) = raise e

  -- The loop of `_apply_transactions`; the state comes back.
  unfoldable pub apply_entries : List Entry → State → Result State
  apply_entries [] s = ok s
  apply_entries (not_dict ∷ rest) s = reject not_a_dict
  apply_entries (tx_entry t ∷ rest) s = do
    as_invalid_tx (tx_validate env t s)
    s' ← apply_tx t s
    apply_entries rest s'

  -- `_apply_transactions`; `need` raises for what cannot be iterated over.
  unfoldable pub apply_transactions : Block → State → Result State
  apply_transactions blk s = do entries ← need blk.transactions; apply_entries entries s

  -- The state that comes back is the probe with the block's transactions applied.
  unfoldable pub validate : Time → Block → State → List Block → Result State
  validate now blk s chain = do
    reject_if (ltb block_size_limit (block_size blk)) too_large
    check_hash blk
    check_parent blk chain
    check_timestamp now blk chain
    check_builder_and_vdf blk chain
    apply_transactions blk s
