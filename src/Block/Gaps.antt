-- ===== src/Block/Gaps.antt =====
-- Blocks of height 0, and NaN timestamps, in `validate` of src/block.py.
use echocoin_core.Prelude.{◌≡◌, false, some, List, pos, last?, ok, arith, ltb}
use echocoin_core.Params.{block_size_limit}
use echocoin_core.Wire.{given, Time, at, nan, Block, Entry}
use echocoin_core.Env.{Env}
use echocoin_core.State.{State}
use echocoin_core.Block.{
  check_parent, check_after_parent, check_timestamp, check_hash, check_builder_and_vdf,
  apply_transactions, apply_entries, validate, block_size,
}

module _ (env : Env) where
  -- A block of height 0 is accepted on any chain with no look at its parent, its builder or its
  -- VDF proof: only its size, its hash, its timestamp and its transactions count.
  pub validate_height_zero :
      (now : Time) (blk : Block) (s : State) (chain : List Block) (entries : List Entry)
      → blk.height ≡ pos 0
      → ltb block_size_limit (block_size env blk) ≡ false
      → check_hash env blk ≡ ok tt
      → check_timestamp now blk chain ≡ ok tt
      → blk.transactions ≡ given entries
      → validate env now blk s chain ≡ apply_entries env entries s
  unfolding validate check_parent check_builder_and_vdf apply_transactions
  validate_height_zero now blk s chain entries z size hash time e =
      ground (arith, z, size, hash, time, e)

  -- A NaN timestamp passes the timestamp check at any clock, after any parent that has a
  -- timestamp.
  pub check_timestamp_nan :
      (now ts : Time) (blk : Block) (chain : List Block) (parent : Block)
      → last? chain ≡ some parent
      → blk.timestamp ≡ given nan
      → parent.timestamp ≡ given ts
      → check_timestamp now blk chain ≡ ok tt
  unfolding check_timestamp check_after_parent
  check_timestamp_nan now (at a) blk chain parent tip e p = ground arith
  check_timestamp_nan now nan blk chain parent tip e p = ground arith
