-- ===== src/Block/Sound.antt =====
-- What `validate` of src/block.py accepts.
use echocoin_core.Prelude.{
  ◌≤◌, ◌≡◌, ◌≢◌, refl, not, true, false, some, List, ℤ, pos, ◌+ℤ◌, eqb_ℤ, Text, text_eq_iff, ltb,
  last?, ok, >>=-eq-ok, >>-eq-ok, reject_if, arith, Option-cases, inl, inr, too_large,
}
use echocoin_core.Params.{block_size_limit, timestamp_skew_seconds}
use echocoin_core.Wire.{
  Field, absent, other, given, need, need-eq-ok, Entry, Time, seconds, time_add, time_ltb, Block,
}
use echocoin_core.Env.{Bytes, Env}
use echocoin_core.Crypto.{is_valid_address}
use echocoin_core.State.{State}
use echocoin_core.Vdf.{vdf_verify}
use echocoin_core.Block.{
  get_vdf_iterations, is_iterations, check_parent, check_after_parent, check_timestamp, tip_hash,
  vdf_challenge, block_hash, block_size, check_hash, check_vdf, check_vdf_fields,
  check_builder_and_vdf, apply_entries, apply_transactions, validate,
}

-- The block stands on the chain's tip.
pub record Extends (blk : Block) (chain : List Block) : Type 0 where
  pub parent : Block
  pub tip : last? chain ≡ some parent
  pub previous : blk.previous_hash ≡ parent.hash
  pub height : blk.height ≡ parent.height +ℤ pos 1

-- Neither ahead of the clock by more than the skew, nor nearer to the parent than that.
pub record IsTimely (now : Time) (blk : Block) (parent : Block) : Type 0 where
  pub stamp : Time
  pub parent_stamp : Time
  pub stamp_eq : blk.timestamp ≡ given stamp
  pub parent_eq : parent.timestamp ≡ given parent_stamp
  pub not_ahead : time_ltb (time_add now (seconds timestamp_skew_seconds)) stamp ≡ false
  pub not_early : time_ltb stamp (time_add parent_stamp (seconds timestamp_skew_seconds)) ≡ false

-- The required number of iterations was proved for the builder on top of the tip.
pub record IsProved (env : Env) (blk : Block) (chain : List Block) (parent : Block) : Type 0 where
  pub builder : Text
  pub output : Text
  pub proof : Text
  pub expected : ℤ
  pub challenge : Bytes
  pub builder_eq : blk.builder ≡ given builder
  pub output_eq : blk.vdf_output ≡ given output
  pub proof_eq : blk.vdf_proof ≡ given proof
  pub address : is_valid_address env builder ≡ true
  pub expected_eq : get_vdf_iterations env.median chain ≡ ok expected
  pub carried : is_iterations blk.vdf_iterations expected ≡ true
  pub challenge_eq : vdf_challenge env parent.hash builder ≡ ok challenge
  pub verified : vdf_verify env challenge output proof expected ≡ true

check_parent-Extends :
    (blk : Block) (chain : List Block)
    → blk.height ≢ pos 0
    → check_parent blk chain ≡ ok tt
    → Extends blk chain
unfolding check_parent
check_parent-Extends blk chain nz h = elim (Option-cases (last? chain)) [
  | inl bare ↦ absurd (ground arith)
  | inr (parent, tip) ↦ record {
    parent = parent;
    tip = tip;
    previous = ground (arith, text_eq_iff blk.previous_hash parent.hash);
    height = ground arith;
  }
]

check_timestamp-IsTimely :
    (now : Time) (blk : Block) (chain : List Block) (parent : Block)
    → last? chain ≡ some parent
    → check_timestamp now blk chain ≡ ok tt
    → IsTimely now blk parent
unfolding check_timestamp check_after_parent
check_timestamp-IsTimely now blk chain parent tip h = by_stamp blk.timestamp refl
  where
    by_stamp : (f : Field Time) → blk.timestamp ≡ f → IsTimely now blk parent
    by_stamp (given ts) e =
        let h' : check_timestamp now blk chain ≡ ok tt = h in
        let (ahead, after) =
          >>-eq-ok (reject_if (time_ltb (time_add now (seconds timestamp_skew_seconds)) ts) _) _
            (rw (e, check_timestamp) at h') in
        let (parent_ts, p, early) =
          >>=-eq-ok (need parent.timestamp) _ (rw (tip, check_after_parent) at after) in
        record {
          stamp = ts;
          parent_stamp = parent_ts;
          stamp_eq = e;
          parent_eq = need-eq-ok parent.timestamp p;
          not_ahead = ground (arith, ahead);
          not_early = ground (arith, early);
        }
    by_stamp absent e = absurd (ground arith)
    by_stamp other e = absurd (ground arith)

module _ (env : Env) (blk : Block) (chain : List Block) (parent : Block)
    (tip : last? chain ≡ some parent) where
  check_vdf-IsProved :
      (builder output proof : Text)
      → blk.builder ≡ given builder
      → blk.vdf_output ≡ given output
      → blk.vdf_proof ≡ given proof
      → is_valid_address env builder ≡ true
      → check_vdf env blk chain builder output proof ≡ ok tt
      → IsProved env blk chain parent
  unfolding check_vdf tip_hash
  check_vdf-IsProved builder output proof b o p address h =
      let (expected, e, h1) = >>=-eq-ok (get_vdf_iterations env.median chain) _ h in
      let (carried, h2) =
        >>-eq-ok (reject_if (not (is_iterations blk.vdf_iterations expected)) _) _ h1 in
      let (challenge, c, h3) =
        >>=-eq-ok (vdf_challenge env parent.hash builder) _ (rw (tip, tip_hash) at h2) in
      record {
        builder = builder;
        output = output;
        proof = proof;
        expected = expected;
        challenge = challenge;
        builder_eq = b;
        output_eq = o;
        proof_eq = p;
        address = address;
        expected_eq = e;
        carried = ground (arith, carried);
        challenge_eq = c;
        verified = ground (arith, h3);
      }

  check_vdf_fields-IsProved :
      (builder : Text) (output proof : Field Text)
      → blk.builder ≡ given builder
      → blk.vdf_output ≡ output
      → blk.vdf_proof ≡ proof
      → is_valid_address env builder ≡ true
      → check_vdf_fields env blk chain builder ≡ ok tt
      → IsProved env blk chain parent
  unfolding check_vdf_fields
  check_vdf_fields-IsProved builder (given output) (given proof) b o p address h =
      check_vdf-IsProved builder output proof b o p address (ground arith)
  check_vdf_fields-IsProved builder (given output) absent b o p address h = absurd (ground arith)
  check_vdf_fields-IsProved builder (given output) other b o p address h = absurd (ground arith)
  check_vdf_fields-IsProved builder absent proof b o p address h = absurd (ground arith)
  check_vdf_fields-IsProved builder other proof b o p address h = absurd (ground arith)

  check_builder_and_vdf-IsProved :
      blk.height ≢ pos 0
      → check_builder_and_vdf env blk chain ≡ ok tt
      → IsProved env blk chain parent
  unfolding check_builder_and_vdf
  check_builder_and_vdf-IsProved nz h = by_builder blk.builder refl
    where
      nonzero : eqb_ℤ blk.height (pos 0) ≡ false
      nonzero = ground arith

      by_builder : (f : Field Text) → blk.builder ≡ f → IsProved env blk chain parent
      by_builder (given builder) e =
          let (address, rest) =
            >>-eq-ok (reject_if (not (is_valid_address env builder)) _) _
              (rw (nonzero, e, check_builder_and_vdf) at h) in
          check_vdf_fields-IsProved builder blk.vdf_output blk.vdf_proof e refl refl
            (ground (arith, address)) rest
      by_builder absent e = absurd (ground arith)
      by_builder other e = absurd (ground arith)

-- All that `validate` promises of an accepted block above the genesis height.
pub record IsValidBlock (env : Env) (now : Time) (blk : Block) (s : State) (chain : List Block)
    (s' : State) : Type 0 where
  pub fits : block_size env blk ≤ block_size_limit
  pub hashed : blk.hash ≡ block_hash env blk.body
  pub place : Extends blk chain
  pub timely : IsTimely now blk place.parent
  pub proved : IsProved env blk chain place.parent
  pub entries : List Entry
  pub entries_eq : blk.transactions ≡ given entries
  pub applied : apply_entries env entries s ≡ ok s'

module _ (env : Env) where
  -- A block of another height than 0 that `validate` accepts is small enough, carries its own
  -- hash, extends the tip by one height, has a timestamp that is neither above the clock's limit
  -- nor below the parent's, proves the required VDF for its valid builder on the tip, and its
  -- transactions apply one after the other, to the state that comes back.
  pub validate-IsValidBlock :
      (now : Time) (blk : Block) (s : State) (chain : List Block) (s' : State)
      → blk.height ≢ pos 0
      → validate env now blk s chain ≡ ok s'
      → IsValidBlock env now blk s chain s'
  unfolding validate check_hash apply_transactions
  validate-IsValidBlock now blk s chain s' nz h =
      let (size, h1) =
        >>-eq-ok (reject_if (ltb block_size_limit (block_size env blk)) too_large) _ h in
      let (hash, h2) = >>-eq-ok (check_hash env blk) _ h1 in
      let (parent, h3) = >>-eq-ok (check_parent blk chain) _ h2 in
      let (time, h4) = >>-eq-ok (check_timestamp now blk chain) _ h3 in
      let (vdf, txs) = >>-eq-ok (check_builder_and_vdf env blk chain) _ h4 in
      let (entries, e, applied) = >>=-eq-ok (need blk.transactions) _ txs in
      let place : Extends blk chain = check_parent-Extends blk chain nz parent in
      record {
        fits = ground (arith, size);
        hashed = ground (arith, hash, text_eq_iff blk.hash (block_hash env blk.body));
        place = place;
        timely = check_timestamp-IsTimely now blk chain place.parent place.tip time;
        proved = check_builder_and_vdf-IsProved env blk chain place.parent place.tip nz vdf;
        entries = entries;
        entries_eq = need-eq-ok blk.transactions e;
        applied = applied;
      }
