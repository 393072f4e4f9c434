-- ===== src/Udp/Seen.antt =====
-- Small tables of src/peer_udp.py: the messages that were seen, the answer to a GETSYNC that is
-- being collected, and the votes on the node's own address. Times are in units of 2^-22 seconds.
use echocoin_core.Prelude.{
  ℕ, Bool, true, false, ◌||◌, Option, none, some, List, [], ◌∷◌, keep, member, add_member, ℤ, pos,
  ◌-ℤ◌, ltb_ℤ, leb_ℤ, eqb_ℤ, ltb, leb, Text, if◌then◌else◌, length, Check, ok, reject, raise,
}
use echocoin_core.Dict.{Dict, get_or, set}
use echocoin_core.Env.{Bytes}
use echocoin_core.PeerPool.{units}
use echocoin_core.Table.{Table, number_key, holds, put}
use echocoin_core.Udp.Packet.{max_chunk_total}
use echocoin_core.Udp.Reassembler.{join_total}

-- `_mark_seen`, with the eviction once there are more than 50000 messages
unfoldable pub mark_seen : ℤ → ℕ → Table ℕ ℤ → Table ℕ ℤ
mark_seen mono msg_id seen =
    let noted = put msg_id mono seen in
    if ltb 50_000 (length noted) then keep (λ e. ltb_ℤ (mono -ℤ units 300) e.1) noted else noted

unfoldable pub is_new : ℤ → ℕ → Table ℕ ℤ → Table ℕ ℤ × Bool
is_new mono msg_id seen = if holds msg_id seen then (seen, false) else (put msg_id mono seen, true)

-- `_PendingSync`: `result` is set when `event` is, and is none where decoding failed.
pub record PendingSync (A : Type 0) : Type 0 where
  pub chunks : Table ℕ Bytes
  pub total : Option ℤ
  pub event : Bool
  pub result : Option A

module _ {A : Type 0} (decode : Bytes → Option A) where
  -- A KeyError leaves the chunks there.
  unfoldable pub complete : ℤ → PendingSync A → PendingSync A × Check
  complete chunk_total pending = elim (join_total chunk_total pending.chunks) [
    | ok full ↦ (record pending { event = true; result = decode full }, ok tt)
    | reject e ↦ (pending, reject e)
    | raise e ↦ (pending, raise e)
  ]

  unfoldable pub feed_sync : ℕ → ℤ → Bytes → PendingSync A → PendingSync A × Check
  feed_sync chunk_idx chunk_total payload pending =
      let held = record pending {
        total = some chunk_total;
        chunks = put chunk_idx payload pending.chunks;
      } in
      if leb_ℤ chunk_total (pos 0) || ltb_ℤ (pos max_chunk_total) chunk_total
      then (pending, ok tt)
      else if eqb_ℤ (pos (length held.chunks)) chunk_total
      then complete chunk_total held
      else (held, ok tt)

-- The node's own address, as its peers see it, and who said so.
pub record External : Type 0 where
  pub our_external_addr : Option Text
  pub votes : Dict (List Text)

-- The end of `ping`, for an answer from `addr`; an empty one changes nothing.
unfoldable pub vote : Text → List Text → Text → External → External
vote addr pool_addrs [] ext = ext
vote addr pool_addrs (c ∷ cs) ext =
    let before = get_or (c ∷ cs) [] ext.votes in
    let voters = if member addr pool_addrs then add_member addr before else before in
    record {
      our_external_addr =
          if leb 2 (length voters)
          then some (c ∷ cs)
          else elim ext.our_external_addr [ none ↦ some (c ∷ cs) | some own ↦ some own ];
      votes = set (c ∷ cs) voters ext.votes;
    }
