-- ===== src/Udp/Sending.antt =====
-- Sending in chunks: `_send_chunked`, `_retransmit_until_acked` and `_handle_ack` of
-- src/peer_udp.py. A message is known by its target and its id. What is sent is a log, the latest
-- last; `fails n` is whether sending the n-th chunk raises.
pub mod Retransmit
use echocoin_core.Prelude.{
  ℕ, zero, suc, ◌+◌, Bool, true, false, not, ◌&&◌, Option, none, some, List, [], ◌∷◌, ◌++◌, map,
  keep, ℤ, pos, negsuc, eqb_ℤ, ltb, Text, if◌then◌else◌, length, Result, ok, reject, raise, ◌>>=◌,
}
use echocoin_core.Wire.{Field, given, absent, other}
use echocoin_core.Env.{Bytes}
use echocoin_core.Table.{Table, number_key, pair_key, find, put, drop_key}
use echocoin_core.Udp.Packet.{Packet, pack, split}
use echocoin_core.Udp.Reassembler.{MessageKey}

abbrev pub chunk_ack_max_rounds : ℕ
chunk_ack_max_rounds = 4

-- An entry of `_pending_chunked_sends`.
pub record Sending : Type 0 where
  pub chunks : List (ℕ × Bytes)
  pub acked : List ℤ
  pub msg_type : ℕ
  pub event : Bool

abbrev pub Sends : Type 0
Sends = Table MessageKey Sending

-- `i in acked`
unfoldable pub is_acked : List ℤ → ℕ → Bool
is_acked [] i = false
is_acked (n ∷ ns) i = if eqb_ℤ n (pos i) then true else is_acked ns i

-- `acked >= set(chunks)`
unfoldable pub all_acked : List ℤ → List (ℕ × Bytes) → Bool
all_acked acked [] = true
all_acked acked (c ∷ cs) = is_acked acked c.0 && all_acked acked cs

-- `acked.update(i for i in acked_chunks if isinstance(i, int))`
unfoldable pub add_acks : List (Field ℤ) → List ℤ → List ℤ
add_acks [] acked = acked
add_acks (given n ∷ ns) acked = add_acks ns (n ∷ acked)
add_acks (absent ∷ ns) acked = add_acks ns acked
add_acks (other ∷ ns) acked = add_acks ns acked

unfoldable pub acknowledge : List (Field ℤ) → Sending → Sending
acknowledge acked_chunks s =
    let acked = add_acks acked_chunks s.acked in
    record s { acked = acked; event = if all_acked acked s.chunks then true else s.event }

-- `sender` is the target that answers. An id below 0 is never sent, so it has no entry.
unfoldable pub handle_ack : Text → Field ℤ → Field (List (Field ℤ)) → Sends → Sends
handle_ack sender (given (pos msg_id)) (given acked_chunks) sends =
    elim (find (sender, msg_id) sends) [
      | none ↦ sends
      | some s ↦ put (sender, msg_id) (acknowledge acked_chunks s) sends
    ]
handle_ack sender _ _ sends = sends

-- `dict(enumerate(chunks))`
unfoldable pub enumerate : ℕ → List Bytes → List (ℕ × Bytes)
enumerate i [] = []
enumerate i (c ∷ cs) = (i, c) ∷ enumerate (suc i) cs

-- The loop that sends; it ends where a send raises.
unfoldable pub send_all : (ℕ → Bool) → ℕ → ℕ → ℕ → List (ℕ × Bytes) → Result (List Bytes)
send_all fails msg_type msg_id total [] = ok []
send_all fails msg_type msg_id total (c ∷ cs) =
    let rest = send_all fails msg_type msg_id total cs in
    do
      pkt ← pack (record {
        msg_type = msg_type;
        msg_id = msg_id;
        chunk_idx = c.0;
        chunk_total = pos total;
        payload = c.1;
      })
      (if fails c.0 then ok [] else (do pkts ← rest; ok (pkt ∷ pkts)))

-- The entry is made before the first chunk is sent, for a message of several chunks.
unfoldable pub send_chunked :
    (ℕ → Bool) → ℕ → ℕ → Bytes → Text → Sends → Sends × Result (List Bytes)
send_chunked fails msg_type msg_id payload target sends =
    let chunks = enumerate 0 (split payload) in
    let total = length chunks in
    (
      if ltb 1 total
          then put (target, msg_id)
              (record { chunks = chunks; acked = []; msg_type = msg_type; event = false }) sends
          else sends,
      send_all fails msg_type msg_id total chunks,
    )

-- `{i: c for i, c in chunks.items() if i not in acked}`
unfoldable pub missing : Sending → List (ℕ × Bytes)
missing s = keep (λ c. not (is_acked s.acked c.0)) s.chunks

-- An ack datagram: its sender, id and chunks.
abbrev pub Ack : Type 0
Ack = Text × (Field ℤ × Field (List (Field ℤ)))

unfoldable pub handle_acks : List Ack → Sends → Sends
handle_acks [] sends = sends
handle_acks (a ∷ later) sends = handle_acks later (handle_ack a.0 a.1.0 a.1.1 sends)

-- The rounds that are left. `acks n` are the acks that arrive while the n-th of them from the end
-- waits; what is sent is the chunks of each round, of which each send may raise without an effect.
unfoldable pub retransmit :
    (ℕ → List Ack) → MessageKey → ℕ → Sends → Sends × List (List (ℕ × Bytes))
retransmit acks key zero sends = (drop_key key sends, [])
retransmit acks key (suc left) sends =
    let after = handle_acks (acks left) sends in
    let rest = retransmit acks key left after in
    elim (find key sends) [
      | none ↦ (sends, [])
      | some before ↦ elim (find key after) [
        | none ↦ (after, [])
        | some s ↦ if s.event then (drop_key key after, []) else (rest.0, missing s ∷ rest.1)
      ]
    ]

unfoldable pub retransmit_until_acked :
    (ℕ → List Ack) → MessageKey → Sends → Sends × List (List (ℕ × Bytes))
retransmit_until_acked acks key sends = retransmit acks key chunk_ack_max_rounds sends
