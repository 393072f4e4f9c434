-- ===== src/Udp/Dispatch/Foreign.antt =====
-- What a peer of another network can do.
use echocoin_core.Prelude.{
  ℕ, ◌≡◌, ◌∙◌, ap, Result, ok, refl, Bool, true, false, Option, none, some, List, [], append-nil,
  All, pos, ltb_ℤ, Text, ◌==◌, arith, subst, Result-cases, Bool-cases, Option-cases, inl, inr,
}
use echocoin_core.Env.{Bytes}
use echocoin_core.Table.{find}
use echocoin_core.Udp.Packet.{Packet, unpack}
use echocoin_core.Udp.Reassembler.{Reassembler, feed}
use echocoin_core.Udp.Dispatch.{
  Message, Transport, Local, Effect, send_ack, Kind, ping, pong, peers, block, tx, getsync, sync,
  ack, punch_req, punch_go, getinfo, info, unknown, kind_of, is_ours, is_unchecked, handle_ping,
  dispatch, handle_message, ack_chunks, all_indices, handle_complete, handle_packet,
  handle_datagram,
}

-- The kinds of message whose network is checked.
unfoldable pub is_checked : Kind → Bool
is_checked pong = false
is_checked ack = false
is_checked sync = false
is_checked _ = true

abbrev pub is_ack : Effect → Bool
is_ack (send_ack msg_id held addr) = true
is_ack _ = false

-- Only the table of incomplete messages may change, and only acknowledgements are sent.
abbrev pub IsQuiet : {A : Type 0} → Transport A → Transport A × List Effect → Type 0
IsQuiet tr handled =
    ((r : Reassembler) × (handled.0 ≡ record tr { reassembler = r }))
    × All (λ e. is_ack e ≡ true) handled.1

ack_chunks_quiet :
    (p : Packet) (held : List ℕ) (sender : Text)
    → All (λ e. is_ack e ≡ true) (ack_chunks p held sender)
ack_chunks_quiet p held sender = elim (Bool-cases (ltb_ℤ (pos 1) p.chunk_total)) [
  | inl long ↦ rw long (refl, tt)
  | inr short ↦ rw short tt
]

not_sync : (n : ℕ) → is_checked (kind_of n) ≡ true → (n == 7) ≡ false
unfolding is_checked kind_of find
not_sync n h = elim (Bool-cases (n == 7)) [
  | inl seven ↦
      let e : n ≡ 7 = ground (arith, seven) in
      let wrong : is_checked (kind_of 7) ≡ true = subst (λ k. is_checked (kind_of k) ≡ true) e h in
      cc
  | inr not_seven ↦ not_seven
]

module _ {A : Type 0} (now : Local) where
  handle_message_foreign :
      (kind : Kind) (msg_id : ℕ) (m : Message) (sender : Text) (tr : Transport A)
      → is_checked kind ≡ true
      → is_ours tr.genesis_hash m.genesis ≡ false
      → handle_message now kind msg_id m sender tr ≡ (tr, [])
  unfolding handle_message is_checked is_unchecked dispatch handle_ping
  handle_message_foreign ping msg_id m sender tr c h = rw h refl
  handle_message_foreign pong msg_id m sender tr c h = cc
  handle_message_foreign peers msg_id m sender tr c h = rw h refl
  handle_message_foreign block msg_id m sender tr c h = rw h refl
  handle_message_foreign tx msg_id m sender tr c h = rw h refl
  handle_message_foreign getsync msg_id m sender tr c h = rw h refl
  handle_message_foreign sync msg_id m sender tr c h = cc
  handle_message_foreign ack msg_id m sender tr c h = cc
  handle_message_foreign punch_req msg_id m sender tr c h = rw h refl
  handle_message_foreign punch_go msg_id m sender tr c h = rw h refl
  handle_message_foreign getinfo msg_id m sender tr c h = rw h refl
  handle_message_foreign info msg_id m sender tr c h = rw h refl
  handle_message_foreign unknown msg_id m sender tr c h = rw h refl

  module _ (decode_sync : Bytes → Option A) (decode : Bytes → Option Message)
      (tr : Transport A) where
    -- The bytes decode to nothing, or to a message of another network.
    abbrev pub IsForeign : Bytes → Type 0
    IsForeign bytes =
        (m : Message) → decode bytes ≡ some m → is_ours tr.genesis_hash m.genesis ≡ false

    -- What the reassembly makes of a packet: the table, and the message that it completes, if any.
    abbrev pub fed : Packet → Text → Reassembler × Result (Option Bytes)
    fed p sender =
        feed now.mono (sender, p.msg_id) p.chunk_idx p.chunk_total p.payload tr.reassembler

    handle_complete-IsQuiet :
        (p : Packet) (sender : Text) (complete : Option Bytes) (r : Reassembler)
        → is_checked (kind_of p.msg_type) ≡ true
        → ((full : Bytes) → complete ≡ some full → IsForeign full)
        → IsQuiet tr (
            handle_complete now decode_sync decode p sender complete
              (record tr { reassembler = r }))
    unfolding handle_complete
    handle_complete-IsQuiet p sender none r c foreign = ((r, refl), ack_chunks_quiet p _ sender)
    handle_complete-IsQuiet p sender (some full) r c foreign = elim (Option-cases (decode full)) [
      | inl garbled ↦ rw (handle_complete, garbled) ((r, refl), ack_chunks_quiet p _ sender)
      | inr (m, decoded) ↦
          let still =
            handle_message_foreign (kind_of p.msg_type) p.msg_id m sender
              (record tr { reassembler = r }) c (foreign full refl m decoded) in
          let only = append-nil (ack_chunks p (all_indices p.chunk_total) sender) in
          rw (handle_complete, decoded, still, only) ((r, refl), ack_chunks_quiet p _ sender)
    ]

    -- A datagram with a header, of a kind whose network is checked: if the message that it completes,
    -- if it completes one, does not decode to a message of this network, then it changes nothing but
    -- the table of incomplete messages, and nothing is sent or called but acknowledgements of chunks.
    pub handle_datagram_foreign :
        (datagram : Bytes) (sender : Text) (p : Packet)
        → unpack datagram ≡ some p
        → is_checked (kind_of p.msg_type) ≡ true
        → ((full : Bytes) → (fed p sender).1 ≡ ok (some full) → IsForeign full)
        → IsQuiet tr (handle_datagram now decode_sync decode datagram sender tr)
    unfolding handle_datagram handle_packet
    handle_datagram_foreign datagram sender p e c foreign = elim (Result-cases (fed p sender).1) [
      | inl (complete, done) ↦
          rw (handle_datagram, e, handle_packet, not_sync p.msg_type c, done)
            (handle_complete-IsQuiet p sender complete (fed p sender).0 c
              (λ full whole. foreign full (done ∙ ap ok whole)))
      | inr (inl (reason, refused)) ↦
          rw (handle_datagram, e, handle_packet, not_sync p.msg_type c, refused)
            (((fed p sender).0, refl), tt)
      | inr (inr (exception, raised)) ↦
          rw (handle_datagram, e, handle_packet, not_sync p.msg_type c, raised)
            (((fed p sender).0, refl), tt)
    ]
