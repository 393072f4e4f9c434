-- ===== src/Udp/Dispatch.antt =====
-- The receiving side of src/peer_udp.py: `_handle_datagram` and `_dispatch`. What a handler sends, and
-- the callbacks that it makes, come back as a list. Times are as in the peer pool.
pub mod Foreign
use echocoin_core.Prelude.{
  ℕ, zero, suc, ◌+◌, Bool, true, false, not, ◌&&◌, ◌||◌, Option, none, some, List, [], ◌∷◌, ◌++◌,
  map, keep, ℤ, pos, ltb_ℤ, Text, text_eq, ◌==◌, codes, if◌then◌else◌, Result, ok, reject, raise,
}
use echocoin_core.Wire.{Field, given, absent, other, Tx, Block}
use echocoin_core.Env.{Bytes}
use echocoin_core.PeerPool.{PeerPool, touch, get_all}
use echocoin_core.Table.{Table, number_key, find, holds, put}
use echocoin_core.Udp.Packet.{Packet, unpack}
use echocoin_core.Udp.Reassembler.{Reassembler, feed, held_chunks}
use echocoin_core.Udp.Seen.{PendingSync, feed_sync, is_new}
use echocoin_core.Udp.Sending.{Sends, handle_ack}
use echocoin_core.Udp.Serving.{served}

-- A decoded dict, as far as the handlers read it. An address or a text that is missing is empty, as
-- the defaults of `get` have it.
pub record Message : Type 0 where
  pub genesis : Field Text
  pub from : Text
  pub observed : Text
  pub peers : List Text
  pub block : Option Block
  pub tx : Option Tx
  pub remaining_hops : ℤ
  pub is_stem : Bool
  pub target : Text
  pub from_h : Field ℤ
  pub to_h : Field ℤ
  pub height : Field ℤ
  pub tip_hash : Text
  pub wallet : Text
  pub version : Text
  pub acked_msg_id : Field ℤ
  pub acked_chunks : Field (List (Field ℤ))

-- The answer to a GETINFO.
pub record TipInfo : Type 0 where
  pub height : Field ℤ
  pub tip_hash : Text
  pub wallet : Text
  pub version : Text

-- What a handler sends or calls, in order.
pub data Effect : Type 0 where
  send_pong : ℕ → Text → Effect
  send_info : ℕ → TipInfo → Text → Effect
  send_sync : ℕ → List Block → Text → Effect
  send_ack : ℕ → List ℕ → Text → Effect
  send_pings : Text → Effect
  send_punch_go : Text → Text → Effect
  rebroadcast : ℕ → List Text → Effect
  on_peer_hint : Text → Effect
  on_peers : List Text → Text → Effect
  on_block : Block → Text → Effect
  on_tx : Tx → Text → ℕ → ℤ → Bool → Effect
  on_punch_go : Text → Effect

-- The tables of the transport. A waiting ping or info request has an entry; its answer is stored.
pub record Transport (A : Type 0) : Type 0 where
  pub genesis_hash : Text
  pub pool : PeerPool
  pub seen : Table ℕ ℤ
  pub reassembler : Reassembler
  pub pending_sync : Table ℕ (PendingSync A)
  pub sends : Sends
  pub pongs : Table ℕ (Option Text)
  pub infos : Table ℕ (Option TipInfo)

-- What a handler reads: time.monotonic(), time.time(), the chain and the tip of the node.
pub record Local : Type 0 where
  pub mono : ℤ
  pub wall : ℤ
  pub chain : List Block
  pub tip : TipInfo

pub data Kind : Type 0 where
  ping pong peers block tx getsync sync ack punch_req punch_go getinfo info unknown : Kind

-- The message types, 0x01 to 0x0C.
abbrev pub kinds : Table ℕ Kind
kinds =
    (1, ping)
    ∷ (2, pong)
    ∷ (3, peers)
    ∷ (4, block)
    ∷ (5, tx)
    ∷ (6, getsync)
    ∷ (7, sync)
    ∷ (8, ack)
    ∷ (9, punch_req)
    ∷ (10, punch_go)
    ∷ (11, getinfo)
    ∷ (12, info)
    ∷ []

unfoldable pub kind_of : ℕ → Kind
kind_of n = elim (find n kinds) [ none ↦ unknown | some kind ↦ kind ]

-- `data.get("genesis") == self.genesis_hash`
unfoldable pub is_ours : Text → Field Text → Bool
is_ours genesis_hash (given g) = text_eq g genesis_hash
is_ours genesis_hash absent = false
is_ours genesis_hash other = false

-- The tables, and what is sent and called.
abbrev pub Handled : Type 0 → Type 0
Handled A = Transport A × List Effect

-- `announced and self._on_peer_hint`
abbrev pub hint : Text → List Effect
hint [] = []
hint (c ∷ cs) = on_peer_hint (c ∷ cs) ∷ []

-- Both peers are told to punch toward each other.
unfoldable pub handle_punch_req : Text → Text → List Effect
handle_punch_req requester [] = []
handle_punch_req requester (c ∷ cs) =
    send_punch_go requester (c ∷ cs) ∷ send_punch_go (c ∷ cs) requester ∷ []

unfoldable pub handle_punch_go : Text → List Effect
handle_punch_go [] = []
handle_punch_go (c ∷ cs) = send_pings (c ∷ cs) ∷ on_punch_go (c ∷ cs) ∷ []

-- Pings, pongs and acks are not checked for the network.
unfoldable pub is_unchecked : Kind → Bool
is_unchecked ping = true
is_unchecked pong = true
is_unchecked ack = true
is_unchecked _ = false

-- `list(range(n))`, from `i` on
unfoldable pub range_from : ℕ → ℕ → List ℕ
range_from i zero = []
range_from i (suc n) = i ∷ range_from (suc i) n

abbrev pub all_indices : ℤ → List ℕ
all_indices (pos n) = range_from 0 n
all_indices _ = []

-- The acknowledgement of a chunk of a longer message.
abbrev pub ack_chunks : Packet → List ℕ → Text → List Effect
ack_chunks p held sender =
    if ltb_ℤ (pos 1) p.chunk_total then send_ack p.msg_id held sender ∷ [] else []

module _ {A : Type 0} (now : Local) where
  abbrev pub touched : Text → Transport A → Transport A
  touched addr tr = record tr { pool = touch now.wall addr tr.pool }

  unfoldable pub handle_ping : ℕ → Message → Text → Transport A → Handled A
  handle_ping msg_id m sender tr =
      if is_ours tr.genesis_hash m.genesis
      then (touched sender tr, send_pong msg_id sender ∷ hint m.from)
      else (tr, [])

  unfoldable pub handle_pong : ℕ → Message → Transport A → Handled A
  handle_pong msg_id m tr =
      if holds msg_id tr.pongs
      then (record tr { pongs = put msg_id (some m.observed) tr.pongs }, [])
      else (tr, [])

  unfoldable pub handle_block : ℕ → Message → Text → Transport A → Handled A
  handle_block msg_id m sender tr =
      let (seen, is_first) = is_new now.mono msg_id tr.seen in
      let noted = touched sender (record tr { seen = seen }) in
      let targets = keep (λ p. not (text_eq p sender)) (get_all now.mono noted.pool) in
      if is_first
      then (
        noted,
        elim m.block [ none ↦ [] | some b ↦ on_block b sender ∷ rebroadcast msg_id targets ∷ [] ],
      )
      else (tr, [])

  unfoldable pub handle_tx : ℕ → Message → Text → Transport A → Handled A
  handle_tx msg_id m sender tr =
      let (seen, is_first) = is_new now.mono msg_id tr.seen in
      if is_first
      then (
        touched sender (record tr { seen = seen }),
        elim m.tx [ none ↦ [] | some t ↦ on_tx t sender msg_id m.remaining_hops m.is_stem ∷ [] ],
      )
      else (tr, [])

  unfoldable pub handle_getsync : ℕ → Message → Text → Transport A → Handled A
  handle_getsync msg_id m sender tr =
      (touched sender tr, send_sync msg_id (served now.chain m.from_h m.to_h) sender ∷ [])

  unfoldable pub handle_info : ℕ → Message → Text → Transport A → Handled A
  handle_info msg_id m sender tr =
      let known = touched sender tr in
      let answer : TipInfo = record {
        height = m.height;
        tip_hash = m.tip_hash;
        wallet = m.wallet;
        version = m.version;
      } in
      if holds msg_id tr.infos
      then (record known { infos = put msg_id (some answer) tr.infos }, [])
      else (known, [])

  unfoldable pub dispatch : Kind → ℕ → Message → Text → Transport A → Handled A
  dispatch ping msg_id m sender tr = handle_ping msg_id m sender tr
  dispatch pong msg_id m sender tr = handle_pong msg_id m tr
  dispatch peers msg_id m sender tr = (tr, on_peers m.peers sender ∷ [])
  dispatch block msg_id m sender tr = handle_block msg_id m sender tr
  dispatch tx msg_id m sender tr = handle_tx msg_id m sender tr
  dispatch getsync msg_id m sender tr = handle_getsync msg_id m sender tr
  dispatch sync msg_id m sender tr = (tr, [])
  dispatch ack msg_id m sender tr =
      (record tr { sends = handle_ack sender m.acked_msg_id m.acked_chunks tr.sends }, [])
  dispatch punch_req msg_id m sender tr = (tr, handle_punch_req sender m.target)
  dispatch punch_go msg_id m sender tr = (tr, handle_punch_go m.target)
  dispatch getinfo msg_id m sender tr = (touched sender tr, send_info msg_id now.tip sender ∷ [])
  dispatch info msg_id m sender tr = handle_info msg_id m sender tr
  dispatch unknown msg_id m sender tr = (tr, [])

  unfoldable pub handle_message : Kind → ℕ → Message → Text → Transport A → Handled A
  handle_message kind msg_id m sender tr =
      if is_unchecked kind || is_ours tr.genesis_hash m.genesis
      then dispatch kind msg_id m sender tr
      else (tr, [])

  module _ (decode_sync : Bytes → Option A) (decode : Bytes → Option Message) where
    -- A chunk of the answer to a GETSYNC; an exception ends the worker's job.
    unfoldable pub handle_sync : Packet → Text → Transport A → Handled A
    handle_sync p sender tr = elim (find p.msg_id tr.pending_sync) [
      | none ↦ (tr, [])
      | some pending ↦
          let (fed, outcome) = feed_sync decode_sync p.chunk_idx p.chunk_total p.payload pending in
          let stored = record tr { pending_sync = put p.msg_id fed tr.pending_sync } in
          elim outcome [
            | ok u ↦ (stored, ack_chunks p (map (λ e. e.0) fed.chunks) sender)
            | reject e ↦ (stored, [])
            | raise x ↦ (stored, [])
          ]
    ]

    unfoldable pub handle_complete : Packet → Text → Option Bytes → Transport A → Handled A
    handle_complete p sender none tr =
        (tr, ack_chunks p (held_chunks (sender, p.msg_id) tr.reassembler) sender)
    handle_complete p sender (some full) tr = elim (decode full) [
      | none ↦ (tr, ack_chunks p (all_indices p.chunk_total) sender)
      | some m ↦
          let (after, effects) = handle_message (kind_of p.msg_type) p.msg_id m sender tr in
          (after, ack_chunks p (all_indices p.chunk_total) sender ++ effects)
    ]

    unfoldable pub handle_packet : Packet → Text → Transport A → Handled A
    handle_packet p sender tr =
        let (reassembler, outcome) =
          feed now.mono (sender, p.msg_id) p.chunk_idx p.chunk_total p.payload tr.reassembler in
        let fed = record tr { reassembler = reassembler } in
        if p.msg_type == 7 then handle_sync p sender tr else elim outcome [
          | ok complete ↦ handle_complete p sender complete fed
          | reject e ↦ (fed, [])
          | raise x ↦ (fed, [])
        ]

    unfoldable pub handle_datagram : Bytes → Text → Transport A → Handled A
    handle_datagram datagram sender tr = elim (unpack datagram) [
      | none ↦ (tr, [])
      | some p ↦ handle_packet p sender tr
    ]
