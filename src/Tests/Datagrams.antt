-- ===== src/Tests/Datagrams.antt =====
-- The theorems about the datagrams between peers at concrete inputs.
use echocoin_core.Udp.Reassembler.{feed}
use echocoin_core.Prelude.{
  Option, ℕ, zero, suc, ◌≡◌, ◌≢◌, ◌≤◌, ◌<◌, refl, if◌then◌else◌, ◌*◌, true, false, some, none, List,
  [], ◌∷◌, ℤ, pos, negsuc, ◌+ℤ◌, ◌-ℤ◌, ◌≤ℤ◌, scale, All, Text, codes, length, take, ok, inl, arith,
  text_eq, ◌==◌,
}
use echocoin_core.Env.{Bytes}
use echocoin_core.Dict.{get}
use echocoin_core.Wire.{given, absent}
use echocoin_core.PeerPool.{units, new_pool}
use echocoin_core.Table.{find, holds, pair_key}
use echocoin_core.Udp.Packet.{Packet, slices, chunk_count, split, unpack}
use echocoin_core.Udp.Delivery.{Arrival, arrive, arrive_all, is_sent}
use echocoin_core.Udp.RoundTrip.{arrive-split}
use echocoin_core.Udp.RateLimit.{rate_limit_per_sec, rate_limit_burst, Bucket}
use echocoin_core.Udp.RateLimit.Starved.{answers, answers_hasty}
use echocoin_core.Udp.RateLimit.Bound.{passed, passed-le}
use echocoin_core.Udp.Serving.{served, max_sync_blocks, length-served, IsOrdinary}
use echocoin_core.Udp.Sending.{Ack, Sends, retransmit_until_acked, chunk_ack_max_rounds}
use echocoin_core.Udp.Sending.Retransmit.{count_all, chunks_of, retransmit_until_acked-ends}
use echocoin_core.Udp.Dispatch.{Transport, Local, Message, handle_datagram, kind_of, is_ours}
use echocoin_core.Udp.Dispatch.Foreign.{
  fed, IsForeign, IsQuiet, is_checked, handle_datagram_foreign,
}
use echocoin_core.Tests.Toy.{block_one}

abbrev home : Text
home = codes "10.0.0.1"

abbrev message_key : Text × ℕ
message_key = (home, 7)

abbrev repeat : ℕ → Bytes
repeat zero = []
repeat (suc n) = 5 ∷ repeat n

-- 1401 bytes, which are two chunks.
abbrev payload : Bytes
payload = repeat 1401

abbrev first_part : Arrival
first_part = record {
  time = pos 0;
  key = message_key;
  idx = 0;
  total = pos 2;
  payload = repeat 1400;
}

abbrev second_part : Arrival
second_part = record { time = pos 1; key = message_key; idx = 1; total = pos 2; payload = repeat 1 }

only_first :
    (i : ℕ)
    → i < 2
    → i ≢ 1
    → is_sent message_key (split payload) i (first_part ∷ first_part ∷ []) ≡ true
unfolding is_sent text_eq
only_first zero small apart = refl
only_first (suc zero) small apart = absurd (apart refl)
only_first (suc (suc i)) small apart = absurd (omega (arith, small))

arrive-split_example :
    ((arrive second_part (arrive_all (first_part ∷ first_part ∷ []) [])).1 ≡ ok (some payload))
    × (find message_key (arrive second_part (arrive_all (first_part ∷ first_part ∷ []) [])).0
        ≡ none)
unfolding split slices chunk_count find is_sent text_eq
arrive-split_example =
    arrive-split message_key payload (first_part ∷ first_part ∷ []) second_part [] (omega arith)
      (omega arith) tt refl
      (
        inl (record { ours = refl; total = refl; chunk = refl }),
        (inl (record { ours = refl; total = refl; chunk = refl }), tt),
      )
      (record { ours = refl; total = refl; chunk = refl }) (omega arith) refl only_first

abbrev empty_bucket : Bucket
empty_bucket = record { tokens = pos 0; last = pos 0 }

-- Three datagrams, one unit of the clock apart.
answers_hasty_example :
    All
      (λ allowed. allowed ≡ false)
      (answers home (pos 1 ∷ pos 2 ∷ pos 3 ∷ []) ((home, empty_bucket) ∷ []))
unfolding get text_eq scale ◌+ℤ◌ ◌-ℤ◌
answers_hasty_example =
    answers_hasty home (pos 1 ∷ pos 2 ∷ pos 3 ∷ []) ((home, empty_bucket) ∷ []) empty_bucket refl
      (omega arith, (omega arith, (omega arith, tt)))

-- Two datagrams within a second, and one of another source between them.
abbrev arrivals : List (ℤ × Text)
arrivals = (pos 0, home) ∷ (pos 5, codes "10.0.0.2") ∷ (units 1, home) ∷ []

passed-le_example :
    units (passed home arrivals [])
    ≤ℤ units rate_limit_burst +ℤ scale (units 2 -ℤ pos 0) rate_limit_per_sec
unfolding get
passed-le_example =
    passed-le (pos 0) (units 2) home arrivals [] tt tt
      (omega arith, (omega arith, (omega arith, omega arith)))

length-served_example :
    (IsOrdinary (given (pos 3))
      → length (served (block_one ∷ block_one ∷ []) absent (given (pos 3))) ≤ max_sync_blocks)
    × (served (block_one ∷ block_one ∷ []) absent (given (negsuc 1))
        ≡ take 1 (block_one ∷ block_one ∷ []))
length-served_example = length-served (block_one ∷ block_one ∷ []) absent (given (pos 3)) 0

abbrev pending_sends : Sends
pending_sends =
    (
      message_key,
      record {
        chunks = (0, repeat 2) ∷ (1, repeat 1) ∷ [];
        acked = [];
        msg_type = 4;
        event = false;
      },
    )
    ∷ []

-- The first chunk is acknowledged while the first round waits, and nothing after that.
abbrev acks : ℕ → List Ack
acks n = if n == 3 then (home, (given (pos 7), given (given (pos 0) ∷ []))) ∷ [] else []

retransmit_until_acked-ends_example :
    (find message_key (retransmit_until_acked acks message_key pending_sends).0 ≡ none)
    × (count_all (retransmit_until_acked acks message_key pending_sends).1
        ≤ chunk_ack_max_rounds * length (chunks_of (find message_key pending_sends)))
unfolding holds
retransmit_until_acked-ends_example =
    retransmit_until_acked-ends acks message_key pending_sends (refl, tt)

abbrev transport : Transport Bytes
transport = record {
  genesis_hash = codes "a";
  pool = new_pool 8;
  seen = [];
  reassembler = [];
  pending_sync = [];
  sends = [];
  pongs = [];
  infos = [];
}

abbrev local : Local
local = record {
  mono = pos 0;
  wall = pos 0;
  chain = block_one ∷ [];
  tip = record { height = given (pos 1); tip_hash = []; wallet = []; version = [] };
}

-- A message of the network "b", with a block.
abbrev foreign_block : Message
foreign_block = record {
  genesis = given (codes "b");
  from = [];
  observed = [];
  peers = [];
  block = some block_one;
  tx = none;
  remaining_hops = pos 0;
  is_stem = false;
  target = [];
  from_h = absent;
  to_h = absent;
  height = absent;
  tip_hash = [];
  wallet = [];
  version = [];
  acked_msg_id = absent;
  acked_chunks = absent;
}

abbrev datagram : Bytes
datagram = 4 ∷ 0 ∷ 0 ∷ 0 ∷ 9 ∷ 0 ∷ 0 ∷ 0 ∷ 1 ∷ 3 ∷ []

abbrev packet : Packet
packet = record { msg_type = 4; msg_id = 9; chunk_idx = 0; chunk_total = pos 1; payload = 3 ∷ [] }

-- The payload 3 is the block of the other network, any other one is a block of this network.
abbrev decoded : Bytes → Option Message
decoded [] = none
decoded (b ∷ bs) =
    some (if b == 3 then foreign_block else record foreign_block { genesis = given (codes "a") })

foreign_lem :
    (full : Bytes)
    → (fed local (λ bytes. some bytes) decoded transport packet home).1 ≡ ok (some full)
    → IsForeign local (λ bytes. some bytes) decoded transport full
unfolding is_ours text_eq feed find
foreign_lem full whole m e =
    let this : 3 ∷ [] ≡ full = cc in
    let same : some foreign_block ≡ some m = rw (← this) at e in
    let sent : foreign_block ≡ m = cc in rw (← sent) refl

handle_datagram_foreign_example :
    IsQuiet transport (handle_datagram local (λ bytes. some bytes) decoded datagram home transport)
unfolding unpack is_checked kind_of find
handle_datagram_foreign_example =
    handle_datagram_foreign local (λ bytes. some bytes) decoded transport datagram home packet refl
      refl foreign_lem
