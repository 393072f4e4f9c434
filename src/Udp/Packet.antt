-- ===== src/Udp/Packet.antt =====
-- The datagrams of src/peer_udp.py: their header, and the chunks of a payload.
use echocoin_core.Prelude.{
  ℕ, zero, suc, ◌+◌, ◌*◌, ◌/◌, ◌%◌, ◌-◌, ◌^◌, Bool, ◌&&◌, Option, none, some, List, [], ◌∷◌, ℤ, pos,
  negsuc, ltb, if◌then◌else◌, length, take, drop, Result, ok, raise, struct_error,
}
use echocoin_core.Env.{Bytes}

abbrev pub max_chunk_size : ℕ
max_chunk_size = 1400

abbrev pub max_chunk_total : ℕ
max_chunk_total = 2000

-- The header's fields, in the format "!BIHh", and what follows it.
pub record Packet : Type 0 where
  pub msg_type : ℕ
  pub msg_id : ℕ
  pub chunk_idx : ℕ
  pub chunk_total : ℤ
  pub payload : Bytes

-- "H" and "I" in network order.
abbrev pub bytes_2 : ℕ → Bytes → Bytes
bytes_2 n rest = n / 256 ∷ n % 256 ∷ rest

abbrev pub bytes_4 : ℕ → Bytes → Bytes
bytes_4 n rest = n / 16777216 ∷ n / 65536 % 256 ∷ n / 256 % 256 ∷ n % 256 ∷ rest

-- The two's complement of "h".
abbrev pub unsigned_16 : ℤ → ℕ
unsigned_16 (pos n) = n
unsigned_16 (negsuc n) = 65535 - n

abbrev pub signed_16 : ℕ → ℤ
signed_16 n = if ltb n 32768 then pos n else negsuc (65535 - n)

abbrev pub fits_16 : ℤ → Bool
fits_16 (pos n) = ltb n 32768
fits_16 (negsuc n) = ltb n 32768

-- `struct.pack` raises where a field is out of range.
unfoldable pub pack : Packet → Result Bytes
pack p =
    if ltb p.msg_type 256 && ltb p.msg_id (2 ^ 32) && ltb p.chunk_idx 65536 && fits_16 p.chunk_total
    then ok (
        p.msg_type
        ∷ bytes_4 p.msg_id (bytes_2 p.chunk_idx (bytes_2 (unsigned_16 p.chunk_total) p.payload)))
    else raise struct_error

-- None for less than the 9 bytes of a header.
unfoldable pub unpack : Bytes → Option Packet
unpack (t ∷ i3 ∷ i2 ∷ i1 ∷ i0 ∷ c1 ∷ c0 ∷ n1 ∷ n0 ∷ payload) = some (record {
  msg_type = t;
  msg_id = i3 * 16777216 + i2 * 65536 + i1 * 256 + i0;
  chunk_idx = c1 * 256 + c0;
  chunk_total = signed_16 (n1 * 256 + n0);
  payload = payload;
})
unpack _ = none

-- The slices `payload[i:i + MAX_CHUNK_SIZE]`, as many as it says.
unfoldable pub slices : ℕ → Bytes → List Bytes
slices zero payload = []
slices (suc n) payload = take max_chunk_size payload ∷ slices n (drop max_chunk_size payload)

-- How many steps `range(0, max(len(payload), 1), MAX_CHUNK_SIZE)` makes.
unfoldable pub chunk_count : ℕ → ℕ
chunk_count len = ((if ltb len 1 then 1 else len) + max_chunk_size - 1) / max_chunk_size

unfoldable pub split : Bytes → List Bytes
split payload = slices (chunk_count (length payload)) payload
