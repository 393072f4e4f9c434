-- ===== src/Udp/Reassembler.antt =====
-- `_Reassembler` of src/peer_udp.py. A message is known by its sender and its id; `mono` is
-- time.monotonic() in units of 2^-22 seconds.
use echocoin_core.Prelude.{
  ℕ, zero, suc, ◌+◌, ◌||◌, Option, none, some, List, [], ◌∷◌, ◌++◌, map, ℤ, pos, ◌-ℤ◌, leb_ℤ, ltb_ℤ,
  eqb_ℤ, Text, if◌then◌else◌, length, Result, ok, reject, raise, key_error, ◌>>=◌,
}
use echocoin_core.Env.{Bytes}
use echocoin_core.Table.{Table, find, put, drop_key, number_key, pair_key}
use echocoin_core.Udp.Packet.{max_chunk_total}

abbrev pub MessageKey : Type 0
MessageKey = Text × ℕ

-- A message of which chunks are missing.
pub record Partial : Type 0 where
  pub total : ℤ
  pub ts : ℤ
  pub chunks : Table ℕ Bytes

abbrev pub Reassembler : Type 0
Reassembler = Table MessageKey Partial

-- `b"".join(rec[i] for i in range(...))`, for `n` indices from `i` on.
unfoldable pub join_chunks : ℕ → ℕ → Table ℕ Bytes → Result Bytes
join_chunks zero i chunks = ok []
join_chunks (suc n) i chunks = do
  chunk ← (elim (find i chunks) [ none ↦ raise key_error | some c ↦ ok c ])
  rest ← join_chunks n (i + 1) chunks
  ok (chunk ++ rest)

abbrev pub join_total : ℤ → Table ℕ Bytes → Result Bytes
join_total (pos n) chunks = join_chunks n 0 chunks
join_total _ chunks = ok []

-- `_pending[key]`, made for a new key, with the chunk in it.
unfoldable pub with_chunk : ℤ → ℤ → ℕ → Bytes → Option Partial → Partial
with_chunk mono chunk_total chunk_idx payload none = record {
  total = chunk_total;
  ts = mono;
  chunks = put chunk_idx payload [];
}
with_chunk mono chunk_total chunk_idx payload (some rec) = record rec {
  chunks = put chunk_idx payload rec.chunks;
}

-- A message that is complete leaves the table; a KeyError leaves it there.
unfoldable pub finish : MessageKey → Partial → Reassembler → Reassembler × Result (Option Bytes)
finish key rec pending =
    let stored = put key rec pending in
    if eqb_ℤ (pos (length rec.chunks)) rec.total
    then (elim (join_total rec.total rec.chunks) [
      | ok full ↦ (drop_key key stored, ok (some full))
      | reject e ↦ (stored, reject e)
      | raise e ↦ (stored, raise e)
    ])
    else (stored, ok none)

unfoldable pub feed :
    ℤ → MessageKey → ℕ → ℤ → Bytes → Reassembler → Reassembler × Result (Option Bytes)
feed mono key chunk_idx chunk_total payload pending =
    if eqb_ℤ chunk_total (pos 1)
    then (pending, ok (some payload))
    else if leb_ℤ chunk_total (pos 0) || ltb_ℤ (pos max_chunk_total) chunk_total
    then (pending, ok none)
    else finish key (with_chunk mono chunk_total chunk_idx payload (find key pending)) pending

-- `[k for k, v in self._pending.items() if v["ts"] < cutoff]`
unfoldable pub stale_keys : ℤ → Reassembler → List MessageKey
stale_keys cutoff [] = []
stale_keys cutoff (e ∷ pending) =
    if ltb_ℤ e.1.ts cutoff then e.0 ∷ stale_keys cutoff pending else stale_keys cutoff pending

unfoldable pub drop_keys : List MessageKey → Reassembler → Reassembler
drop_keys [] pending = pending
drop_keys (k ∷ ks) pending = drop_keys ks (drop_key k pending)

unfoldable pub evict_stale : ℤ → ℤ → Reassembler → Reassembler
evict_stale mono max_age pending = drop_keys (stale_keys (mono -ℤ max_age) pending) pending

unfoldable pub held_chunks : MessageKey → Reassembler → List ℕ
held_chunks key pending = elim (find key pending) [
  | none ↦ []
  | some rec ↦ map (λ e. e.0) rec.chunks
]
