-- ===== src/Udp/Chunks.antt =====
-- Headers and chunks, out and back.
use echocoin_core.Prelude.{
  ℕ, zero, suc, ◌+◌, ◌*◌, ◌/◌, ◌%◌, ◌≤◌, ◌≡◌, refl, ap, ◌∙◌, true, some, List, [], ◌∷◌, ◌++◌, ℤ,
  pos, negsuc, length, take, drop, take-append-drop, length-drop_le, ok, arith,
}
use echocoin_core.Env.{Bytes}
use echocoin_core.Udp.Packet.{
  Packet, pack, unpack, signed_16, unsigned_16, fits_16, slices, chunk_count, split, max_chunk_size,
}

signed-unsigned :
    (n : ℤ) → fits_16 n ≡ true → signed_16 (unsigned_16 n / 256 * 256 + unsigned_16 n % 256) ≡ n
signed-unsigned (pos n) h = ground arith
signed-unsigned (negsuc n) h = ground arith

-- A header that `_pack` writes is read by `_unpack` as it was, with the same payload behind it.
pub unpack-pack : (p : Packet) (bytes : Bytes) → pack p ≡ ok bytes → unpack bytes ≡ some p
unfolding pack unpack
unpack-pack p bytes h = ground (arith, h, signed-unsigned p.chunk_total)

unfoldable pub concat : List Bytes → Bytes
concat [] = []
concat (c ∷ cs) = c ++ concat cs

concat-slices :
    (n : ℕ) (payload : Bytes)
    → length payload ≤ n * max_chunk_size
    → concat (slices n payload) ≡ payload
unfolding concat slices
concat-slices zero [] h = refl
concat-slices zero (b ∷ bs) h = absurd (omega (arith, h))
concat-slices (suc n) payload h =
    ap (λ bs. take max_chunk_size payload ++ bs)
      (concat-slices n (drop max_chunk_size payload)
        (length-drop_le max_chunk_size (n * max_chunk_size) payload (omega (arith, h))))
    ∙ take-append-drop max_chunk_size payload

enough : (len : ℕ) → len ≤ chunk_count len * max_chunk_size
unfolding chunk_count
enough len = ground arith

pub concat-split : (payload : Bytes) → concat (split payload) ≡ payload
unfolding split
concat-split payload =
    concat-slices (chunk_count (length payload)) payload (enough (length payload))

pub length-slices : (n : ℕ) (payload : Bytes) → length (slices n payload) ≡ n
unfolding slices
length-slices zero payload = refl
length-slices (suc n) payload = omega (arith, length-slices n (drop max_chunk_size payload))
