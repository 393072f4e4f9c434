-- ===== src/Udp/Serving.antt =====
-- The blocks that a GETSYNC request is answered with: `_handle_getsync` of src/peer_udp.py, and the
-- chain provider of main.py.
use echocoin_core.Prelude.{
  ℕ, zero, suc, ◌+◌, ◌-◌, ◌≤◌, ◌≡◌, refl, false, List, [], ◌∷◌, ℤ, pos, negsuc, ltb_ℤ, ◌+ℤ◌,
  if◌then◌else◌, length, take, drop, arith, int_laws, ◌≤ℤ◌,
}
use echocoin_core.Wire.{Field, given, absent, other, Block}

abbrev pub max_sync_blocks : ℕ
max_sync_blocks = 500

-- `if not isinstance(from_h, int) or from_h < 0: from_h = 0`
unfoldable pub from_height : Field ℤ → ℕ
from_height (given (pos n)) = n
from_height (given (negsuc n)) = 0
from_height absent = 0
from_height other = 0

-- `min(to_h, capped_to)`, or `capped_to` for what is no int
unfoldable pub to_height : ℕ → Field ℤ → ℤ
to_height from_h (given to_h) =
    if ltb_ℤ (pos (from_h + max_sync_blocks - 1)) to_h
    then pos (from_h + max_sync_blocks - 1)
    else to_h
to_height from_h absent = pos (from_h + max_sync_blocks - 1)
to_height from_h other = pos (from_h + max_sync_blocks - 1)

-- Python's `chain[from_h:end]`, where a negative end counts from the back.
unfoldable pub slice_to : List Block → ℕ → ℤ → List Block
slice_to chain from_h (pos end) = take (end - from_h) (drop from_h chain)
slice_to chain from_h (negsuc n) = take (length chain - suc n - from_h) (drop from_h chain)

unfoldable pub chain_provider : List Block → ℕ → ℤ → List Block
chain_provider chain from_h to_h = slice_to chain from_h (to_h +ℤ pos 1)

-- The "chain" of the answer.
unfoldable pub served : List Block → Field ℤ → Field ℤ → List Block
served chain from_h to_h =
    chain_provider chain (from_height from_h) (to_height (from_height from_h) to_h)

length-take_le : (n : ℕ) (chain : List Block) → length (take n chain) ≤ n
length-take_le zero chain = omega arith
length-take_le (suc n) [] = omega arith
length-take_le (suc n) (b ∷ chain) = omega (arith, length-take_le n chain)

slice_to-bound :
    (chain : List Block) (from_h n : ℕ) (end : ℤ)
    → pos 0 ≤ℤ end
    → end ≤ℤ pos (from_h + n)
    → length (slice_to chain from_h end) ≤ n
unfolding slice_to
slice_to-bound chain from_h n (negsuc e) h k = absurd (omega (arith, h))
slice_to-bound chain from_h n (pos e) h k =
    omega (arith, length-take_le (e - from_h) (drop from_h chain), k)

-- What a peer may ask for so that the answer keeps to the cap.
abbrev pub IsOrdinary : Field ℤ → Type 0
IsOrdinary (given to_h) = negsuc 0 ≤ℤ to_h
IsOrdinary absent = Unit
IsOrdinary other = Unit

to_height-bound :
    (from_h : ℕ) (to_h : Field ℤ)
    → IsOrdinary to_h
    → (negsuc 0 ≤ℤ to_height from_h to_h)
      × (to_height from_h to_h ≤ℤ pos (from_h + max_sync_blocks - 1))
unfolding to_height
to_height-bound from_h (given to_h) h = ground (arith, h)
to_height-bound from_h absent h = (omega arith, omega arith)
to_height-bound from_h other h = (omega arith, omega arith)

served_capped :
    (chain : List Block) (from_h to_h : Field ℤ)
    → IsOrdinary to_h
    → length (served chain from_h to_h) ≤ max_sync_blocks
unfolding served chain_provider
served_capped chain from_h to_h h =
    let f = from_height from_h in
    let bound = to_height-bound f to_h h in
    slice_to-bound chain f max_sync_blocks (to_height f to_h +ℤ pos 1) (omega (int_laws, bound.0))
      (omega (int_laws, bound.1))

to_height_back : (n : ℕ) → to_height 0 (given (negsuc (suc n))) +ℤ pos 1 ≡ negsuc n
unfolding to_height
to_height_back n =
    let low : ltb_ℤ (pos (0 + max_sync_blocks - 1)) (negsuc (suc n)) ≡ false = ground arith in
    rw low (omega int_laws)

served_back :
    (chain : List Block) (n : ℕ)
    → served chain absent (given (negsuc (suc n))) ≡ take (length chain - suc n) chain
unfolding served chain_provider from_height slice_to
served_back chain n =
    let same : length chain - suc n - 0 ≡ length chain - suc n = omega arith in
    rw (to_height_back n, same) refl

-- An answer has 500 blocks at most, if the "to_h" of the request is not below -1, is missing or is
-- no integer. With a "to_h" of -(n + 2) and no "from_h" it is the whole chain but its last n + 1
-- blocks, however long that is.
pub length-served :
    (chain : List Block) (from_h to_h : Field ℤ) (n : ℕ)
    → (IsOrdinary to_h → length (served chain from_h to_h) ≤ max_sync_blocks)
      × (served chain absent (given (negsuc (suc n))) ≡ take (length chain - suc n) chain)
length-served chain from_h to_h n = (served_capped chain from_h to_h, served_back chain n)
