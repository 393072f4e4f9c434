-- ===== src/Crypto/Address.antt =====
-- The address of a public key, and the test of addresses.
use mathlib.Core.List.{reverse, reverse-cons}
use echocoin_core.Prelude.{
  ℕ, zero, suc, ◌+◌, ◌%◌, ◌^◌, ◌/◌, ◌<◌, ◌≡◌, refl, true, false, some, List, [], ◌∷◌, ◌++◌, Text,
  text_eq_refl, ◌==◌, length, get_elem?, take, All, ok, arith, length-append,
}
use echocoin_core.Params.{word_bits}
use echocoin_core.Env.{Bytes, Env}
use echocoin_core.Crypto.{
  dot, split, join, mem, all_mem, from_bytes, address_words, public_key_to_address,
  is_valid_address,
}

-- A word holds no dot.
abbrev pub NoDot : Text → Type 0
NoDot = All (λ c. (c == dot) ≡ false)

split-word : (w : Text) → NoDot w → split w ≡ w ∷ []
unfolding split
split-word [] h = refl
split-word (c ∷ w) h = rw (h.0, split-word w h.1)

split-append : (w s : Text) → NoDot w → split (w ++ dot ∷ s) ≡ w ∷ split s
unfolding split
split-append [] s h = refl
split-append (c ∷ w) s h = rw (h.0, split-append w s h.1)

-- Splitting undoes joining.
pub split-join : (w : Text) (ws : List Text) → All NoDot (w ∷ ws) → split (join (w ∷ ws)) ≡ w ∷ ws
unfolding join
split-join w [] h = split-word w h.0
split-join w (v ∷ ws) h = rw (split-append w (join (v ∷ ws)) h.0, split-join v ws h.1)

-- A listed word without a dot.
abbrev Listed : List Text → Text → Type 0
Listed words w = NoDot w × (mem w words ≡ true)

get_elem?-Listed :
    (words : List Text) (i : ℕ)
    → All NoDot words
    → i < length words
    → (w : Text) × (get_elem? words i ≡ some w) × Listed words w
unfolding mem
get_elem?-Listed [] i h lt = elim lt [ ]
get_elem?-Listed (v ∷ words) zero h lt = (v, refl, (h.0, rw text_eq_refl))
get_elem?-Listed (v ∷ words) (suc i) h lt =
    let (w, e, l) = get_elem?-Listed words i h.1 (omega arith) in (w, e, (l.0, ground (arith, l.1)))

All-append : (P : Text → Type 0) (xs : List Text) (y : Text) → All P xs → P y → All P (xs ++ y ∷ [])
All-append P [] y h p = (p, tt)
All-append P (x ∷ xs) y h p = (h.0, All-append P xs y h.1 p)

All-reverse : (P : Text → Type 0) (xs : List Text) → All P xs → All P (reverse xs)
All-reverse P [] h = tt
All-reverse P (x ∷ xs) h =
    rw (reverse-cons x xs) (All-append P (reverse xs) x (All-reverse P xs h.1) h.0)

length-reverse : (xs : List Text) → length (reverse xs) ≡ length xs
length-reverse [] = refl
length-reverse (x ∷ xs) =
    rw (reverse-cons x xs) (omega (arith, length-append (reverse xs) (x ∷ []), length-reverse xs))

All-Listed :
    (words ws : List Text) → All (Listed words) ws → All NoDot ws × (all_mem ws words ≡ true)
unfolding all_mem
All-Listed words [] h = (tt, refl)
All-Listed words (w ∷ ws) h =
    let (dots, listed) = All-Listed words ws h.1 in ((h.0.0, dots), rw (h.0.1, listed))

module _ (env : Env) (full : length env.words ≡ 2 ^ word_bits) (plain : All NoDot env.words) where
  address_words-Listed :
      (n bits : ℕ) (found : List Text)
      → All (Listed env.words) found
      → (ws : List Text) × (address_words env n bits found ≡ ok ws)
        × All (Listed env.words) ws
        × (length ws ≡ length found + n)
  unfolding address_words
  address_words-Listed zero bits found h = (found, refl, h, omega arith)
  address_words-Listed (suc n) bits found h =
      let (w, e, l) =
        get_elem?-Listed env.words (bits % 2 ^ word_bits) plain (omega (arith, full)) in
      let (ws, r, all, len) =
        address_words-Listed n (bits / 2 ^ word_bits) (found ++ w ∷ [])
          (All-append (Listed env.words) found w h l) in
      (ws, rw (e, address_words) r, all, omega (arith, len, length-append found (w ∷ [])))

  joined :
      (ws : List Text) (n : ℕ)
      → All (Listed env.words) ws
      → length ws ≡ suc n
      → split (join ws) ≡ ws
  joined [] n h e = absurd (omega arith)
  joined (w ∷ ws) n h e = split-join w ws (All-Listed env.words (w ∷ ws) h).0

  -- With 2048 words that hold no dot, a public key's address is computed without an exception,
  -- and `is_valid_address` accepts it.
  pub public_key_to_address-is_valid_address :
      (key : Bytes)
      → (addr : Text) × (public_key_to_address env key ≡ ok addr)
        × (is_valid_address env addr ≡ true)
  unfolding public_key_to_address is_valid_address
  public_key_to_address-is_valid_address key =
      let (ws, e, all, len) =
        address_words-Listed 12 (from_bytes (take 17 (env.sha256 key)) / 2 ^ 4) [] tt in
      let back : All (Listed env.words) (reverse ws) = All-reverse (Listed env.words) ws all in
      let twelve : length (reverse ws) ≡ 12 = omega (arith, len, length-reverse ws) in
      (
        join (reverse ws),
        rw e,
        rw (joined (reverse ws) 11 back twelve, twelve) (All-Listed env.words (reverse ws) back).1,
      )
