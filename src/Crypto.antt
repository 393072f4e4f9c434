-- ===== src/Crypto.antt =====
-- src/crypto.py: addresses, hashes and signatures, over the primitives of `Env`.
pub mod Address
use echocoin_core.Prelude.{
  ℕ, zero, suc, ◌+◌, ◌*◌, ◌/◌, ◌%◌, ◌^◌, ◌-◌, Bool, false, true, ◌&&◌, Option, none, some, List, [],
  ◌∷◌, ◌++◌, Text, text_eq, ◌==◌, if◌then◌else◌, length, take, get_elem?, Result, ok, raise,
  index_error, ◌>>=◌,
}
use mathlib.Core.List.{reverse, foldl}
use echocoin_core.Params.{address_word_count, word_bits}
use echocoin_core.Wire.{Field, given, Tx, absent}
use echocoin_core.Env.{Bytes, Env}

-- The code point of ".".
abbrev pub dot : ℕ
dot = b'.'

abbrev pub cons_head : ℕ → List Text → List Text
cons_head c [] = (c ∷ []) ∷ []
cons_head c (w ∷ ws) = (c ∷ w) ∷ ws

-- `s.split(".")`
unfoldable pub split : Text → List Text
split [] = [] ∷ []
split (c ∷ cs) = if c == dot then [] ∷ split cs else cons_head c (split cs)

-- `".".join(words)`
unfoldable pub join : List Text → Text
join [] = []
join (w ∷ []) = w
join (w ∷ v ∷ ws) = w ++ dot ∷ join (v ∷ ws)

-- `w in words`
unfoldable pub mem : Text → List Text → Bool
mem w [] = false
mem w (v ∷ vs) = if text_eq w v then true else mem w vs

-- `all(w in words for w in ws)`
unfoldable pub all_mem : List Text → List Text → Bool
all_mem [] words = true
all_mem (w ∷ ws) words = mem w words && all_mem ws words

-- int.from_bytes(b, "big")
unfoldable pub from_bytes : Bytes → ℕ
from_bytes = foldl (λ acc b. acc * 256 + b) 0

module _ (env : Env) where
  open env use {sha256, hex, tx_json, falcon_verify, words}

  unfoldable pub sha256_hex : Bytes → Text
  sha256_hex data_bytes = hex (sha256 data_bytes)

  -- The loop of `public_key_to_address`, with the rounds left and the words so far.
  unfoldable pub address_words : ℕ → ℕ → List Text → Result (List Text)
  address_words zero bits found = ok found
  address_words (suc n) bits found = elim (get_elem? words (bits % 2 ^ word_bits)) [
    | none ↦ raise index_error
    | some w ↦ address_words n (bits / 2 ^ word_bits) (found ++ w ∷ [])
  ]

  unfoldable pub public_key_to_address : Bytes → Result Text
  public_key_to_address public_key = do
    let bits =
        from_bytes (take 17 (sha256 public_key)) / 2 ^ (17 * 8 - address_word_count * word_bits)
    found ← address_words address_word_count bits []
    ok (join (reverse found))

  unfoldable pub is_valid_address : Text → Bool
  is_valid_address addr =
      let ws = split addr in if length ws == address_word_count then all_mem ws words else false

  -- `is_valid_address` of a value that may be no `str`.
  abbrev pub is_valid_address_value : Field Text → Bool
  is_valid_address_value (given addr) = is_valid_address addr
  is_valid_address_value _ = false

  unfoldable pub verify : Bytes → Bytes → Bytes → Bool
  verify message signature public_key = elim (falcon_verify message signature public_key) [
    | none ↦ false
    | some b ↦ b
  ]

  -- canonical_json of the fields but "signature"
  unfoldable pub serialize_for_signing : Tx → Bytes
  serialize_for_signing t = tx_json (record t { signature = absent })
