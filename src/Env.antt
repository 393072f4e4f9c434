-- ===== src/Env.antt =====
-- What the program calls and does not implement: hashlib, orjson, liboqs, chiavdf, the text of
-- bytes in hex, and the word list that src/crypto.py reads from src/bip39_english.txt.
use echocoin_core.Prelude.{ℕ, Bool, Option, List, Text, ℤ}
use echocoin_core.Wire.{Time, Tx, Body, Block}

abbrev pub Bytes : Type 0
Bytes = List ℕ

pub record Env : Type 0 where
  -- hashlib.sha256(data).digest()
  pub sha256 : Bytes → Bytes
  -- b.hex(), and bytes.fromhex(s), which may raise
  pub hex : Bytes → Text
  pub from_hex : Text → Option Bytes
  -- s.encode()
  pub encode : Text → Bytes
  -- orjson.dumps with sorted keys, of a transaction, a block without its hash, and a block
  pub tx_json : Tx → Bytes
  pub body_json : Body → Bytes
  pub block_json : Block → Bytes
  -- oqs.Signature("Falcon-512").verify(message, signature, public key), which may raise
  pub falcon_verify : Bytes → Bytes → Bytes → Option Bool
  -- the BIP39 words
  pub words : List Text
  -- chiavdf.create_discriminant(challenge, bits), which may raise
  pub create_discriminant : Bytes → ℕ → Option Bytes
  -- chiavdf.verify_n_wesolowski(disc, element, blob, iterations, bits, recursion), which may raise
  pub verify_n_wesolowski : Bytes → Bytes → Bytes → ℤ → ℕ → ℕ → Option Bool
  -- statistics.median of a list that is not empty
  pub median : List Time → Time
  -- a / b < c / d, of two ratios as Python's `/` rounds them
  pub ratio_lt : ℤ × ℕ → ℤ × ℕ → Bool
