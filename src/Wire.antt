-- ===== src/Wire.antt =====
-- The dicts that travel and are stored: transactions (src/tx.py `create`) and blocks (src/block.py
-- `create`). A field that the code tests may be absent, or hold a value of another type.
use echocoin_core.Prelude.{
  ◌≡◌, Bool, false, true, List, Text, ℕ, ◌*◌, ℤ, pos, ◌+ℤ◌, ◌-ℤ◌, ltb_ℤ, Result, ok, raise,
  key_error, type_error,
}

-- `d[k]` of a dict: the key is missing, the value has another type, or it is as the code expects.
pub data Field (A : Type 0) : Type 0 where
  absent : Field A
  other : Field A
  given : A → Field A

module _ {A : Type 0} where
  -- `d[k]`, used as an `A`.
  abbrev pub need : Field A → Result A
  need absent = raise key_error
  need other = raise type_error
  need (given a) = ok a

  -- `d.get(k, a)`, used as an `A`.
  abbrev pub need_or : A → Field A → Result A
  need_or d absent = ok d
  need_or d other = raise type_error
  need_or d (given a) = ok a

  -- `k in d`
  abbrev pub is_present : Field A → Bool
  is_present absent = false
  is_present _ = true

pub need-eq-ok : {A : Type 0} (f : Field A) {a : A} → need f ≡ ok a → f ≡ given a
need-eq-ok absent h = cc
need-eq-ok other h = cc
need-eq-ok (given b) h = cc

-- An entry of "outputs": a dict; a `str` or a list, with what `"to" in out and "amount" in out`
-- says of it; or a value on which `in` raises.
pub data Output : Type 0 where
  output : Field Text → Field ℤ → Output
  sequence : Bool → Output
  scalar : Output

-- A transaction. Integers are Python's, and a bool counts as 0 or 1; `extra` stands for all other
-- keys, which only the serialization reads.
pub record Tx : Type 0 where
  pub from : Field Text
  pub pubkey : Field Text
  pub outputs : Field (List Output)
  pub nonce : Field ℤ
  pub fee : Field ℤ
  pub signature : Field Text
  pub extra : List (Text × Text)

-- An entry of a block's "transactions".
pub data Entry : Type 0 where
  tx_entry : Tx → Entry
  not_dict : Entry

-- A `float` or `int` of seconds, in units of 2^-22 s: between 2^30 and 2^31, where the clock is,
-- every double is such a number, so sums and comparisons there are exact. MessagePack also
-- carries a NaN, which no comparison holds of.
pub data Time : Type 0 where
  at : ℤ → Time
  nan : Time

-- A number of seconds.
abbrev pub seconds : ℕ → Time
seconds n = at (pos (n * 4194304))

abbrev pub time_add : Time → Time → Time
time_add (at a) (at b) = at (a +ℤ b)
time_add _ _ = nan

abbrev pub time_sub : Time → Time → Time
time_sub (at a) (at b) = at (a -ℤ b)
time_sub _ _ = nan

-- `a < b`, which a NaN never fulfils.
abbrev pub time_ltb : Time → Time → Bool
time_ltb (at a) (at b) = ltb_ℤ a b
time_ltb _ _ = false

-- A block without its "hash". Its transactions are what iterating over them yields: the characters
-- of a text and the keys of a dict are `not_dict`, an empty one has no entries, and `other` is what
-- cannot be iterated over. A VDF output that is `other` counts as false, as None does. `extra`
-- stands for all other keys, and for what else only the serialization reads.
pub record Body : Type 0 where
  pub height : ℤ
  pub previous_hash : Text
  pub timestamp : Field Time
  pub transactions : Field (List Entry)
  pub builder : Field Text
  pub vdf_output : Field Text
  pub vdf_proof : Field Text
  pub vdf_iterations : Field ℤ
  pub extra : List (Text × Text)

pub record Block : Type 0 where
  pub body : Body
  pub open body use *
  pub hash : Text
