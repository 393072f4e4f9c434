-- ===== src/Udp/Delivery.antt =====
-- A message whose chunks arrive in any order, more than once, and among other messages.
use echocoin_core.Prelude.{
  ℕ, zero, suc, ◌+◌, ◌<◌, ◌≡◌, ◌∙◌, refl, Bool, true, false, ◌&&◌, ◌||◌, Option, some, none, List,
  [], ◌∷◌, ℤ, pos, length, get_elem?, ◌==◌, if◌then◌else◌, Result, ok, arith, Option-cases, inl,
  inr,
}
use echocoin_core.Env.{Bytes}
use echocoin_core.Table.{
  Table, find, holds, IsDistinct, number_key, pair_key, pair_same, find-put, put-IsDistinct,
  not-holds_of_none, holds_of_find,
}
use echocoin_core.Udp.Reassembler.{MessageKey, Partial, Reassembler, join_total, with_chunk, feed}
use echocoin_core.Udp.Chunks.{concat}
use echocoin_core.Udp.Held.{held-length, held_all, held_missing, join_chunks-concat}

-- One call of `feed`.
pub record Arrival : Type 0 where
  pub time : ℤ
  pub key : MessageKey
  pub idx : ℕ
  pub total : ℤ
  pub payload : Bytes

unfoldable pub arrive : Arrival → Reassembler → Reassembler × Result (Option Bytes)
arrive a r = feed a.time a.key a.idx a.total a.payload r

unfoldable pub arrive_all : List Arrival → Reassembler → Reassembler
arrive_all [] r = r
arrive_all (a ∷ rest) r = arrive_all rest (arrive a r).0

module _ (key : MessageKey) (parts : List Bytes) where
  -- A chunk of the message.
  pub record IsPart (a : Arrival) : Type 0 where
    pub ours : a.key ≡ key
    pub total : a.total ≡ pos (length parts)
    pub chunk : get_elem? parts a.idx ≡ some a.payload

  -- Whether a chunk of this message with this index is among the arrivals.
  unfoldable pub is_sent : ℕ → List Arrival → Bool
  is_sent i [] = false
  is_sent i (a ∷ rest) = (pair_same a.key key && (i == a.idx)) || is_sent i rest

  abbrev pub chunks_of : Option Partial → Table ℕ Bytes
  chunks_of none = []
  chunks_of (some rec) = rec.chunks

  abbrev pub HasTotal : Option Partial → Type 0
  HasTotal none = Unit
  HasTotal (some rec) = rec.total ≡ pos (length parts)

  -- The table holds exactly the chunks that `have` says, and of each what the message has there.
  pub record IsHeld (have : ℕ → Bool) (r : Reassembler) : Type 0 where
    pub distinct : IsDistinct r
    pub table : IsDistinct (chunks_of (find key r))
    pub total : HasTotal (find key r)
    pub content :
        (i : ℕ) → find i (chunks_of (find key r)) ≡ (if have i then get_elem? parts i else none)

  -- What `with_chunk` makes of it.
  pub record IsNext (have : ℕ → Bool) (rec : Partial) : Type 0 where
    pub table : IsDistinct rec.chunks
    pub total : rec.total ≡ pos (length parts)
    pub content : (i : ℕ) → find i rec.chunks ≡ (if have i then get_elem? parts i else none)

  pub with_chunk-IsNext :
      (have : ℕ → Bool) (a : Arrival) (r : Reassembler)
      → IsHeld have r
      → IsPart a
      → IsNext
          (λ i. (i == a.idx) || have i)
          (with_chunk a.time a.total a.idx a.payload (find key r))
  unfolding with_chunk
  with_chunk-IsNext have a r h part = by_case (find key r) h.table h.total h.content
    where
      by_case :
          (old : Option Partial)
          → IsDistinct (chunks_of old)
          → HasTotal old
          → ((i : ℕ) → find i (chunks_of old) ≡ (if have i then get_elem? parts i else none))
          → IsNext (λ i. (i == a.idx) || have i) (with_chunk a.time a.total a.idx a.payload old)
      by_case none d t c = record {
        table = put-IsDistinct a.idx a.payload [] tt;
        total = part.total;
        content = λ i. ground (arith, c i, find-put i a.idx a.payload [], part.chunk);
      }
      by_case (some rec) d t c = record {
        table = put-IsDistinct a.idx a.payload rec.chunks d;
        total = t;
        content = λ i. ground (arith, c i, find-put i a.idx a.payload rec.chunks, part.chunk);
      }

  get_elem?-below : (i : ℕ) (c : Bytes) → get_elem? parts i ≡ some c → i < length parts
  get_elem?-below i c h = below parts i h
    where
      below : (ps : List Bytes) (i : ℕ) → get_elem? ps i ≡ some c → i < length ps
      below [] i h = cc
      below (p ∷ ps) zero h = omega arith
      below (p ∷ ps) (suc i) h = omega (arith, below ps i h)

  IsNext-below :
      (have : ℕ → Bool) (rec : Partial)
      → IsNext have rec
      → (i : ℕ) → holds i rec.chunks ≡ true
      → i < length parts
  IsNext-below have rec x i h = elim (Option-cases (find i rec.chunks)) [
    | inl missing ↦ absurd (ground (arith, h, not-holds_of_none i rec.chunks missing))
    | inr (c, e) ↦ get_elem?-below i c (ground (arith, e, x.content i))
  ]

  pub IsNext-short :
      (have : ℕ → Bool) (rec : Partial) (m : ℕ)
      → IsNext have rec
      → m < length parts
      → have m ≡ false
      → length rec.chunks < length parts
  IsNext-short have rec m x b absent =
      let bare : find m rec.chunks ≡ none = ground (arith, absent, x.content m) in
      let counted = held-length (length parts) rec.chunks x.table (IsNext-below have rec x) in
      let few = held_missing (length parts) m rec.chunks b (not-holds_of_none m rec.chunks bare) in
      omega (arith, counted, few)

  get_elem?-in : (i : ℕ) → i < length parts → (c : Bytes) × (get_elem? parts i ≡ some c)
  get_elem?-in i h = inside parts i h
    where
      inside : (ps : List Bytes) (i : ℕ) → i < length ps → (c : Bytes) × (get_elem? ps i ≡ some c)
      inside [] i h = absurd (omega (arith, h))
      inside (p ∷ ps) zero h = (p, refl)
      inside (p ∷ ps) (suc i) h = inside ps i (omega (arith, h))

  pub IsNext-full :
      (have : ℕ → Bool) (rec : Partial)
      → IsNext have rec
      → ((i : ℕ) → i < length parts → have i ≡ true)
      → (length rec.chunks ≡ length parts) × (join_total rec.total rec.chunks ≡ ok (concat parts))
  IsNext-full have rec x all =
      let found : (j k : ℕ) → j < length parts → k ≡ 0 + j → find k rec.chunks ≡ get_elem? parts j =
        λ j k b e.
          let same : k ≡ j = omega (arith, e) in rw same (ground (arith, x.content j, all j b)) in
      let kept : (i : ℕ) → i < length parts → holds i rec.chunks ≡ true = λ i b.
        let (c, e) = get_elem?-in i b in
        holds_of_find i c rec.chunks (found i i b (omega arith) ∙ e) in
      (
        omega (
          arith,
          held-length (length parts) rec.chunks x.table (IsNext-below have rec x),
          held_all (length parts) rec.chunks kept,
        ),
        rw x.total (join_chunks-concat rec.chunks parts 0 (length parts) refl found),
      )
