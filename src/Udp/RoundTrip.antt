-- ===== src/Udp/RoundTrip.antt =====
-- A payload that is split, sent and put together again, and one that is too long for it.
use echocoin_core.Prelude.{
  ℕ, ◌≤◌, ◌<◌, ◌≡◌, ◌≢◌, ◌⊎◌, ◌∙◌, ap, refl, Bool, true, false, ◌||◌, some, none, List, [], ◌∷◌,
  pos, length, ◌==◌, ok, arith, All, Bool-cases, inl, inr, leb_ℤ, ltb_ℤ, eqb_ℤ,
}
use echocoin_core.Env.{Bytes}
use echocoin_core.Table.{find, IsDistinct, pair_key, pair_same, same_refl}
use echocoin_core.Udp.Packet.{max_chunk_total, max_chunk_size, chunk_count, split}
use echocoin_core.Udp.Reassembler.{MessageKey, Reassembler, feed}
use echocoin_core.Udp.Chunks.{concat, concat-split, length-slices}
use echocoin_core.Udp.Delivery.{Arrival, arrive, arrive_all, IsPart, is_sent, IsHeld}
use echocoin_core.Udp.Steps.{find-arrive, arrive-waits, arrive-completes}

-- A chunk of the message, or one of another message.
abbrev pub IsOursOrForeign : MessageKey → List Bytes → Arrival → Type 0
IsOursOrForeign key parts a = IsPart key parts a ⊎ (pair_same a.key key ≡ false)

module _ (key : MessageKey) (parts : List Bytes) (several : 1 < length parts)
    (allowed : length parts ≤ max_chunk_total) (m : ℕ) (in_range : m < length parts) where
  record Waiting (have : ℕ → Bool) (arrivals : List Arrival) (r : Reassembler) : Type 0 where
    got : ℕ → Bool
    held : IsHeld key parts got (arrive_all arrivals r)
    missing : got m ≡ false
    keeps : (i : ℕ) → (have i || is_sent key parts i arrivals) ≡ true → got i ≡ true

  arrive_all_lem :
      (have : ℕ → Bool) (arrivals : List Arrival) (r : Reassembler)
      → IsHeld key parts have r
      → All (IsOursOrForeign key parts) arrivals
      → have m ≡ false
      → is_sent key parts m arrivals ≡ false
      → Waiting have arrivals r
  unfolding arrive_all is_sent
  arrive_all_lem have [] r h all absent unsent = record {
    got = have;
    held = h;
    missing = absent;
    keeps = λ i k. ground (arith, k);
  }
  arrive_all_lem have (a ∷ rest) r h (inr foreign, all) absent unsent =
      let (same, d) = find-arrive a r key foreign h.distinct in
      let h' : IsHeld key parts have (arrive a r).0 = record {
        distinct = d;
        table = rw same h.table;
        total = rw same h.total;
        content = rw same h.content;
      } in
      let w : Waiting have rest (arrive a r).0 =
        arrive_all_lem have rest (arrive a r).0 h' all absent (ground (arith, unsent, foreign)) in
      record {
        got = w.got;
        held = w.held;
        missing = w.missing;
        keeps = λ i k. w.keeps i (ground (arith, k, foreign));
      }
  arrive_all_lem have (a ∷ rest) r h (inl part, all) absent unsent =
      let ours : pair_same a.key key ≡ true = rw part.ours (same_refl key) in
      let next : ((m == a.idx) || have m) ≡ false = ground (arith, unsent, ours, absent) in
      let (_, h') = arrive-waits key parts several allowed have a r m h part in_range next in
      let w : Waiting (λ i. (i == a.idx) || have i) rest (arrive a r).0 =
        arrive_all_lem (λ i. (i == a.idx) || have i) rest (arrive a r).0 h' all next
          (ground (arith, unsent, ours)) in
      record {
        got = w.got;
        held = w.held;
        missing = w.missing;
        keeps = λ i k. w.keeps i (ground (arith, k, ours));
      }

-- A message of two to 2000 chunks that is new to the table is delivered by the arrival of its
-- last missing chunk: whatever the order of the others was, however often each came, and among
-- whatever chunks of other messages; and it leaves the table.
pub arrive-parts :
    (key : MessageKey) (parts : List Bytes) (arrivals : List Arrival) (last : Arrival)
    (r : Reassembler)
    → 1 < length parts
    → length parts ≤ max_chunk_total
    → IsDistinct r
    → find key r ≡ none
    → All (IsOursOrForeign key parts) arrivals
    → IsPart key parts last
    → last.idx < length parts
    → is_sent key parts last.idx arrivals ≡ false
    → ((i : ℕ) → i < length parts → i ≢ last.idx → is_sent key parts i arrivals ≡ true)
    → ((arrive last (arrive_all arrivals r)).1 ≡ ok (some (concat parts)))
      × (find key (arrive last (arrive_all arrivals r)).0 ≡ none)
unfolding find
arrive-parts key parts arrivals last r several allowed d new all part b unsent others =
    let h : IsHeld key parts (λ i. false) r = record {
      distinct = d;
      table = rw new tt;
      total = rw new tt;
      content = λ i. rw new refl;
    } in
    let w : Waiting key parts several allowed last.idx b (λ i. false) arrivals r =
      arrive_all_lem key parts several allowed last.idx b (λ i. false) arrivals r h all refl
        unsent in
    arrive-completes key parts several allowed w.got last (arrive_all arrivals r) w.held part
      (λ i k. elim (Bool-cases (i == last.idx)) [
        | inl same ↦ ground (arith, same)
        | inr differs ↦
            let apart : i ≢ last.idx = λ e. ground (arith, e, differs) in
            let sent : is_sent key parts i arrivals ≡ true = others i k apart in
            let here : w.got i ≡ true = w.keeps i sent in ground (arith, here)
      ])

chunk_count_several : (len : ℕ) → max_chunk_size < len → 1 < chunk_count len
unfolding chunk_count
chunk_count_several len h = ground (arith, h)

chunk_count_allowed : (len : ℕ) → len ≤ 2_800_000 → chunk_count len ≤ max_chunk_total
unfolding chunk_count
chunk_count_allowed len h = ground (arith, h)

chunk_count_excess : (len : ℕ) → 2_800_000 < len → max_chunk_total < chunk_count len
unfolding chunk_count
chunk_count_excess len h = ground (arith, h)

length-split : (payload : Bytes) → length (split payload) ≡ chunk_count (length payload)
unfolding split
length-split payload = length-slices (chunk_count (length payload)) payload

-- A payload of 1401 to 2,800,000 bytes that is split into chunks comes out of the table of a
-- receiver, to which the message is new, with the arrival of the last missing chunk, if no
-- incomplete message is evicted meanwhile: whatever the order of the others was, however often each
-- came, and among whatever chunks of other messages.
pub arrive-split :
    (key : MessageKey) (payload : Bytes) (arrivals : List Arrival) (last : Arrival)
    (r : Reassembler)
    → max_chunk_size < length payload
    → length payload ≤ 2_800_000
    → IsDistinct r
    → find key r ≡ none
    → All (IsOursOrForeign key (split payload)) arrivals
    → IsPart key (split payload) last
    → last.idx < length (split payload)
    → is_sent key (split payload) last.idx arrivals ≡ false
    → ((i : ℕ)
        → i < length (split payload)
        → i ≢ last.idx
        → is_sent key (split payload) i arrivals ≡ true)
    → ((arrive last (arrive_all arrivals r)).1 ≡ ok (some payload))
      × (find key (arrive last (arrive_all arrivals r)).0 ≡ none)
arrive-split key payload arrivals last r long short d new all part b unsent others =
    let count = length-split payload in
    let (out, gone) =
      arrive-parts key (split payload) arrivals last r
        (omega (arith, count, chunk_count_several (length payload) long))
        (omega (arith, count, chunk_count_allowed (length payload) short)) d new all part b unsent
        others in
    (out ∙ ap (λ bs. ok (some bs)) (concat-split payload), gone)

-- Of a payload of more than 2,800,000 bytes no chunk is kept, and none completes it.
pub feed_oversized :
    (key : MessageKey) (payload : Bytes) (a : Arrival) (r : Reassembler)
    → 2_800_000 < length payload
    → IsPart key (split payload) a
    → arrive a r ≡ (r, ok none)
unfolding arrive feed
feed_oversized key payload a r long part =
    let count : max_chunk_total < length (split payload) =
      omega (arith, length-split payload, chunk_count_excess (length payload) long) in
    let many : eqb_ℤ a.total (pos 1) ≡ false = ground (arith, part.total, count) in
    let bogus : leb_ℤ a.total (pos 0) || ltb_ℤ (pos max_chunk_total) a.total ≡ true =
      ground (arith, part.total, count) in
    rw (many, bogus) refl
