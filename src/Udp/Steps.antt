-- ===== src/Udp/Steps.antt =====
-- One chunk that arrives: of the message, or of another.
use echocoin_core.Prelude.{
  ℕ, ◌≤◌, ◌<◌, ◌≡◌, ◌⊎◌, ◌∙◌, ap, refl, Bool, true, false, ◌||◌, some, none, List, pos, leb_ℤ,
  ltb_ℤ, eqb_ℤ, length, ◌==◌, ok, arith, Bool-cases, Result-cases, inl, inr,
}
use echocoin_core.Env.{Bytes}
use echocoin_core.Table.{
  find, put, drop_key, IsDistinct, pair_key, pair_same, pair_same_iff, find-put, put-IsDistinct,
  drop_key-IsDistinct, find-drop_key, same_refl,
}
use echocoin_core.Udp.Packet.{max_chunk_total}
use echocoin_core.Udp.Reassembler.{
  MessageKey, Partial, Reassembler, join_total, with_chunk, finish, feed,
}
use echocoin_core.Udp.Chunks.{concat}
use echocoin_core.Udp.Delivery.{
  Arrival, arrive, IsPart, IsHeld, IsNext, with_chunk-IsNext, IsNext-short, IsNext-full,
}

finish_waits :
    (key : MessageKey) (rec : Partial) (r : Reassembler) (n : ℕ)
    → rec.total ≡ pos n
    → length rec.chunks < n
    → finish key rec r ≡ (put key rec r, ok none)
unfolding finish
finish_waits key rec r n total few =
    let unequal : eqb_ℤ (pos (length rec.chunks)) rec.total ≡ false = ground (arith, total, few) in
    rw unequal refl

finish_completes :
    (key : MessageKey) (rec : Partial) (r : Reassembler) (n : ℕ) (full : Bytes)
    → rec.total ≡ pos n
    → length rec.chunks ≡ n
    → join_total rec.total rec.chunks ≡ ok full
    → finish key rec r ≡ (drop_key key (put key rec r), ok (some full))
unfolding finish
finish_completes key rec r n full total all joined =
    let equal : eqb_ℤ (pos (length rec.chunks)) rec.total ≡ true = ground (arith, total, all) in
    rw (equal, joined) refl

-- The table after any `finish`: with the message put in, and perhaps taken out again.
finish_table :
    (key : MessageKey) (rec : Partial) (r : Reassembler)
    → ((finish key rec r).0 ≡ put key rec r) ⊎ ((finish key rec r).0 ≡ drop_key key (put key rec r))
unfolding finish
finish_table key rec r = elim (Bool-cases (eqb_ℤ (pos (length rec.chunks)) rec.total)) [
  | inr more ↦ inl (rw more refl)
  | inl all ↦ elim (Result-cases (join_total rec.total rec.chunks)) [
    | inl (full, e) ↦ inr (rw (all, e) refl)
    | inr (inl (x, e)) ↦ inl (rw (all, e) refl)
    | inr (inr (x, e)) ↦ inl (rw (all, e) refl)
  ]
]

feed_table :
    (a : Arrival) (r : Reassembler)
    → ((arrive a r).0 ≡ r)
      ⊎ ((rec : Partial) × (((arrive a r).0 ≡ put a.key rec r)
            ⊎ ((arrive a r).0 ≡ drop_key a.key (put a.key rec r))))
unfolding arrive feed
feed_table a r = elim (Bool-cases (eqb_ℤ a.total (pos 1))) [
  | inl single ↦ inl (rw single refl)
  | inr several ↦ elim (Bool-cases (leb_ℤ a.total (pos 0) || ltb_ℤ (pos max_chunk_total) a.total)) [
    | inl bogus ↦ inl (rw (several, bogus) refl)
    | inr fine ↦
        let rec : Partial = with_chunk a.time a.total a.idx a.payload (find a.key r) in
        inr (rec, rw (several, fine) (finish_table a.key rec r))
  ]
]

-- A message of another key stays as it was.
pub find-arrive :
    (a : Arrival) (r : Reassembler) (key : MessageKey)
    → pair_same a.key key ≡ false
    → IsDistinct r
    → (find key (arrive a r).0 ≡ find key r) × IsDistinct (arrive a r).0
find-arrive a r key other d =
    let differs : pair_same key a.key ≡ false =
      ground (arith, other, pair_same_iff a.key key, pair_same_iff key a.key) in
    elim (feed_table a r) [
      | inl same ↦ (ap (find key) same, rw same d)
      | inr (rec, inl stored) ↦ (
        ap (find key) stored ∙ ground (arith, find-put key a.key rec r, differs),
        rw stored (put-IsDistinct a.key rec r d),
      )
      | inr (rec, inr gone) ↦ (
        ap (find key) gone
            ∙ ground (
              arith,
              find-drop_key key a.key (put a.key rec r) (put-IsDistinct a.key rec r d),
              find-put key a.key rec r,
              differs,
            ),
        rw gone (drop_key-IsDistinct a.key (put a.key rec r) (put-IsDistinct a.key rec r d)),
      )
    ]

module _ (key : MessageKey) (parts : List Bytes) (several : 1 < length parts)
    (allowed : length parts ≤ max_chunk_total) where
  arrive-finish :
      (a : Arrival) (r : Reassembler)
      → IsPart key parts a
      → arrive a r ≡ finish key (with_chunk a.time a.total a.idx a.payload (find key r)) r
  unfolding arrive feed
  arrive-finish a r part =
      let many : eqb_ℤ a.total (pos 1) ≡ false = ground (arith, part.total, several) in
      let fine : leb_ℤ a.total (pos 0) || ltb_ℤ (pos max_chunk_total) a.total ≡ false =
        ground (arith, part.total, several, allowed) in
      rw (many, fine, part.ours) refl

  -- While a chunk is missing, the message waits with the chunks that it has.
  pub arrive-waits :
      (have : ℕ → Bool) (a : Arrival) (r : Reassembler) (m : ℕ)
      → IsHeld key parts have r
      → IsPart key parts a
      → m < length parts
      → ((m == a.idx) || have m) ≡ false
      → ((arrive a r).1 ≡ ok none) × IsHeld key parts (λ i. (i == a.idx) || have i) (arrive a r).0
  arrive-waits have a r m h part b absent =
      let rec : Partial = with_chunk a.time a.total a.idx a.payload (find key r) in
      let x : IsNext key parts (λ i. (i == a.idx) || have i) rec =
        with_chunk-IsNext key parts have a r h part in
      let few = IsNext-short key parts (λ i. (i == a.idx) || have i) rec m x b absent in
      let run : arrive a r ≡ (put key rec r, ok none) =
        arrive-finish a r part ∙ finish_waits key rec r (length parts) x.total few in
      let there : find key (put key rec r) ≡ some rec =
        ground (arith, find-put key key rec r, same_refl key) in
      (
        ap (λ y. y.1) run,
        rw run (record {
          distinct = put-IsDistinct key rec r h.distinct;
          table = rw there x.table;
          total = rw there x.total;
          content = rw there x.content;
        }),
      )

  -- With the last chunk the message comes out whole, and leaves the table.
  pub arrive-completes :
      (have : ℕ → Bool) (a : Arrival) (r : Reassembler)
      → IsHeld key parts have r
      → IsPart key parts a
      → ((i : ℕ) → i < length parts → ((i == a.idx) || have i) ≡ true)
      → ((arrive a r).1 ≡ ok (some (concat parts))) × (find key (arrive a r).0 ≡ none)
  arrive-completes have a r h part all =
      let rec : Partial = with_chunk a.time a.total a.idx a.payload (find key r) in
      let x : IsNext key parts (λ i. (i == a.idx) || have i) rec =
        with_chunk-IsNext key parts have a r h part in
      let (count, joined) = IsNext-full key parts (λ i. (i == a.idx) || have i) rec x all in
      let run : arrive a r ≡ (drop_key key (put key rec r), ok (some (concat parts))) =
        arrive-finish a r part
        ∙ finish_completes key rec r (length parts) (concat parts) x.total count joined in
      (
        ap (λ y. y.1) run,
        ap (λ y. find key y.0) run
            ∙ ground (
              arith,
              find-drop_key key key (put key rec r) (put-IsDistinct key rec r h.distinct),
              same_refl key,
            ),
      )
