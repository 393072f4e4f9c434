-- ===== src/Udp/Sending/Retransmit.antt =====
-- How the retransmission of a message ends.
use echocoin_core.Prelude.{
  ℕ, zero, suc, ◌+◌, ◌*◌, ◌≤◌, ◌≡◌, ◌∙◌, refl, sym, ap, Bool, Option, none, some, List, [], ◌∷◌,
  keep, length, Text, arith, subst, ℤ, pos, negsuc, Bool-cases, Option-cases, inl, inr, not,
}
use echocoin_core.Wire.{Field, given, absent, other}
use echocoin_core.Env.{Bytes}
use echocoin_core.Table.{
  pair_key, pair_same, pair_same_iff, find, put, drop_key, find-put, find-drop_key, put-IsDistinct,
  IsDistinct, same_refl,
}
use echocoin_core.Udp.Reassembler.{MessageKey}
use echocoin_core.Udp.Sending.{
  Ack, Sends, Sending, acknowledge, handle_ack, handle_acks, missing, is_acked, retransmit,
  retransmit_until_acked, chunk_ack_max_rounds,
}

-- The chunks that are sent of a message.
abbrev pub chunks_of : Option Sending → List (ℕ × Bytes)
chunks_of none = []
chunks_of (some s) = s.chunks

put_lem :
    (key own : MessageKey) (s t : Sending) (sends : Sends)
    → find own sends ≡ some s
    → t.chunks ≡ s.chunks
    → chunks_of (find key (put own t sends)) ≡ chunks_of (find key sends)
put_lem key own s t sends e f = elim (Bool-cases (pair_same key own)) [
  | inl same ↦
      let new : find key (put own t sends) ≡ some t = find-put key own t sends ∙ rw same refl in
      let here = sym ((pair_same_iff key own).0 same) in
      let old : find key sends ≡ some s = subst (λ k. find k sends ≡ some s) here e in
      ap chunks_of new ∙ f ∙ ap chunks_of (sym old)
  | inr far ↦
      let still : find key (put own t sends) ≡ find key sends =
        find-put key own t sends ∙ rw far refl in
      ap chunks_of still
]

handle_ack-chunks :
    (key : MessageKey) (sender : Text) (id : Field ℤ) (acked : Field (List (Field ℤ)))
    (sends : Sends)
    → IsDistinct sends
    → (chunks_of (find key (handle_ack sender id acked sends)) ≡ chunks_of (find key sends))
      × IsDistinct (handle_ack sender id acked sends)
unfolding handle_ack acknowledge
handle_ack-chunks key sender absent acked sends u = (refl, u)
handle_ack-chunks key sender other acked sends u = (refl, u)
handle_ack-chunks key sender (given (negsuc n)) acked sends u = (refl, u)
handle_ack-chunks key sender (given (pos n)) absent sends u = (refl, u)
handle_ack-chunks key sender (given (pos n)) other sends u = (refl, u)
handle_ack-chunks key sender (given (pos n)) (given acked) sends u =
    elim (Option-cases (find (sender, n) sends)) [
      | inl unknown ↦ rw (handle_ack, unknown) (refl, u)
      | inr (s, known) ↦
          rw (handle_ack, known)
            (
              put_lem key (sender, n) s (acknowledge acked s) sends known refl,
              put-IsDistinct (sender, n) (acknowledge acked s) sends u,
            )
    ]

handle_acks-chunks :
    (key : MessageKey) (acks : List Ack) (sends : Sends)
    → IsDistinct sends
    → (chunks_of (find key (handle_acks acks sends)) ≡ chunks_of (find key sends))
      × IsDistinct (handle_acks acks sends)
unfolding handle_acks
handle_acks-chunks key [] sends u = (refl, u)
handle_acks-chunks key (a ∷ later) sends u =
    let one = handle_ack-chunks key a.0 a.1.0 a.1.1 sends u in
    let rest = handle_acks-chunks key later (handle_ack a.0 a.1.0 a.1.1 sends) one.1 in
    (rest.0 ∙ one.0, rest.1)

length-keep : {A : Type 0} (p : A → Bool) (xs : List A) → length (keep p xs) ≤ length xs
unfolding keep
length-keep p [] = omega arith
length-keep p (x ∷ xs) = ground (arith, length-keep p xs)

missing_lem : (s : Sending) → length (missing s) ≤ length s.chunks
unfolding missing
missing_lem s = length-keep (λ c. not (is_acked s.acked c.0)) s.chunks

unfoldable pub count_all : {A : Type 0} → List (List A) → ℕ
count_all [] = 0
count_all (xs ∷ rest) = length xs + count_all rest

module _ (acks : ℕ → List Ack) (key : MessageKey) where
  drop_lem : (sends : Sends) → IsDistinct sends → find key (drop_key key sends) ≡ none
  drop_lem sends u = find-drop_key key key sends u ∙ rw (same_refl key) refl

  retransmit-ends :
      (left : ℕ) (sends : Sends)
      → IsDistinct sends
      → (find key (retransmit acks key left sends).0 ≡ none)
        × (count_all (retransmit acks key left sends).1
            ≤ left * length (chunks_of (find key sends)))
  unfolding retransmit count_all missing
  retransmit-ends zero sends u = (drop_lem sends u, omega arith)
  retransmit-ends (suc left) sends u =
      let kept = handle_acks-chunks key (acks left) sends u in
      let after = handle_acks (acks left) sends in
      let rest = retransmit-ends left after kept.1 in
      elim (Option-cases (find key sends)) [
        | inl unknown ↦ rw (retransmit, unknown) (unknown, omega arith)
        | inr (before, known) ↦ elim (Option-cases (find key after)) [
          | inl gone ↦ rw (retransmit, known, gone) (gone, omega arith)
          | inr (s, held) ↦ elim (Bool-cases s.event) [
            | inl done ↦ rw (retransmit, known, held, done) (drop_lem after kept.1, omega arith)
            | inr waiting ↦
                let same : s.chunks ≡ before.chunks = rw (held, known) at kept.0 in
                let sent : length (missing s) ≤ length before.chunks =
                  rw (← same) (missing_lem s) in
                let more : count_all (retransmit acks key left after).1
                    ≤ left * length before.chunks =
                  rw (held, same) at rest.1 in
                rw (retransmit, known, held, waiting) (rest.0, omega (arith, sent, more))
          ]
        ]
      ]

-- Whatever acks arrive, the retransmission of a message ends after four rounds at most: the message
-- is no longer tracked then, and what was sent again is at most four times the chunks of the
-- message, if no message is listed twice.
pub retransmit_until_acked-ends :
    (acks : ℕ → List Ack) (key : MessageKey) (sends : Sends)
    → IsDistinct sends
    → (find key (retransmit_until_acked acks key sends).0 ≡ none)
      × (count_all (retransmit_until_acked acks key sends).1
          ≤ chunk_ack_max_rounds * length (chunks_of (find key sends)))
unfolding retransmit_until_acked
retransmit_until_acked-ends acks key sends u = retransmit-ends acks key chunk_ack_max_rounds sends u
