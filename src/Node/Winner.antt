-- ===== src/Node/Winner.antt =====
-- The choice of the block that ends a cycle.
use echocoin_core.Prelude.{
  ok_injective, ◌≡◌, refl, sym, ◌∙◌, ap, Bool, true, false, some, List, [], ◌∷◌, Text, All, text_lt,
  text_lt_irrefl, text_lt_trans, text_lt_total, ok, >>=-eq-ok, Result-cases, Bool-cases, inl, inr,
  arith, ◌⊎◌, if◌then◌else◌,
}
use echocoin_core.Wire.{Time, Block}
use echocoin_core.Env.{Env}
use echocoin_core.State.{State}
use echocoin_core.Block.{tie_break_key, validate}
use echocoin_core.ChainState.{ChainState, tip}
use echocoin_core.Node.{is_next, lowest, valid_peers, pick_winner}

-- The key of a block is not below that of the winner.
abbrev pub IsNotBelow : Block → Block → Type 0
IsNotBelow w b = text_lt (tie_break_key b) (tie_break_key w) ≡ false

not_below_trans : (a b c : Text) → text_lt a b ≡ false → text_lt b c ≡ false → text_lt a c ≡ false
not_below_trans a b c h k = elim (Bool-cases (text_lt a c)) [
  | inr fine ↦ fine
  | inl low ↦ elim (Bool-cases (text_lt c b)) [
    | inl under ↦ absurd (ground (arith, text_lt_trans a c b low under, h))
    | inr level ↦
        let same : b ≡ c = text_lt_total b c k level in
        absurd (ground (arith, h, rw (← same) at low))
  ]
]

below_not_below : (a b : Text) → text_lt a b ≡ true → text_lt b a ≡ false
below_not_below a b h = elim (Bool-cases (text_lt b a)) [
  | inr fine ↦ fine
  | inl low ↦ absurd (ground (arith, text_lt_trans a b a h low, text_lt_irrefl a))
]

lowest-nil : (best : Block × Bool) → lowest best [] ≡ best
unfolding lowest
lowest-nil best = refl

lowest_low :
    (best : Block × Bool) (b : Block) (bs : List Block)
    → text_lt (tie_break_key b) (tie_break_key best.0) ≡ true
    → lowest best (b ∷ bs) ≡ lowest (b, true) bs
unfolding lowest
lowest_low best b bs low = ap (λ t. lowest (if t then (b, true) else best) bs) low

lowest_high :
    (best : Block × Bool) (b : Block) (bs : List Block)
    → text_lt (tie_break_key b) (tie_break_key best.0) ≡ false
    → lowest best (b ∷ bs) ≡ lowest best bs
unfolding lowest
lowest_high best b bs high = ap (λ t. lowest (if t then (b, true) else best) bs) high

lowest-IsNotBelow :
    (best r : Block × Bool) (bs : List Block)
    → lowest best bs ≡ r
    → IsNotBelow r.0 best.0 × All (IsNotBelow r.0) bs
lowest-IsNotBelow best r [] e =
    let same : best ≡ r = sym (lowest-nil best) ∙ e in
    (rw (← same) (text_lt_irrefl (tie_break_key best.0)), tt)
lowest-IsNotBelow best r (b ∷ bs) e =
    elim (Bool-cases (text_lt (tie_break_key b) (tie_break_key best.0))) [
      | inl low ↦
          let (first, rest) =
            lowest-IsNotBelow (b, true) r bs (sym (lowest_low best b bs low) ∙ e) in
          (
            not_below_trans (tie_break_key best.0) (tie_break_key b) (tie_break_key r.0)
                (below_not_below (tie_break_key b) (tie_break_key best.0) low) first,
            (first, rest),
          )
      | inr high ↦
          let (first, rest) = lowest-IsNotBelow best r bs (sym (lowest_high best b bs high) ∙ e) in
          (
            first,
            (
              not_below_trans (tie_break_key b) (tie_break_key best.0) (tie_break_key r.0) high
                  first,
              rest,
            ),
          )
    ]

-- The first block, flagged as at the start, or one of the others, flagged as a peer's.
lowest-from :
    (P : Block → Type 0) (best : Block × Bool) (bs : List Block)
    → All P bs
    → (lowest best bs ≡ best) ⊎ (P (lowest best bs).0 × ((lowest best bs).1 ≡ true))
lowest-from P best [] all = inl (lowest-nil best)
lowest-from P best (b ∷ bs) all =
    elim (Bool-cases (text_lt (tie_break_key b) (tie_break_key best.0))) [
      | inr high ↦ rw (lowest_high best b bs high) (lowest-from P best bs all.1)
      | inl low ↦ elim (lowest-from P (b, true) bs all.1) [
        | inl same ↦ rw (lowest_low best b bs low) (inr (rw same (all.0, refl)))
        | inr later ↦ rw (lowest_low best b bs low) (inr later)
      ]
    ]

module _ (env : Env) (clock : Block → Time) (message : Text) (cs : ChainState) where
  -- A block on the tip that is valid there.
  pub record IsCandidate (top b : Block) : Type 0 where
    pub post : State
    pub placed : is_next top b ≡ true
    pub valid : validate env (clock b) b cs.state cs.chain ≡ ok post

  valid_peers-lem :
      (Q : Block → Type 0) (top : Block) (bs found : List Block)
      → valid_peers env clock message cs top bs ≡ ok found
      → All (IsCandidate top) found × (All Q found → All (λ b. IsCandidate top b → Q b) bs)
  unfolding valid_peers
  valid_peers-lem Q top [] found h = (rw (← ok_injective h) tt, λ all. tt)
  valid_peers-lem Q top (b ∷ bs) found h = elim (Bool-cases (is_next top b)) [
    | inr off ↦
        let (good, back) = valid_peers-lem Q top bs found (rw off at h) in
        (good, λ all. (λ c. absurd (ground (arith, c.placed, off)), back all))
    | inl on ↦ elim (Result-cases (validate env (clock b) b cs.state cs.chain)) [
      | inl (s, v) ↦
          let (others, o, h') =
            >>=-eq-ok (valid_peers env clock message cs top bs) _ (rw (on, v) at h) in
          let (good, back) = valid_peers-lem Q top bs others o in
          let cons : b ∷ others ≡ found = ok_injective h' in
          (
            rw (← cons) (record { post = s; placed = on; valid = v }, good),
            λ all. let all' : All Q (b ∷ others) = rw (← cons) at all in (λ c. all'.0, back all'.1),
          )
      | inr (inl (e, v)) ↦
          let (good, back) = valid_peers-lem Q top bs found (rw (on, v) at h) in
          (good, λ all. (λ c. absurd (ground (arith, c.valid, v)), back all))
      | inr (inr (e, v)) ↦ absurd (ground (arith, rw (on, v) at h))
    ]
  ]

  -- The winner of a cycle is the node's own candidate, or a peer's block that stands on the tip and
  -- is valid there, which is flagged to be relayed; and neither the candidate nor any peer's block
  -- that stands on the tip and is valid there has a lower key.
  pub pick_winner_lem :
      (top candidate w : Block) (peer_blocks : List Block) (relay : Bool)
      → tip cs ≡ ok top
      → pick_winner env clock message cs candidate peer_blocks ≡ ok (some (w, relay))
      → (((w ≡ candidate) × (relay ≡ false)) ⊎ (IsCandidate top w × (relay ≡ true)))
        × IsNotBelow w candidate
        × All (λ b. IsCandidate top b → IsNotBelow w b) peer_blocks
  unfolding pick_winner
  pick_winner_lem top candidate w peer_blocks relay t h =
      let (valid, v, h') =
        >>=-eq-ok (valid_peers env clock message cs top peer_blocks) _ (rw (pick_winner, t) at h) in
      let win : lowest (candidate, false) valid ≡ (w, relay) = ground (arith, h') in
      let (good, back) = valid_peers-lem (IsNotBelow w) top peer_blocks valid v in
      let (first, rest) = lowest-IsNotBelow (candidate, false) (w, relay) valid win in
      (
        elim (lowest-from (IsCandidate top) (candidate, false) valid good) [
          | inl own ↦ inl (let e = sym win ∙ own in (ap (λ x. x.0) e, ap (λ x. x.1) e))
          | inr other ↦ inr (rw win at other)
        ],
        first,
        back rest,
      )
