-- ===== src/ChainState/Supply.antt =====
-- The ledger's invariant, and the rewards that a block pays.
use echocoin_core.Prelude.{
  ◌≡◌, refl, [], ◌∷◌, ℤ, pos, ◌+ℤ◌, ◌≤ℤ◌, int_laws, leb_ℤ, ltb_ℤ, Text, true, Bool-cases, inl, inr,
  ok, arith,
}
use echocoin_core.Params.{supply_cap}
use echocoin_core.Dict.{set}
use echocoin_core.Wire.{Block}
use echocoin_core.State.{
  State, get_balance, get_circulating_supply, credit, compute_block_reward, compute_reward,
  apply_reward_distribution,
}
use echocoin_core.State.Steps.{IsSolvent, supply-credit, credit-IsSolvent, credit-ok}
use echocoin_core.State.Supply.{apply_reward_distribution-Distributed}
use echocoin_core.State.Emission.{reward_within_cap}
use echocoin_core.Block.{block_fees}
use echocoin_core.ChainState.{credit_fees, mint_reward, apply_builder_reward}

-- No balance is negative, and the minted total lies between zero and the cap.
pub record IsSound (s : State) : Type 0 where
  pub solvent : IsSolvent s
  pub minted_nonneg : pos 0 ≤ℤ s.total_minted
  pub minted_cap : s.total_minted ≤ℤ pos supply_cap

-- The balances add up to what was minted, but for `fees` that nobody was paid yet.
abbrev pub IsBalanced : ℤ → State → Type 0
IsBalanced fees s = get_circulating_supply s +ℤ fees ≡ s.total_minted

credit_fees-lem :
    (builder : Text) (fees : ℤ) (s : State)
    → pos 0 ≤ℤ fees
    → IsSound s
    → IsBalanced fees s
    → (s' : State) × (credit_fees builder fees s ≡ ok s') × IsSound s' × IsBalanced (pos 0) s'
unfolding credit_fees
credit_fees-lem builder fees s n sound bal = elim (Bool-cases (ltb_ℤ (pos 0) fees)) [
  | inl pays ↦
      let u : State = record s {
        balances = set builder (get_balance builder s +ℤ fees) s.balances;
      } in
      let e : credit builder fees s ≡ ok u = credit-ok builder fees s (ground arith) in
      let more : get_circulating_supply u ≡ get_circulating_supply s +ℤ fees =
        supply-credit builder fees s u e in
      (
        u,
        rw pays e,
        record {
          solvent = credit-IsSolvent builder fees s u e sound.solvent;
          minted_nonneg = sound.minted_nonneg;
          minted_cap = sound.minted_cap;
        },
        rw more (grind (int_laws, bal)),
      )
  | inr none_paid ↦
      let zero_fees : fees ≡ pos 0 = ground arith in
      (s, rw none_paid refl, sound, rw (← zero_fees) bal)
]

-- The distribution of one reward mints exactly that reward.
single_reward :
    (builder : Text) (r : ℤ) (s s' : State)
    → leb_ℤ (pos 1) r ≡ true
    → apply_reward_distribution ((builder, r) ∷ []) s ≡ ok s'
    → s'.total_minted ≡ s.total_minted +ℤ r
unfolding apply_reward_distribution credit
single_reward builder r s s' pays h = ground (arith, h)

mint_reward-lem :
    (builder : Text) (s : State)
    → IsSound s
    → IsBalanced (pos 0) s
    → (s' : State) × (mint_reward builder s ≡ ok s') × IsSound s' × IsBalanced (pos 0) s'
unfolding mint_reward compute_block_reward
mint_reward-lem builder s sound bal =
    elim (Bool-cases (leb_ℤ (pos 1) (compute_reward s.total_minted))) [
      | inl pays ↦
          let (s', e, d) =
            apply_reward_distribution-Distributed ((builder, compute_reward s.total_minted) ∷ [])
              s in
          let minted : s'.total_minted ≡ s.total_minted +ℤ compute_reward s.total_minted =
            single_reward builder (compute_reward s.total_minted) s s' pays e in
          let (low, high) = reward_within_cap s.total_minted sound.minted_nonneg sound.minted_cap in
          (
            s',
            rw pays e,
            record {
              solvent = d.solvent sound.solvent;
              minted_nonneg = rw minted (omega (int_laws, low, sound.minted_nonneg));
              minted_cap = rw minted high;
            },
            grind (int_laws, d.supply, bal),
          )
      | inr none_left ↦ (s, rw none_left refl, sound, bal)
    ]

-- Paying the builder never raises, keeps the invariant, and leaves balances that add up to
-- exactly what was minted.
pub apply_builder_reward-lem :
    (builder : Text) (blk : Block) (fees : ℤ) (s : State)
    → block_fees blk ≡ ok fees
    → pos 0 ≤ℤ fees
    → IsSound s
    → IsBalanced fees s
    → (s' : State) × (apply_builder_reward builder blk s ≡ ok s')
      × IsSound s'
      × IsBalanced (pos 0) s'
unfolding apply_builder_reward
apply_builder_reward-lem builder blk fees s e n sound bal =
    let (u, paid, sound_u, bal_u) = credit_fees-lem builder fees s n sound bal in
    let (s', minted, sound', bal') = mint_reward-lem builder u sound_u bal_u in
    (s', rw (e, paid, minted) refl, sound', bal')
