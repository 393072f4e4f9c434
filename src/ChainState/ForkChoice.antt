-- ===== src/ChainState/ForkChoice.antt =====
-- The order of the fork choice.
use echocoin_core.Prelude.{
  ◌≡◌, ◌≢◌, ap, Bool, true, false, some, ℤ, ltb_ℤ, eqb_ℤ, Text, text_lt, text_lt_irrefl,
  text_lt_trans, text_lt_total, last?, ok, arith, if◌then◌else◌,
}
use echocoin_core.Wire.{Block}
use echocoin_core.Block.{tie_break_key}
use echocoin_core.ChainState.{ChainState, tip, is_better_than}

-- The key of a chain's tip.
pub record HasTip (cs : ChainState) : Type 0 where
  pub top : Block
  pub top_eq : last? cs.chain ≡ some top

abbrev key : {cs : ChainState} → HasTip cs → Text
key h = tie_break_key h.top

-- The order that `is_better_than` decides.
abbrev order : ℤ → Text → ℤ → Text → Bool
order v s w t = if eqb_ℤ v w then text_lt s t else ltb_ℤ w v

pub is_better_than-order :
    (a b : ChainState) (p : HasTip a) (q : HasTip b)
    → is_better_than a b
      ≡ ok (
          order a.cumulative_iterations
            (tie_break_key p.top)
            b.cumulative_iterations
            (tie_break_key q.top))
unfolding is_better_than tip
is_better_than-order a b p q = ground (arith, p.top_eq, q.top_eq)

order_trans :
    (u v w : ℤ) (r s t : Text) → order u r v s ≡ true → order v s w t ≡ true → order u r w t ≡ true
order_trans u v w r s t h k = ground (arith, text_lt_trans r s t)

order_asymm : (v w : ℤ) (s t : Text) → order v s w t ≡ true → order w t v s ≡ false
order_asymm v w s t h = ground (arith, text_lt_trans s t s, text_lt_irrefl s)

order_total :
    (v w : ℤ) (s t : Text) → order v s w t ≡ false → order w t v s ≡ false → (v ≡ w) × (s ≡ t)
order_total v w s t h k = (ground arith, ground (arith, text_lt_total s t))

module _ (a b : ChainState) (p : HasTip a) (q : HasTip b) where
  -- Of two chains that have a tip at most one is better than the other.
  pub is_better_than_asymm : is_better_than a b ≡ ok true → is_better_than b a ≡ ok false
  is_better_than_asymm h =
      let h' = rw (is_better_than-order a b p q) at h in
      rw (is_better_than-order b a q p) (
        ap ok (
          order_asymm a.cumulative_iterations b.cumulative_iterations (tie_break_key p.top)
            (tie_break_key q.top) (ground (arith, h'))))

  -- If neither of two chains that have a tip is better, they have the same cumulative work and
  -- the same tie-break key.
  pub is_better_than_total :
      is_better_than a b ≡ ok false
      → is_better_than b a ≡ ok false
      → (a.cumulative_iterations ≡ b.cumulative_iterations)
        × (tie_break_key p.top ≡ tie_break_key q.top)
  is_better_than_total h k =
      let h' = rw (is_better_than-order a b p q) at h in
      let k' = rw (is_better_than-order b a q p) at k in
      order_total a.cumulative_iterations b.cumulative_iterations (tie_break_key p.top)
        (tie_break_key q.top) (ground (arith, h')) (ground (arith, k'))

-- On chains that have a tip, being better is transitive.
is_better_than_trans :
    (a b c : ChainState)
    → HasTip a
    → HasTip b
    → HasTip c
    → is_better_than a b ≡ ok true
    → is_better_than b c ≡ ok true
    → is_better_than a c ≡ ok true
is_better_than_trans a b c p q r h k =
    let h' = rw (is_better_than-order a b p q) at h in
    let k' = rw (is_better_than-order b c q r) at k in
    rw (is_better_than-order a c p r) (
      ap ok (
        order_trans a.cumulative_iterations b.cumulative_iterations c.cumulative_iterations
          (tie_break_key p.top) (tie_break_key q.top) (tie_break_key r.top) (ground (arith, h'))
          (ground (arith, k'))))

-- Chains that replace one another, one time or more: each is better than the one before it.
pub data Improves : ChainState → ChainState → Type 0 where
  once : (a b : ChainState) → HasTip a → HasTip b → is_better_than b a ≡ ok true → Improves a b
  and_then :
      (a b c : ChainState) → Improves a b → HasTip c → is_better_than c b ≡ ok true → Improves a c

Improves-tips : (a b : ChainState) → Improves a b → HasTip a × HasTip b
Improves-tips a b (once _ _ p q h) = (p, q)
Improves-tips a c (and_then _ b _ steps r h) = ((Improves-tips a b steps).0, r)

Improves-better : (a b : ChainState) → Improves a b → is_better_than b a ≡ ok true
Improves-better a b (once _ _ p q h) = h
Improves-better a c (and_then _ b _ steps r h) =
    let (p, q) = Improves-tips a b steps in
    is_better_than_trans c b a r q p h (Improves-better a b steps)

-- Chains with a tip that replace one another, each better than the one before it: the last one is
-- better than the first one, and it is another one, so that the replacing never comes back.
pub Improves-is_better_than :
    (a b : ChainState) → Improves a b → (is_better_than b a ≡ ok true) × (b ≢ a)
Improves-is_better_than a b steps =
    let (p, q) = Improves-tips a b steps in
    let better = Improves-better a b steps in
    (
      better,
      λ same.
          let back : is_better_than a b ≡ ok true = rw same (rw same at better) in
          absurd (ground (arith, is_better_than_asymm b a q p better, back)),
    )
