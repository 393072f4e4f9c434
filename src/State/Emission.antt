-- ===== src/State/Emission.antt =====
-- The emission schedule of src/state.py.
use echocoin_core.Prelude.{ℤ, pos, ◌+ℤ◌, ◌≤ℤ◌, arith, ◌↔◌, scale, floor_div, ◌-ℤ◌}
use echocoin_core.Params.{supply_cap}
use echocoin_core.State.{compute_can_mint, compute_reward}

pub can_mint-nonneg : (m : ℤ) → pos 0 ≤ℤ compute_can_mint m
unfolding compute_can_mint
can_mint-nonneg m = ground (arith)

-- Of a minted total between zero and the cap, the reward is never negative and never more than
-- what is left to mint, so that minting it keeps the total in that range.
pub reward_within_cap :
    (m : ℤ)
    → pos 0 ≤ℤ m
    → m ≤ℤ pos supply_cap
    → (pos 0 ≤ℤ compute_reward m) × (m +ℤ compute_reward m ≤ℤ pos supply_cap)
unfolding compute_reward compute_can_mint scale floor_div ◌-ℤ◌ ◌+ℤ◌
reward_within_cap m h k = ground arith

-- The reward never rises as the minted total rises.
pub reward_antitone : (m n : ℤ) → m ≤ℤ n → compute_reward n ≤ℤ compute_reward m
unfolding compute_reward compute_can_mint scale floor_div ◌-ℤ◌
reward_antitone m n h = ground arith

-- A reward of at least one tick is paid exactly as long as 7213476 ticks or more are left.
pub reward_positive_iff :
    (m : ℤ) → (pos 1 ≤ℤ compute_reward m) ↔ (m +ℤ pos 7213476 ≤ℤ pos supply_cap)
unfolding compute_reward compute_can_mint scale floor_div ◌-ℤ◌ ◌+ℤ◌
reward_positive_iff m = (λ h. ground arith, λ h. ground arith)
