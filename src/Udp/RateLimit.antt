-- ===== src/Udp/RateLimit.antt =====
-- The token bucket of each source in src/peer_udp.py. Tokens are counted in 2^-22 parts, as the
-- clock counts 2^-22 seconds, so that the refill of 50 tokens a second is exact.
pub mod Bound
pub mod Refill
pub mod Starved
use echocoin_core.Prelude.{
  ℕ, ◌*◌, Bool, true, false, List, [], ◌∷◌, ◌≡◌, Option, none, some, ℤ, pos, ◌+ℤ◌, ◌-ℤ◌, scale,
  ltb_ℤ, ltb, Text, length, if◌then◌else◌,
}
use echocoin_core.Dict.{Dict, get, set}
use echocoin_core.PeerPool.{units}

abbrev pub rate_limit_per_sec : ℕ
rate_limit_per_sec = 50

abbrev pub rate_limit_burst : ℕ
rate_limit_burst = 100

pub record Bucket : Type 0 where
  pub tokens : ℤ
  pub last : ℤ

-- `min(RATE_LIMIT_BURST, tokens + (now - last) * RATE_LIMIT_PER_SEC)`
unfoldable pub refilled : ℤ → Bucket → ℤ
refilled now b =
    let more = b.tokens +ℤ scale (now -ℤ b.last) rate_limit_per_sec in
    if ltb_ℤ (units rate_limit_burst) more then units rate_limit_burst else more

-- The buckets with `b[1] > cutoff`.
unfoldable pub recent : ℤ → Dict Bucket → Dict Bucket
recent cutoff [] = []
recent cutoff (e ∷ d) = if ltb_ℤ cutoff e.1.last then e ∷ recent cutoff d else recent cutoff d

-- The eviction, once there are more than 20000 sources.
unfoldable pub trimmed : ℤ → Dict Bucket → Dict Bucket
trimmed now d = if ltb 20_000 (length d) then recent (now -ℤ units 60) d else d

unfoldable pub allow_rate : ℤ → Text → Dict Bucket → Dict Bucket × Bool
allow_rate now source_ip d = elim (get source_ip d) [
  | none ↦ (trimmed now (set source_ip (record { tokens = units 99; last = now }) d), true)
  | some b ↦
      if ltb_ℤ (refilled now b) (units 1)
      then (set source_ip (record b { last = now }) d, false)
      else (set source_ip (record { tokens = refilled now b -ℤ units 1; last = now }) d, true)
]
