-- ===== src/Udp/RateLimit/Starved.antt =====
-- A source that goes on sending while its bucket is empty.
use echocoin_core.Prelude.{
  ◌≡◌, refl, false, List, [], ◌∷◌, some, ℤ, ◌+ℤ◌, ◌-ℤ◌, ◌≤ℤ◌, ◌<ℤ◌, scale, ltb_ℤ, Text, All, arith,
  true, Bool,
}
use echocoin_core.Dict.{Dict, get, set, get-set_same}
use echocoin_core.PeerPool.{units}
use echocoin_core.Udp.RateLimit.{Bucket, refilled, allow_rate, rate_limit_per_sec}

-- The answers to the datagrams that come from one source at these times.
unfoldable pub answers : Text → List ℤ → Dict Bucket → List Bool
answers source_ip [] d = []
answers source_ip (now ∷ times) d =
    (allow_rate now source_ip d).1 ∷ answers source_ip times (allow_rate now source_ip d).0

-- Each time is so close to the one before that less than the missing part of a token is refilled.
abbrev pub IsHasty : ℤ → ℤ → List ℤ → Type 0
IsHasty tokens last [] = Unit
IsHasty tokens last (now ∷ times) =
    (tokens +ℤ scale (now -ℤ last) rate_limit_per_sec <ℤ units 1) × IsHasty tokens now times

pub refilled-le :
    (now : ℤ) (b : Bucket) → refilled now b ≤ℤ b.tokens +ℤ scale (now -ℤ b.last) rate_limit_per_sec
unfolding refilled
refilled-le now b = ground arith

refused :
    (now : ℤ) (source_ip : Text) (d : Dict Bucket) (b : Bucket)
    → get source_ip d ≡ some b
    → b.tokens +ℤ scale (now -ℤ b.last) rate_limit_per_sec <ℤ units 1
    → allow_rate now source_ip d ≡ (set source_ip (record b { last = now }) d, false)
unfolding allow_rate
refused now source_ip d b e few =
    let low : ltb_ℤ (refilled now b) (units 1) ≡ true = ground (arith, few, refilled-le now b) in
    rw (allow_rate, e, low) refl

-- A source whose bucket is short of a token, and which goes on sending so fast that no token is
-- refilled between two of its datagrams, is refused all of them, however long it goes on.
pub answers_hasty :
    (source_ip : Text) (times : List ℤ) (d : Dict Bucket) (b : Bucket)
    → get source_ip d ≡ some b
    → IsHasty b.tokens b.last times
    → All (λ allowed. allowed ≡ false) (answers source_ip times d)
unfolding answers
answers_hasty source_ip [] d b e h = tt
answers_hasty source_ip (now ∷ times) d b e h =
    let run = refused now source_ip d b e h.0 in
    let later : Bucket = record b { last = now } in
    let there : get source_ip (set source_ip later d) ≡ some later =
      get-set_same source_ip later d in
    rw run (refl, answers_hasty source_ip times (set source_ip later d) later there h.1)
