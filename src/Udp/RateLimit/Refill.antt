-- ===== src/Udp/RateLimit/Refill.antt =====
-- What a token bucket is worth as time passes, and when its entry is evicted.
use echocoin_core.Prelude.{
  ◌+◌, ◌*◌, ◌≡◌, sym, refl, false, [], ◌∷◌, Option, some, none, ℤ, pos, negsuc, ◌+ℤ◌, ◌-ℤ◌, ◌≤ℤ◌,
  scale, pos_part, neg_part, ltb_ℤ, int_laws, Text, text_eq_iff, arith, if◌then◌else◌, Bool-cases,
  inl, inr, ◌⊎◌,
}
use echocoin_core.Dict.{Dict, get, contains, Distinct, get_of_not-contains}
use echocoin_core.PeerPool.{units}
use echocoin_core.Udp.RateLimit.Starved.{refilled-le}
use echocoin_core.Udp.RateLimit.{Bucket, refilled, recent, rate_limit_per_sec, rate_limit_burst}

pub scale_50 :
    (a : ℤ) → pos_part (scale a 50) + 50 * neg_part a ≡ 50 * pos_part a + neg_part (scale a 50)
unfolding scale
scale_50 (pos a) = omega arith
scale_50 (negsuc a) = ground arith

-- The tokens that a source would have now; a source without a bucket is as one with a full one.
abbrev pub worth : ℤ → Option Bucket → ℤ
worth now none = units rate_limit_burst
worth now (some b) = refilled now b

abbrev pub IsSane : ℤ → Option Bucket → Type 0
IsSane now none = Unit
IsSane now (some b) = (pos 0 ≤ℤ b.tokens) × (b.last ≤ℤ now)

pub refilled_cap : (now : ℤ) (b : Bucket) → refilled now b ≤ℤ units rate_limit_burst
unfolding refilled
refilled_cap now b = ground arith

pub refilled-cases :
    (now : ℤ) (b : Bucket)
    → (units rate_limit_burst ≤ℤ refilled now b)
      ⊎ (b.tokens +ℤ scale (now -ℤ b.last) rate_limit_per_sec ≤ℤ refilled now b)
unfolding refilled
refilled-cases now b =
    elim (Bool-cases
      (ltb_ℤ (units rate_limit_burst) (b.tokens +ℤ scale (now -ℤ b.last) rate_limit_per_sec))) [
        | inl full ↦ inl (rw full (omega arith))
        | inr less ↦ inr (rw less (omega arith))
      ]

-- As time passes, 50 tokens are added in a second at most.
pub worth_later :
    (now later : ℤ) (o : Option Bucket)
    → IsSane now o
    → now ≤ℤ later
    → worth later o ≤ℤ worth now o +ℤ scale (later -ℤ now) rate_limit_per_sec
worth_later now later none s t = omega (int_laws, scale_50 (later -ℤ now), t)
worth_later now later (some b) s t = elim (refilled-cases now b) [
  | inl full ↦ omega (int_laws, scale_50 (later -ℤ now), t, full, refilled_cap later b)
  | inr part ↦ omega (
    int_laws,
    scale_50 (later -ℤ now),
    scale_50 (later -ℤ b.last),
    scale_50 (now -ℤ b.last),
    t,
    part,
    refilled-le later b,
  )
]

-- A bucket that was not used for a minute is full.
pub refilled_old :
    (now : ℤ) (b : Bucket)
    → pos 0 ≤ℤ b.tokens
    → b.last ≤ℤ now -ℤ units 60
    → refilled now b ≡ units rate_limit_burst
refilled_old now b s old =
    let full : units rate_limit_burst ≤ℤ refilled now b = elim (refilled-cases now b) [
      | inl full ↦ full
      | inr part ↦ omega (int_laws, scale_50 (now -ℤ b.last), s, old, part)
    ] in
    omega (int_laws, full, refilled_cap now b)

pub contains-recent :
    (k : Text) (cutoff : ℤ) (d : Dict Bucket)
    → contains k d ≡ false
    → contains k (recent cutoff d) ≡ false
unfolding recent contains
contains-recent k cutoff [] h = refl
contains-recent k cutoff (e ∷ d) h = ground (arith, contains-recent k cutoff d)

pub recent-Distinct : (cutoff : ℤ) (d : Dict Bucket) → Distinct d → Distinct (recent cutoff d)
unfolding recent
recent-Distinct cutoff [] h = tt
recent-Distinct cutoff (e ∷ d) h =
    ground (arith, recent-Distinct cutoff d h.1, contains-recent e.0 cutoff d h.0)

abbrev pub kept : ℤ → Option Bucket → Option Bucket
kept cutoff none = none
kept cutoff (some b) = if ltb_ℤ cutoff b.last then some b else none

pub get-recent :
    (k : Text) (cutoff : ℤ) (d : Dict Bucket)
    → Distinct d
    → get k (recent cutoff d) ≡ kept cutoff (get k d)
unfolding recent get
get-recent k cutoff [] h = refl
get-recent k cutoff (e ∷ d) h =
    ground (arith, get-recent k cutoff d h.1, text_eq_iff k e.0, get_of_not-contains e.0 d h.0)

-- The eviction takes nothing away that a source without a bucket does not have.
pub worth-kept :
    (now : ℤ) (o : Option Bucket)
    → IsSane now o
    → worth now (kept (now -ℤ units 60) o) ≡ worth now o
worth-kept now none s = refl
worth-kept now (some b) s = elim (Bool-cases (ltb_ℤ (now -ℤ units 60) b.last)) [
  | inl fresh ↦ rw fresh refl
  | inr old ↦ rw old (sym (refilled_old now b s.0 (ground (arith, old))))
]

pub kept-IsSane : (now cutoff : ℤ) (o : Option Bucket) → IsSane now o → IsSane now (kept cutoff o)
kept-IsSane now cutoff none s = tt
kept-IsSane now cutoff (some b) s = elim (Bool-cases (ltb_ℤ cutoff b.last)) [
  | inl fresh ↦ rw fresh s
  | inr old ↦ rw old tt
]
