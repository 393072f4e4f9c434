-- ===== src/Udp/RateLimit/Bound.antt =====
-- How many datagrams of one source pass in a span of time.
use echocoin_core.Prelude.{
  ℕ, suc, ◌≡◌, ◌∙◌, sym, ap, refl, true, false, Bool, ◌&&◌, List, [], ◌∷◌, Option, some, none, ℤ,
  pos, ◌+ℤ◌, ◌-ℤ◌, ◌≤ℤ◌, ◌<ℤ◌, scale, ltb_ℤ, ltb, int_laws, Text, text_eq, text_eq_iff, arith,
  if◌then◌else◌, Bool-cases, Option-cases, inl, inr, length, subst,
}
use echocoin_core.Dict.{Dict, get, set, Distinct, set-Distinct, get-set}
use echocoin_core.PeerPool.{units}
use echocoin_core.Udp.RateLimit.Starved.{refilled-le}
use echocoin_core.Udp.RateLimit.{
  Bucket, refilled, trimmed, allow_rate, rate_limit_per_sec, rate_limit_burst,
}
use echocoin_core.Udp.RateLimit.Refill.{
  scale_50, worth, IsSane, refilled_cap, refilled-cases, worth_later, recent-Distinct, get-recent,
  worth-kept, kept-IsSane,
}

-- From `d` to `after`, the source `j` has spent `cost` at least.
abbrev HasSpent : ℤ → Text → ℤ → Dict Bucket → Dict Bucket → Type 0
HasSpent now j cost d after =
    (worth now (get j after) +ℤ cost ≤ℤ worth now (get j d))
    × IsSane now (get j after)
    × Distinct after

abbrev spent : Bool → ℤ
spent true = units 1
spent false = pos 0

module _ (now : ℤ) (j : Text) where
  trimmed-HasSpent :
      (cost : ℤ) (d after : Dict Bucket)
      → HasSpent now j cost d after
      → HasSpent now j cost d (trimmed now after)
  unfolding trimmed
  trimmed-HasSpent cost d after h = elim (Bool-cases (ltb 20_000 (length after))) [
    | inr few ↦ rw few h
    | inl many ↦
        let e = get-recent j (now -ℤ units 60) after h.2 in
        let same = ap (worth now) e ∙ worth-kept now (get j after) h.1 in
        rw many (
          rw same h.0,
          rw e (kept-IsSane now (now -ℤ units 60) (get j after) h.1),
          recent-Distinct (now -ℤ units 60) after h.2,
        )
  ]

  set-HasSpent :
      (d : Dict Bucket) (source : Text) (b : Bucket) (allowed : Bool)
      → Distinct d
      → IsSane now (get j d)
      → (IsSane now (get source d)
          → (worth now (some b) +ℤ spent allowed ≤ℤ worth now (get source d)) × IsSane now (some b))
      → HasSpent now j (spent (text_eq j source && allowed)) d (set source b d)
  set-HasSpent d source b allowed u s own = elim (Bool-cases (text_eq j source)) [
    | inl same ↦
        let e : get j (set source b d) ≡ some b = get-set j source b d ∙ rw same refl in
        let here = (text_eq_iff j source).0 same in
        let mine = own (subst (λ k. IsSane now (get k d)) here s) in
        let paid : worth now (some b) +ℤ spent allowed ≤ℤ worth now (get j d) =
          subst (λ k. worth now (some b) +ℤ spent allowed ≤ℤ worth now (get k d)) (sym here)
            mine.0 in
        rw (same, e) (paid, mine.1, set-Distinct source b d u)
    | inr far ↦
        let e : get j (set source b d) ≡ get j d = get-set j source b d ∙ rw far refl in
        let free : worth now (get j d) +ℤ pos 0 ≤ℤ worth now (get j d) = omega int_laws in
        rw (far, e) (free, s, set-Distinct source b d u)
  ]

new_lem :
    (now : ℤ)
    → (worth now (some (record { tokens = units 99; last = now })) +ℤ units 1
        ≤ℤ units rate_limit_burst)
      × IsSane now (some (record { tokens = units 99; last = now }))
new_lem now =
    let b : Bucket = record { tokens = units 99; last = now } in
    (omega (int_laws, scale_50 (now -ℤ now), refilled-le now b), (omega arith, omega arith))

refused_lem :
    (now : ℤ) (b : Bucket)
    → ltb_ℤ (refilled now b) (units 1) ≡ true
    → IsSane now (some b)
    → (worth now (some (record b { last = now })) +ℤ pos 0 ≤ℤ worth now (some b))
      × IsSane now (some (record b { last = now }))
refused_lem now b few s =
    let low : refilled now b <ℤ units 1 = ground (arith, few) in
    let cap : refilled now (record b { last = now }) ≤ℤ b.tokens =
      omega (int_laws, scale_50 (now -ℤ now), refilled-le now (record b { last = now })) in
    let less : b.tokens ≤ℤ refilled now b = elim (refilled-cases now b) [
      | inl full ↦ absurd (omega (int_laws, full, low))
      | inr part ↦ omega (int_laws, scale_50 (now -ℤ b.last), part, s.1)
    ] in
    (omega (int_laws, cap, less), (s.0, omega arith))

allowed_lem :
    (now : ℤ) (b : Bucket)
    → ltb_ℤ (refilled now b) (units 1) ≡ false
    → (worth now (some (record { tokens = refilled now b -ℤ units 1; last = now })) +ℤ units 1
        ≤ℤ worth now (some b))
      × IsSane now (some (record { tokens = refilled now b -ℤ units 1; last = now }))
allowed_lem now b enough =
    let high : units 1 ≤ℤ refilled now b = ground (arith, enough) in
    let left : Bucket = record { tokens = refilled now b -ℤ units 1; last = now } in
    (
      omega (int_laws, scale_50 (now -ℤ now), refilled-le now left),
      (omega (int_laws, high), omega arith),
    )

-- What a datagram of `source` does to the tokens of `j`.
allow_rate-HasSpent :
    (now : ℤ) (j source : Text) (d : Dict Bucket)
    → Distinct d
    → IsSane now (get j d)
    → HasSpent now j
        (spent (text_eq j source && (allow_rate now source d).1))
        d
        (allow_rate now source d).0
unfolding allow_rate
allow_rate-HasSpent now j source d u s = elim (Option-cases (get source d)) [
  | inl new ↦
      let b : Bucket = record { tokens = units 99; last = now } in
      rw (allow_rate, new)
        (trimmed-HasSpent now j (spent (text_eq j source && true)) d (set source b d)
          (set-HasSpent now j d source b true u s (λ sane. rw new (new_lem now))))
  | inr (b, old) ↦ elim (Bool-cases (ltb_ℤ (refilled now b) (units 1))) [
    | inl few ↦
        rw (allow_rate, old, few)
          (set-HasSpent now j d source (record b { last = now }) false u s
            (λ sane. rw old (refused_lem now b few (subst (IsSane now) old sane))))
    | inr enough ↦
        rw (allow_rate, old, enough)
          (set-HasSpent now j d source (record { tokens = refilled now b -ℤ units 1; last = now })
            true u s (λ sane. rw old (allowed_lem now b enough)))
  ]
]

-- The datagrams of the source `j` that pass, of these arrivals with their times and sources.
unfoldable pub passed : Text → List (ℤ × Text) → Dict Bucket → ℕ
passed j [] d = 0
passed j (a ∷ arrivals) d =
    let (after, allowed) = allow_rate a.0 a.1 d in
    let rest = passed j arrivals after in if text_eq j a.1 && allowed then suc rest else rest

-- The times do not go back, and they end by `until`.
abbrev pub IsOrdered : ℤ → ℤ → List (ℤ × Text) → Type 0
IsOrdered start until [] = start ≤ℤ until
IsOrdered start until (a ∷ arrivals) = (start ≤ℤ a.0) × IsOrdered a.0 until arrivals

IsSane-later : (now later : ℤ) (o : Option Bucket) → IsSane now o → now ≤ℤ later → IsSane later o
IsSane-later now later none s t = tt
IsSane-later now later (some b) s t = (s.0, omega (arith, s.1, t))

worth_nonnegative : (now : ℤ) (o : Option Bucket) → IsSane now o → pos 0 ≤ℤ worth now o
worth_nonnegative now none s = omega arith
worth_nonnegative now (some b) s = elim (refilled-cases now b) [
  | inl full ↦ omega (arith, full)
  | inr part ↦ omega (int_laws, scale_50 (now -ℤ b.last), part, s.0, s.1)
]

time_lem :
    (a b c : ℤ)
    → scale (c -ℤ b) rate_limit_per_sec +ℤ scale (b -ℤ a) rate_limit_per_sec
      ≤ℤ scale (c -ℤ a) rate_limit_per_sec
time_lem a b c = omega (int_laws, scale_50 (c -ℤ b), scale_50 (b -ℤ a), scale_50 (c -ℤ a))

cost_lem :
    (a b : ℤ) {allowed : Bool} (known : Bool)
    → allowed ≡ known
    → a +ℤ spent allowed ≤ℤ b
    → a +ℤ spent known ≤ℤ b
cost_lem a b known e h = rw (sym e) h

passed-worth :
    (start until : ℤ) (j : Text) (arrivals : List (ℤ × Text)) (d : Dict Bucket)
    → Distinct d
    → IsSane start (get j d)
    → IsOrdered start until arrivals
    → units (passed j arrivals d)
      ≤ℤ worth start (get j d) +ℤ scale (until -ℤ start) rate_limit_per_sec
unfolding passed
passed-worth start until j [] d u s t =
    omega (int_laws, scale_50 (until -ℤ start), worth_nonnegative start (get j d) s, t)
passed-worth start until j (a ∷ arrivals) d u s t =
    let sane = IsSane-later start a.0 (get j d) s t.0 in
    let step = allow_rate-HasSpent a.0 j a.1 d u sane in
    let rest = passed-worth a.0 until j arrivals (allow_rate a.0 a.1 d).0 step.2 step.1 t.1 in
    let gain = worth_later start a.0 (get j d) s t.0 in
    elim (Bool-cases (text_eq j a.1 && (allow_rate a.0 a.1 d).1)) [
      | inl counted ↦
          rw counted (
            omega
              (int_laws, time_lem start a.0 until, gain, rest, cost_lem _ _ true counted step.0))
      | inr other ↦
          rw other (
            omega (int_laws, time_lem start a.0 until, gain, rest, cost_lem _ _ false other step.0))
    ]

worth_full : (now : ℤ) (o : Option Bucket) → worth now o ≤ℤ units rate_limit_burst
worth_full now none = omega arith
worth_full now (some b) = refilled_cap now b

-- Whatever other datagrams arrive, of one source at most 100 pass, and 50 more for each second: if
-- the clock does not go back, and the source's bucket has no debt and no time in the future, then
-- the number of its datagrams that pass, less 100, is at most 50 times the seconds between the
-- start and the end. The eviction of buckets, and its return to a full one, is included.
pub passed-le :
    (start until : ℤ) (j : Text) (arrivals : List (ℤ × Text)) (d : Dict Bucket)
    → Distinct d
    → IsSane start (get j d)
    → IsOrdered start until arrivals
    → units (passed j arrivals d)
      ≤ℤ units rate_limit_burst +ℤ scale (until -ℤ start) rate_limit_per_sec
passed-le start until j arrivals d u s t =
    omega (int_laws, passed-worth start until j arrivals d u s t, worth_full start (get j d))
