-- ===== src/Rewarder/Conserved.antt =====
-- What a cycle of the rewarder does to the budget, and whom it pays.

use native.Mathlib.Nat.{div-mul-le_self}
use echocoin_core.Prelude.{
  ℕ, zero, suc, ◌*◌, ◌≡◌, ap, refl, Bool, true, false, Option, none, some, List, [], ◌∷◌, keep, All,
  ℤ, pos, negsuc, ◌+ℤ◌, ◌≤ℤ◌, ◌<ℤ◌, scale, floor_div, leb_ℤ, int_laws, Text, length, arith,
  if◌then◌else◌, Bool-cases, Option-cases, inl, inr,
}
use echocoin_core.Env.{Env}
use echocoin_core.State.{get_balance}
use echocoin_core.Mempool.{Mempool}
use echocoin_core.Storage.{Database}
use echocoin_core.Rewarder.{
  is_confirmed, Budget, Cycle, View, min_ℤ, share_of, outputs_of, resolve_pending, is_eligible,
  eligible, eligible_wallets, recent_block_win_counts, active_peer_wallets, send, pay_share,
  pay_pool, pay_out, run_once,
}

abbrev pub amount_of_pending : Option (Text × ℤ) → ℤ
amount_of_pending none = pos 0
amount_of_pending (some p) = p.1

-- What is left together with what was paid last.
abbrev pub total : Budget → ℤ
total b = b.remaining_ticks +ℤ amount_of_pending b.pending

unfoldable pub paid : List (Text × ℤ) → ℤ
paid [] = pos 0
paid (out ∷ outs) = out.1 +ℤ paid outs

-- A cycle that keeps to a budget of `before` and a wallet of `balance`, and pays whom it may.
abbrev pub IsPayout : (Text → Bool) → ℤ → ℤ → Cycle → Type 0
IsPayout may_pay before balance c =
    (total c.0 ≡ before)
    × (pos 0 ≤ℤ c.0.remaining_ticks)
    × (paid c.1 ≤ℤ balance)
    × All (λ out. (may_pay out.0 ≡ true) × (pos 0 <ℤ out.1)) c.1

keep-All : (p : Text → Bool) (xs : List Text) → All (λ x. p x ≡ true) (keep p xs)
unfolding keep
keep-All p [] = tt
keep-All p (x ∷ xs) = elim (Bool-cases (p x)) [
  | inl yes_p ↦ rw yes_p (yes_p, keep-All p xs)
  | inr no_p ↦ rw no_p (keep-All p xs)
]

paid-outputs_of :
    (q : ℕ) (wallets : List Text) → paid (outputs_of (pos q) wallets) ≡ pos (q * length wallets)
unfolding paid
paid-outputs_of q [] = ap pos (omega arith)
paid-outputs_of q (w ∷ ws) = rw (paid-outputs_of q ws) (omega int_laws)

outputs_of-All :
    (may_pay : Text → Bool) (share : ℤ) (wallets : List Text)
    → pos 0 <ℤ share
    → All (λ w. may_pay w ≡ true) wallets
    → All (λ out. (may_pay out.0 ≡ true) × (pos 0 <ℤ out.1)) (outputs_of share wallets)
outputs_of-All may_pay share [] h k = tt
outputs_of-All may_pay share (w ∷ ws) h k = ((k.0, h), outputs_of-All may_pay share ws h k.1)

module _ (submit : List (Text × ℤ) → Option Text) (slice : ℤ → ℤ) (may_pay : Text → Bool)
    (balance : ℤ) (b : Budget) (fresh : b.pending ≡ none) (left : pos 0 ≤ℤ b.remaining_ticks)
    (covered : pos 0 ≤ℤ balance) where
  nothing_lem : IsPayout may_pay b.remaining_ticks balance (b, [])
  unfolding paid
  nothing_lem = (rw fresh (omega int_laws), left, covered, tt)

  send-IsPayout :
      (q : ℕ) (wallets : List Text)
      → pos 0 <ℤ pos q
      → pos (q * length wallets) ≤ℤ b.remaining_ticks
      → pos (q * length wallets) ≤ℤ balance
      → All (λ w. may_pay w ≡ true) wallets
      → IsPayout may_pay b.remaining_ticks balance
          (send submit (λ other. other) b.remaining_ticks (pos q) wallets b)
  unfolding send scale
  send-IsPayout q wallets h within cover may =
      elim (Option-cases (submit (outputs_of (pos q) wallets))) [
        | inl failed ↦ rw (send, failed) nothing_lem
        | inr (hash, sent) ↦
            rw (send, sent)
              (
                omega int_laws,
                omega (int_laws, within),
                rw (paid-outputs_of q wallets) cover,
                outputs_of-All may_pay (pos q) wallets h may,
              )
      ]

  pay_share-IsPayout :
      (share : ℤ) (wallets : List Text)
      → scale share (length wallets) ≤ℤ b.remaining_ticks
      → scale share (length wallets) ≤ℤ balance
      → All (λ w. may_pay w ≡ true) wallets
      → IsPayout may_pay b.remaining_ticks balance
          (pay_share submit (λ other. other) b.remaining_ticks share wallets b)
  unfolding pay_share scale
  pay_share-IsPayout (negsuc n) wallets within cover may =
      let low : leb_ℤ (negsuc n) (pos 0) ≡ true = ground arith in rw low nothing_lem
  pay_share-IsPayout (pos zero) wallets within cover may = nothing_lem
  pay_share-IsPayout (pos (suc n)) wallets within cover may =
      let positive : leb_ℤ (pos (suc n)) (pos 0) ≡ false = ground arith in
      rw positive (send-IsPayout (suc n) wallets (omega arith) within cover may)

  share_lem : (amount : ℤ) (n : ℕ) → pos 0 <ℤ amount → scale (share_of amount n) n ≤ℤ amount
  unfolding share_of scale floor_div
  share_lem (negsuc a) n h = absurd (omega (arith, h))
  share_lem (pos a) zero h = omega arith
  share_lem (pos a) (suc n) h = omega (arith, div-mul-le_self a (suc n))

  pay_out-IsPayout :
      (wallets : List Text)
      → slice b.remaining_ticks ≤ℤ b.remaining_ticks
      → All (λ w. may_pay w ≡ true) wallets
      → IsPayout may_pay b.remaining_ticks balance
          (pay_out submit (λ other. other) slice b.remaining_ticks balance wallets b)
  unfolding pay_out pay_pool
  pay_out-IsPayout [] h may = nothing_lem
  pay_out-IsPayout (w ∷ ws) h may =
      let amount = min_ℤ (slice b.remaining_ticks) balance in
      elim (Bool-cases (leb_ℤ amount (pos 0))) [
        | inl none_left ↦ rw none_left nothing_lem
        | inr some_left ↦
            let positive : pos 0 <ℤ amount = ground (arith, some_left) in
            let a : amount ≤ℤ b.remaining_ticks = ground (arith, h) in
            let c : amount ≤ℤ balance = ground arith in
            let shared = share_lem amount (length (w ∷ ws)) positive in
            rw some_left (
              pay_share-IsPayout (share_of amount (length (w ∷ ws))) (w ∷ ws)
                (omega (arith, shared, a)) (omega (arith, shared, c)) may)
      ]

resolve_pending-none :
    (m : Mempool) (db : Database) (b : Budget) → (resolve_pending m db b).pending ≡ none
unfolding resolve_pending
resolve_pending-none m db b = elim (Option-cases b.pending) [
  | inl no_payout ↦ rw no_payout refl
  | inr (p, payout) ↦ elim (Bool-cases (is_confirmed p.0 m db)) [
    | inl there ↦ rw (payout, there) refl
    | inr gone ↦ rw (payout, gone) refl
  ]
]

-- If nothing else changes the budget meanwhile, the part that a cycle may spend of an amount that is
-- not negative is at most all of it, and neither the resolved budget nor the wallet's balance is
-- negative, then after a cycle what is left and what is pending make the resolved budget, what is
-- left is not negative, the payout is within the wallet's balance, and every payee is eligible and
-- gets a positive amount.
pub run_once-IsPayout :
    (env : Env) (window : ℕ) (submit : List (Text × ℤ) → Option Text) (slice : ℤ → ℤ) (v : View)
    (b : Budget)
    → ((n : ℤ) → pos 0 ≤ℤ n → slice n ≤ℤ n)
    → pos 0 ≤ℤ (resolve_pending v.mempool v.db b).remaining_ticks
    → pos 0 ≤ℤ get_balance v.reward_addr v.state
    → IsPayout
        (is_eligible env v.reward_addr
          (recent_block_win_counts window v.chain)
          v.state
          (resolve_pending v.mempool v.db b).remaining_ticks)
        (resolve_pending v.mempool v.db b).remaining_ticks
        (get_balance v.reward_addr v.state)
        (run_once env window submit (λ other. other) slice v b)
unfolding run_once eligible_wallets eligible
run_once-IsPayout env window submit slice v b h left covered =
    let resolved = resolve_pending v.mempool v.db b in
    let fresh = resolve_pending-none v.mempool v.db b in
    let may_pay =
      is_eligible env v.reward_addr (recent_block_win_counts window v.chain) v.state
        resolved.remaining_ticks in
    let balance = get_balance v.reward_addr v.state in
    elim (Bool-cases (leb_ℤ resolved.remaining_ticks (pos 0))) [
      | inl spent ↦ rw spent (nothing_lem submit slice may_pay balance resolved fresh left covered)
      | inr more ↦ rw more (
          pay_out-IsPayout submit slice may_pay balance resolved fresh left covered _
            (h resolved.remaining_ticks left)
            (keep-All may_pay (active_peer_wallets v.wall v.peers)))
    ]

-- What resolving does: a payout that is confirmed stays spent, one that is not comes back.
pub resolve_pending-total :
    (m : Mempool) (db : Database) (b : Budget) (h : Text) (amount : ℤ)
    → b.pending ≡ some (h, amount)
    → total (resolve_pending m db b) ≡ (if is_confirmed h m db then b.remaining_ticks else total b)
unfolding resolve_pending
resolve_pending-total m db b h amount e = elim (Bool-cases (is_confirmed h m db)) [
  | inl there ↦ rw (e, there) (omega int_laws)
  | inr gone ↦ rw (e, gone) (omega int_laws)
]
