-- ===== src/Mempool/Pruning.antt =====
-- What `prune_stale` of src/mempool.py removes.
use echocoin_core.Prelude.{
  ℕ, ◌≡◌, refl, false, some, none, Option, [], ◌∷◌, ℤ, Text, text_eq, text_eq_iff, arith,
  if◌then◌else◌, Bool-cases, inl, inr, Option-cases,
}
use echocoin_core.Crypto.{mem}
use echocoin_core.Dict.{Dict, Distinct, get, contains}
use echocoin_core.Env.{Env}
use echocoin_core.State.{State}
use echocoin_core.Mempool.{Pending, Mempool, is_stale, stale_hashes, prune_stale}
use echocoin_core.Mempool.Removal.{IsAccounted, get-remove_many, remove_many-IsAccounted}

module _ (s : State) (now : ℤ) (ttl : ℕ) where
  not-mem_of_not-contains :
      (j : Text) (d : Dict Pending)
      → contains j d ≡ false
      → mem j (stale_hashes s now ttl d) ≡ false
  unfolding stale_hashes mem contains
  not-mem_of_not-contains j [] h = refl
  not-mem_of_not-contains j (e ∷ d) h = elim (Bool-cases (is_stale s now ttl e.1)) [
    | inl stale ↦ rw (stale) (ground (arith, h, not-mem_of_not-contains j d))
    | inr fresh ↦ rw (fresh) (not-mem_of_not-contains j d (ground (arith, h)))
  ]

  mem-stale_hashes :
      (j : Text) (p : Pending) (d : Dict Pending)
      → Distinct d
      → get j d ≡ some p
      → mem j (stale_hashes s now ttl d) ≡ is_stale s now ttl p
  unfolding stale_hashes mem get
  mem-stale_hashes j p [] u h = cc
  mem-stale_hashes j p (e ∷ d) u h = elim (Bool-cases (text_eq j e.0)) [
    | inl here ↦
        let k : j ≡ e.0 = (text_eq_iff j e.0).0 here in
        let same : e.1 ≡ p = ground (arith, h, here) in
        let later : mem j (stale_hashes s now ttl d) ≡ false =
          rw k (not-mem_of_not-contains e.0 d u.0) in
        elim (Bool-cases (is_stale s now ttl e.1)) [
          | inl stale ↦ rw (← same, stale, here) refl
          | inr fresh ↦ rw (← same, fresh) later
        ]
    | inr there ↦
        let ih : mem j (stale_hashes s now ttl d) ≡ is_stale s now ttl p =
          mem-stale_hashes j p d u.1 (rw there at h) in
        elim (Bool-cases (is_stale s now ttl e.1)) [
          | inl stale ↦ rw (stale, there) ih
          | inr fresh ↦ rw fresh ih
        ]
  ]

  -- An entry as it is after the pruning: gone if it is superseded or expired.
  abbrev pub unless_stale : Option Pending → Option Pending
  unless_stale none = none
  unless_stale (some p) = if is_stale s now ttl p then none else some p

  module _ (env : Env) where
    -- In a pool whose books are right, after `prune_stale` an entry is there exactly if it was
    -- there before and is neither superseded by the confirmed nonce nor older than the limit; the
    -- books stay right.
    pub prune_stale_lem :
        (m : Mempool) (j : Text)
        → IsAccounted env m
        → IsAccounted env (prune_stale env s now ttl m).0
          × (get j (prune_stale env s now ttl m).0.pool ≡ unless_stale (get j m.pool))
    unfolding prune_stale
    prune_stale_lem m j a = (
      remove_many-IsAccounted env (stale_hashes s now ttl m.pool) m a,
      let after = get-remove_many env j (stale_hashes s now ttl m.pool) m a in
          elim (Option-cases (get j m.pool)) [
            | inl missing ↦ ground (arith, after, missing)
            | inr (p, e) ↦ ground (arith, after, e, mem-stale_hashes j p m.pool a.distinct e)
          ],
    )
