-- ===== src/Tests/Pool.antt =====
-- Runs of the mempool, and the theorems about it at concrete inputs.
use echocoin_core.Prelude.{codes, ◌≡◌, ◌≢◌, refl, some, [], ◌∷◌, pos, Text, arith}
use echocoin_core.Dict.{get}
use echocoin_core.Wire.{given, output, Tx}
use echocoin_core.State.{State}
use echocoin_core.Tx.{tx_hash}
use echocoin_core.Mempool.{
  Mempool, added, insert_by, sort_by, txs_from, apply_all, probe_state_for, stale_hashes, rate_less,
  remove, remove_many, choose, admit, victims, add, prune_stale, mempool_ttl_seconds,
}
use echocoin_core.Mempool.Sizes.{sizes}
use echocoin_core.Mempool.Removal.{IsAccounted}
use echocoin_core.Mempool.Admission.{IsValid, Effect, add-IsValid, add-Effect}
use echocoin_core.Mempool.Pruning.{unless_stale, prune_stale_lem}
use echocoin_core.Mempool.Probe.{IsPayment, IsProbe, total_cost, probe_state_for_lem}
use echocoin_core.Tests.Toy.{toy, alice, payment, rich, paid, ledger_runs}

unfoldable pool_runs : Unit {0}
unfolding ledger_runs insert_by sort_by txs_from apply_all probe_state_for stale_hashes rate_less
    remove remove_many choose admit victims add prune_stale sizes
pool_runs = tt

-- A second payment, with the next nonce.
abbrev later_payment : Tx
later_payment = record payment { nonce = given (pos 2); fee = given (pos 7) }

abbrev one_pending : Mempool
one_pending = record {
  pool = (1 ∷ [], record { tx = payment; entered = pos 0 }) ∷ [];
  total_bytes = pos 1;
}

one_pending-IsValid : IsValid toy one_pending
unfolding pool_runs
one_pending-IsValid = record {
  accounted = record { distinct = (refl, tt); bytes = refl };
  bounded = omega arith;
}

add-IsValid_example : IsValid toy (add toy (pos 5) later_payment one_pending).0
add-IsValid_example = add-IsValid toy (pos 5) later_payment one_pending one_pending-IsValid

add-Effect_example :
    ((2 ∷ []) ≡ tx_hash toy later_payment)
    × (get (2 ∷ []) (add toy (pos 5) later_payment one_pending).0.pool
        ≡ some (record { tx = later_payment; entered = pos 5 }))
    × Effect toy later_payment one_pending (add toy (pos 5) later_payment one_pending).0 (1 ∷ [])
unfolding pool_runs
add-Effect_example =
    add-Effect toy (pos 5) later_payment one_pending (2 ∷ []) (1 ∷ []) one_pending-IsValid refl
      (λ e. cc)

known_again : (h : Text) → (add toy (pos 5) payment one_pending).1 ≢ added h
unfolding pool_runs
known_again h e = cc

prune_stale_lem_example :
    IsAccounted toy (prune_stale toy paid (pos 5) mempool_ttl_seconds one_pending).0
    × (get (1 ∷ []) (prune_stale toy paid (pos 5) mempool_ttl_seconds one_pending).0.pool
        ≡ unless_stale paid (pos 5) mempool_ttl_seconds (get (1 ∷ []) one_pending.pool))
prune_stale_lem_example =
    prune_stale_lem paid (pos 5) mempool_ttl_seconds toy one_pending (1 ∷ [])
      one_pending-IsValid.accounted

-- The ledger after a reorganisation that took the sender's ticks away.
abbrev poor : State
poor = record rich { balances = (alice, pos 11) ∷ [] }

abbrev to_bob : Tx
to_bob = record payment { outputs = given (output (given (codes "bob")) (given (pos 10)) ∷ []) }

abbrev to_bob_pending : Mempool
to_bob_pending = record one_pending {
  pool = (1 ∷ [], record { tx = to_bob; entered = pos 0 }) ∷ [];
}

to_bob-IsPayment : IsPayment alice to_bob
unfolding pool_runs
to_bob-IsPayment = record {
  outputs = _;
  total = pos 10;
  fee = pos 2;
  nonce = pos 1;
  from_eq = refl;
  outputs_eq = refl;
  total_eq = refl;
  fee_eq = refl;
  nonce_eq = refl;
  positive = omega arith;
  to_others = (
    record {
      to = codes "bob";
      amount = pos 10;
      to_eq = refl;
      amount_eq = refl;
      positive = omega arith;
      is_other = refl;
    },
    tt,
  );
}

probe_state_for_lem_example :
    IsProbe alice
      (total_cost (txs_from alice to_bob_pending.pool))
      poor
      (probe_state_for alice poor to_bob_pending)
unfolding pool_runs
probe_state_for_lem_example =
    probe_state_for_lem alice poor to_bob_pending (omega arith) (to_bob-IsPayment, tt)
