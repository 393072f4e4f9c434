-- ===== src/Node/Adoption.antt =====
-- The evaluation of a remote chain, and the state that the node adopts with it.
use echocoin_core.Prelude.{
  ok_injective, ◌≡◌, ◌≢◌, refl, sym, ◌∙◌, ap, Bool, true, false, List, [], ◌∷◌, ◌++◌, ℤ, pos, ℕ,
  Text, All, take, drop, take-append-drop, append_assoc, append-nil, Result, ok, reject, raise,
  >>=-eq-ok, Result-cases, inl, inr, arith, genesis_mismatch, none, some, last?, if◌then◌else◌,
}
use echocoin_core.Wire.{Time, Block}
use echocoin_core.Env.{Env}
use echocoin_core.ChainState.{ChainState, from_chain, validate_and_apply, is_better_than}
use echocoin_core.ChainState.Grown.{Grown, validate_and_apply-Grown}
use echocoin_core.ChainState.Replay.{
  Reached, grown, IsReachable, Reached-IsReachable, from_chain-Reached,
}
use echocoin_core.Node.{
  refused, accepted, as_invalid_block, same_genesis, fork_point, apply_tail, state_of_prefix,
  verdict, validate_tail, judge, evaluate_tail, evaluate_remote_chain,
}

as_invalid_block-ok :
    {A : Type 0} (height : ℤ) (r : Result A) {a : A} → as_invalid_block height r ≡ ok a → r ≡ ok a
as_invalid_block-ok height (ok a) h = h
as_invalid_block-ok height (reject e) h = cc
as_invalid_block-ok height (raise e) h = cc

module _ (env : Env) (clock : Block → Time) (message : Text) where
  -- What holds of an accepted chain.
  record Adopted (cs : ChainState) (remote : List Block) (fork : ℕ) (new : ChainState)
      : Type 0 where
    start : ChainState
    end : ChainState
    started : state_of_prefix env clock message (take fork remote) ≡ ok start
    applied : apply_tail env clock message (drop fork remote) start ≡ ok end
    replayed : from_chain remote ≡ ok new
    better : is_better_than new cs ≡ ok true

  verdict-accepted :
      (fork f : ℕ) (tail t : List Block) (remote_cs new : ChainState) (better : Bool)
      → verdict fork tail remote_cs better ≡ accepted f t new
      → (f ≡ fork) × (remote_cs ≡ new) × (better ≡ true)
  unfolding verdict
  verdict-accepted fork f tail t remote_cs new true h = ground (arith, h)
  verdict-accepted fork f tail t remote_cs new false h = absurd (ground (arith, h))

  judge-accepted :
      (cs : ChainState) (remote : List Block) (fork f : ℕ) (tail : List Block) (new : ChainState)
      → judge env clock message cs remote fork ≡ ok (accepted f tail new)
      → (f ≡ fork) × (from_chain remote ≡ ok new) × (is_better_than new cs ≡ ok true)
  unfolding judge
  judge-accepted cs remote fork f tail new h = elim (Result-cases (from_chain remote)) [
    | inr (inl (e, r)) ↦ absurd (ground (arith, h, r))
    | inr (inr (e, r)) ↦ absurd (ground (arith, h, r))
    | inl (rcs, r) ↦
        let (better, b, h') = >>=-eq-ok (is_better_than rcs cs) _ (rw (judge, r) at h) in
        let (same, is_new, wins) =
          verdict-accepted fork f (drop fork remote) tail rcs new better (ground (arith, h')) in
        (same, rw (← is_new) r, rw (← is_new) (rw wins at b))
  ]

  evaluate_tail-accepted :
      (cs : ChainState) (remote : List Block) (fork f : ℕ) (tail : List Block) (new : ChainState)
      → evaluate_tail env clock message cs remote fork ≡ ok (accepted f tail new)
      → (f ≡ fork) × Adopted cs remote fork new
  unfolding evaluate_tail validate_tail
  evaluate_tail-accepted cs remote fork f tail new h =
      elim (Result-cases (validate_tail env clock message (drop fork remote) (take fork remote))) [
        | inr (inl (e, r)) ↦ absurd (ground (arith, h, r))
        | inr (inr (e, r)) ↦ absurd (ground (arith, h, r))
        | inl (u, r) ↦
            let (start, started, r') =
              >>=-eq-ok (state_of_prefix env clock message (take fork remote)) _ r in
            let (end, applied, r'') =
              >>=-eq-ok (apply_tail env clock message (drop fork remote) start) _ r' in
            let (same, replayed, better) =
              judge-accepted cs remote fork f tail new (rw (evaluate_tail, r) at h) in
            (
              same,
              record {
                start = start;
                end = end;
                started = started;
                applied = applied;
                replayed = replayed;
                better = better;
              },
            )
      ]

  evaluate_remote_chain-accepted :
      (cs : ChainState) (remote : List Block) (f : ℕ) (tail : List Block) (new : ChainState)
      → evaluate_remote_chain env clock message cs remote ≡ ok (accepted f tail new)
      → (f ≡ fork_point cs.chain remote) × Adopted cs remote (fork_point cs.chain remote) new
  unfolding evaluate_remote_chain
  evaluate_remote_chain-accepted cs remote f tail new h =
      let (same, s, h') = >>=-eq-ok (same_genesis cs.chain remote) _ h in by_same same h'
    where
      by_same :
          (same : Bool)
          → (if same
              then evaluate_tail env clock message cs remote (fork_point cs.chain remote)
              else ok (refused none genesis_mismatch))
            ≡ ok (accepted f tail new)
          → (f ≡ fork_point cs.chain remote) × Adopted cs remote (fork_point cs.chain remote) new
      by_same true k = evaluate_tail-accepted cs remote (fork_point cs.chain remote) f tail new k
      by_same false k = absurd (ground (arith, k))

  -- Blocks above the genesis height that are applied one after the other to a reached state.
  apply_tail-Reached :
      (tail : List Block) (cs cs' : ChainState)
      → Reached env message cs
      → All (λ b. b.height ≢ pos 0) tail
      → apply_tail env clock message tail cs ≡ ok cs'
      → Reached env message cs' × (cs'.chain ≡ cs.chain ++ tail)
  unfolding apply_tail
  apply_tail-Reached [] cs cs' r nz h =
      let same : cs ≡ cs' = ground (arith, h) in
      (rw (← same) r, rw (← same) (sym (append-nil cs.chain)))
  apply_tail-Reached (b ∷ rest) cs cs' r nz h =
      let (mid, step, h') =
        >>=-eq-ok (as_invalid_block b.height (validate_and_apply env (clock b) cs b)) _ h in
      let taken = as_invalid_block-ok b.height (validate_and_apply env (clock b) cs b) step in
      let i : IsReachable env cs = Reached-IsReachable env message r in
      let g : Grown cs b mid = validate_and_apply-Grown env (clock b) cs b mid nz.0 taken in
      let (r', chain) =
        apply_tail-Reached rest mid cs' (grown cs (clock b) b mid r nz.0 taken) nz.1 h' in
      (r', chain ∙ rw g.chain_eq (append_assoc cs.chain (b ∷ []) rest))

  state_of_prefix-nonempty :
      (chain : List Block) (top : Block)
      → last? chain ≡ some top
      → state_of_prefix env clock message chain ≡ from_chain chain
  unfolding state_of_prefix
  state_of_prefix-nonempty [] top h = cc
  state_of_prefix-nonempty (b ∷ chain) top h = refl

  state_of_prefix-Reached :
      (base : ChainState)
      → Reached env message base
      → state_of_prefix env clock message base.chain ≡ ok base
  state_of_prefix-Reached base r =
      let i : IsReachable env base = Reached-IsReachable env message r in
      state_of_prefix-nonempty base.chain i.top i.top_eq ∙ from_chain-Reached env message base r

  -- If the shared part of an accepted remote chain is that of a reached state, and no later block
  -- has height 0, then the state that the node adopts is a reached one, by the same chain, and it
  -- is better than the one that it replaces.
  pub evaluate_remote_chain-Reached :
      (cs base : ChainState) (remote : List Block) (f : ℕ) (tail : List Block) (new : ChainState)
      → evaluate_remote_chain env clock message cs remote ≡ ok (accepted f tail new)
      → Reached env message base
      → base.chain ≡ take (fork_point cs.chain remote) remote
      → All (λ b. b.height ≢ pos 0) (drop (fork_point cs.chain remote) remote)
      → Reached env message new × (new.chain ≡ remote) × (is_better_than new cs ≡ ok true)
  evaluate_remote_chain-Reached cs base remote f tail new h r shared nz =
      let n = fork_point cs.chain remote in
      let a : Adopted cs remote n new = (evaluate_remote_chain-accepted cs remote f tail new h).1 in
      let starts : a.start ≡ base = ok_injective (
        sym a.started
        ∙ ap (state_of_prefix env clock message) (sym shared)
        ∙ state_of_prefix-Reached base r) in
      let (r', chain) =
        apply_tail-Reached (drop n remote) base a.end r nz (rw starts at a.applied) in
      let whole : a.end.chain ≡ remote = chain ∙ rw shared (take-append-drop n remote) in
      let same : new ≡ a.end =
        ok_injective
          (sym a.replayed ∙ ap from_chain (sym whole) ∙ from_chain-Reached env message a.end r') in
      (rw same r', rw same whole, a.better)
