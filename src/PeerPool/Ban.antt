-- ===== src/PeerPool/Ban.antt =====
-- What a third strike means for the calls after it.
use echocoin_core.Prelude.{
  ◌+◌, ◌≤◌, ◌≡◌, ◌∙◌, sym, refl, true, false, List, [], ◌∷◌, ℤ, ◌+ℤ◌, ◌≤ℤ◌, ◌<ℤ◌, Text, text_eq,
  text_eq_iff, arith, int_laws, leb, All, Bool-cases, inl, inr, subst,
}
use echocoin_core.Dict.{get, contains, Distinct, contains-set, contains-pop-false}
use echocoin_core.PeerPool.{
  IpLib, Info, PeerPool, units, change_info, update_info, set_http_reachable, note_relayed_builder,
  touch, remove, note_strike, strike, stale_peers, remove_all, evict_stale, add, cooldown_of,
  strikes_of, cooldown_max_seconds,
}
use echocoin_core.PeerPool.Bounds.{
  Call, to_add, to_touch, to_strike, to_remove, to_evict, to_update, to_reach, to_note, run,
  run_all,
}
use echocoin_core.PeerPool.Health.{contains-remove, add_cooling}
use echocoin_core.PeerPool.Strikes.{
  get-pop_other, peers-note_strike, get-note_strike, all_peers, strikes_of-get, cooldown_of-get,
  strikes_of-remove, cooldown_of-remove, strikes_of-note_strike, cooldown_of-note_strike,
}

module _ (mono : ℤ) (addr : Text) where
  -- The call is in the five minutes from `mono` on, as far as it reads that clock, and it is no
  -- `touch` of the address.
  abbrev pub Spares : Call → Type 0
  Spares (to_add wall later a) = later <ℤ mono +ℤ units cooldown_max_seconds
  Spares (to_touch wall a) = text_eq addr a ≡ false
  Spares (to_strike later a) = mono ≤ℤ later
  Spares _ = Unit

  -- Out of the pool, with three strikes and a cooldown to the end of the five minutes at least.
  record IsOut (p : PeerPool) : Type 0 where
    pub gone : contains addr p.peers ≡ false
    pub three : 3 ≤ strikes_of addr p
    pub until : mono +ℤ units cooldown_max_seconds ≤ℤ cooldown_of addr p

  -- What leaves the address's failures alone and does not let it in.
  still :
      (p q : PeerPool)
      → IsOut p
      → contains addr q.peers ≡ false
      → get addr q.fails ≡ get addr p.fails
      → IsOut q
  still p q out gone same = record {
    gone = gone;
    three = rw (strikes_of-get addr q p same) out.three;
    until = rw (cooldown_of-get addr q p same) out.until;
  }

  remove-IsOut : (a : Text) (p : PeerPool) → IsOut p → IsOut (remove a p)
  unfolding remove
  remove-IsOut a p out = still p _ out (contains-pop-false addr a p.peers out.gone) refl

  remove_all-IsOut : (others : List Text) (p : PeerPool) → IsOut p → IsOut (remove_all others p)
  unfolding remove_all
  remove_all-IsOut [] p out = out
  remove_all-IsOut (a ∷ others) p out = remove_all-IsOut others (remove a p) (remove-IsOut a p out)

  change_info-IsOut :
      (a : Text) (f : Info → Info) (p : PeerPool) → IsOut p → IsOut (change_info a f p)
  unfolding change_info
  change_info-IsOut a f p out = elim (Bool-cases (contains a p.peers)) [
    | inl held ↦ rw held (still p _ out out.gone refl)
    | inr gone ↦ rw gone out
  ]

  touch-IsOut :
      (wall : ℤ) (a : Text) (p : PeerPool)
      → text_eq addr a ≡ false
      → IsOut p
      → IsOut (touch wall a p)
  unfolding touch
  touch-IsOut wall a p differs out =
      still p _ out (ground (arith, out.gone, differs, contains-set addr a wall p.peers))
        (get-pop_other addr a p.fails differs)

  -- One more strike, behind two or more.
  noted_strike :
      (later : ℤ) (p : PeerPool)
      → mono ≤ℤ later
      → 2 ≤ strikes_of addr p
      → contains addr p.peers ≡ false
      → IsOut (note_strike later addr p)
  noted_strike later p since two gone = record {
    gone = peers-note_strike addr later addr p ∙ gone;
    three = rw (strikes_of-note_strike later addr p) (omega (arith, two));
    until = rw (cooldown_of-note_strike later addr p two) (omega (int_laws, since));
  }

  note_strike-IsOut :
      (later : ℤ) (a : Text) (p : PeerPool)
      → mono ≤ℤ later
      → IsOut p
      → IsOut (note_strike later a p)
  note_strike-IsOut later a p since out = elim (Bool-cases (text_eq addr a)) [
    | inl same ↦
        let key : addr ≡ a = (text_eq_iff addr a).0 same in
        rw (← key) (noted_strike later p since (omega (arith, out.three)) out.gone)
    | inr differs ↦
        still p (note_strike later a p) out (peers-note_strike addr later a p ∙ out.gone)
          (get-note_strike addr later a p differs)
  ]

  strike-IsOut :
      (later : ℤ) (a : Text) (p : PeerPool) → mono ≤ℤ later → IsOut p → IsOut (strike later a p)
  unfolding strike
  strike-IsOut later a p since out =
      let noted = note_strike-IsOut later a p since out in
      elim (Bool-cases (leb 3 (strikes_of a p + 1))) [
        | inl third ↦ rw third (remove-IsOut a (note_strike later a p) noted)
        | inr fewer ↦ rw fewer noted
      ]

  module _ {Ip : Type 0} (lib : IpLib Ip) where
    add_out :
        (wall later : ℤ) (p : PeerPool)
        → later <ℤ mono +ℤ units cooldown_max_seconds
        → IsOut p
        → add lib wall later addr p ≡ (p, false)
    add_out wall later p soon out =
        add_cooling lib wall later addr p out.gone (ground (arith, out.until, soon))

    add_other :
        (wall later : ℤ) (a : Text) (p : PeerPool)
        → text_eq addr a ≡ false
        → contains addr p.peers ≡ false
        → (contains addr (add lib wall later a p).0.peers ≡ false)
          × (get addr (add lib wall later a p).0.fails ≡ get addr p.fails)
    unfolding add
    add_other wall later a p differs gone =
        ground (arith, contains-set addr a wall p.peers, differs, gone)

    run-IsOut : (c : Call) (p : PeerPool) → Spares c → IsOut p → IsOut (run lib c p)
    unfolding evict_stale update_info set_http_reachable note_relayed_builder
    run-IsOut (to_add wall later a) p soon out = elim (Bool-cases (text_eq addr a)) [
      | inl same ↦
          let key : addr ≡ a = (text_eq_iff addr a).0 same in
          subst (λ b. IsOut (add lib wall later b p).0) key (rw (add_out wall later p soon out) out)
      | inr differs ↦
          let (gone, kept) = add_other wall later a p differs out.gone in still p _ out gone kept
    ]
    run-IsOut (to_touch wall a) p differs out = touch-IsOut wall a p differs out
    run-IsOut (to_strike later a) p since out = strike-IsOut later a p since out
    run-IsOut (to_remove a) p h out = remove-IsOut a p out
    run-IsOut (to_evict wall) p h out = remove_all-IsOut (stale_peers _ p.peers) p out
    run-IsOut (to_update a height wallet version) p h out = change_info-IsOut a _ p out
    run-IsOut (to_reach a is_up checked_at) p h out = change_info-IsOut a _ p out
    run-IsOut (to_note a []) p h out = out
    run-IsOut (to_note a (c ∷ cs)) p h out = change_info-IsOut a _ p out

    run_all-IsOut :
        (cs : List Call) (p : PeerPool) → All Spares cs → IsOut p → IsOut (run_all lib cs p)
    unfolding run_all
    run_all-IsOut [] p all out = out
    run_all-IsOut (c ∷ cs) p all out =
        run_all-IsOut cs (run lib c p) all.1 (run-IsOut c p all.0 out)

  third_strike :
      (p : PeerPool) → Distinct p.peers → 2 ≤ strikes_of addr p → IsOut (strike mono addr p)
  unfolding strike
  third_strike p d two =
      let third : leb 3 (strikes_of addr p + 1) ≡ true = ground arith in
      rw third (record {
        gone =
            contains-remove addr (note_strike mono addr p)
              (subst Distinct (sym (all_peers mono addr p)) d);
        three =
            rw
              (
                strikes_of-remove addr addr (note_strike mono addr p),
                strikes_of-note_strike mono addr p,
              )
              (omega (arith, two));
        until =
            rw
              (
                cooldown_of-remove addr addr (note_strike mono addr p),
                cooldown_of-note_strike mono addr p two,
              )
              (omega int_laws);
      })

-- A third strike in a row puts an address out of a pool that lists no address twice. For the five
-- minutes from then, and whatever other calls come in between, but for a `touch` of the address, it
-- stays out of the pool, and `add` refuses it and changes nothing.
pub strike-run_all :
    {Ip : Type 0} (lib : IpLib Ip) (mono : ℤ) (addr : Text) (p : PeerPool) (cs : List Call)
    → Distinct p.peers
    → 2 ≤ strikes_of addr p
    → All (Spares mono addr) cs
    → (contains addr (run_all lib cs (strike mono addr p)).peers ≡ false)
      × ((wall later : ℤ)
          → later <ℤ mono +ℤ units cooldown_max_seconds
          → add lib wall later addr (run_all lib cs (strike mono addr p))
            ≡ (run_all lib cs (strike mono addr p), false))
strike-run_all lib mono addr p cs d two all =
    let out =
      run_all-IsOut mono addr lib cs (strike mono addr p) all (third_strike mono addr p d two) in
    (out.gone, λ wall later soon. add_out mono addr lib wall later _ soon out)
