-- ===== src/PeerPool/Bounds.antt =====
-- The peers that are held, through any sequence of the pool's methods.
use echocoin_core.Prelude.{
  ℕ, ◌+◌, ◌≤◌, ◌<◌, ◌≡◌, Bool, true, false, none, some, List, [], ◌∷◌, ℤ, ltb_ℤ, Text, text_eq,
  text_eq_iff, arith, leb, length, Bool-cases, inl, inr,
}
use echocoin_core.Dict.{
  Dict, get, contains, set, pop, Distinct, set-Distinct, pop-Distinct, length-set_new,
  length-set_old, contains-set, contains-pop, length-pop,
}
use echocoin_core.Wire.{Field}
use echocoin_core.PeerPool.{
  IpLib, Info, PeerPool, new_pool, change_info, update_info, set_http_reachable,
  note_relayed_builder, touch, remove, note_strike, strike, stale_peers, remove_all, evict_stale,
  add, is_routable_peer_addr, is_crowded, count_in, cooldown_of, max_peers_per_subnet, Fail,
  max_strikes, strikes_of, no_info,
}
use echocoin_core.PeerPool.Counts.{
  count_in-set_old, count_in-set_new, count_in-pop, is_crowded-room,
}

-- One call of a method that changes the pool.
pub data Call : Type 0 where
  to_add : ℤ → ℤ → Text → Call
  to_touch : ℤ → Text → Call
  to_strike : ℤ → Text → Call
  to_remove : Text → Call
  to_evict : ℤ → Call
  to_update : Text → Field ℤ → Text → Text → Call
  to_reach : Text → Bool → ℤ → Call
  to_note : Text → Text → Call

module _ {Ip : Type 0} (lib : IpLib Ip) where
  abbrev pub run : Call → PeerPool → PeerPool
  run (to_add wall mono addr) p = (add lib wall mono addr p).0
  run (to_touch wall addr) p = touch wall addr p
  run (to_strike mono addr) p = strike mono addr p
  run (to_remove addr) p = remove addr p
  run (to_evict wall) p = evict_stale wall p
  run (to_update addr height wallet version) p = update_info addr height wallet version p
  run (to_reach addr is_up checked_at) p = set_http_reachable addr is_up checked_at p
  run (to_note addr builder) p = note_relayed_builder addr builder p

  unfoldable pub run_all : List Call → PeerPool → PeerPool
  run_all [] p = p
  run_all (c ∷ cs) p = run_all cs (run c p)

  -- No address is held twice, no more are held than the limit, no more than three of them share a
  -- subnet, all are routable, and only held ones have information.
  pub record IsBounded (p : PeerPool) : Type 0 where
    pub distinct : Distinct p.peers
    pub info_distinct : Distinct p.info
    pub bounded : length p.peers ≤ p.max_peers
    pub spread : (subnet : Text) → count_in lib subnet p.peers ≤ max_peers_per_subnet
    pub routable : (j : Text) → contains j p.peers ≡ true → is_routable_peer_addr lib j ≡ true
    pub known : (j : Text) → contains j p.info ≡ true → contains j p.peers ≡ true

  pub new_pool-IsBounded : (limit : ℕ) → IsBounded (new_pool limit)
  unfolding new_pool count_in contains
  new_pool-IsBounded limit = record {
    distinct = tt;
    info_distinct = tt;
    bounded = omega arith;
    spread = λ subnet. omega arith;
    routable = λ j held. absurd (ground (arith, held));
    known = λ j held. absurd (ground (arith, held));
  }

  -- A held address gets another time of its last contact.
  seen :
      (addr : Text) (wall : ℤ) (p : PeerPool)
      → IsBounded p
      → contains addr p.peers ≡ true
      → IsBounded (record p { peers = set addr wall p.peers })
  seen addr wall p b h = record {
    distinct = set-Distinct addr wall p.peers b.distinct;
    info_distinct = b.info_distinct;
    bounded = rw (length-set_old addr wall p.peers h) b.bounded;
    spread = λ subnet. rw (count_in-set_old lib subnet addr wall p.peers h) (b.spread subnet);
    routable = λ j held.
        b.routable j (ground (arith, contains-set j addr wall p.peers, text_eq_iff j addr));
    known = λ j held. ground (arith, contains-set j addr wall p.peers, b.known j held);
  }

  -- A new address that passed the checks of `add`.
  taken :
      (addr : Text) (wall : ℤ) (p : PeerPool)
      → IsBounded p
      → is_routable_peer_addr lib addr ≡ true
      → contains addr p.peers ≡ false
      → length p.peers < p.max_peers
      → is_crowded lib addr p.peers ≡ false
      → IsBounded (record p { peers = set addr wall p.peers })
  taken addr wall p b routes new room open_net = record {
    distinct = set-Distinct addr wall p.peers b.distinct;
    info_distinct = b.info_distinct;
    bounded = omega (arith, length-set_new addr wall p.peers new, room);
    spread = λ subnet.
        rw (count_in-set_new lib subnet addr wall p.peers new)
          (is_crowded-room lib subnet addr p.peers open_net (b.spread subnet));
    routable = λ j held. elim (Bool-cases (text_eq j addr)) [
      | inl same ↦ ground (arith, text_eq_iff j addr)
      | inr differs ↦ b.routable j (ground (arith, contains-set j addr wall p.peers))
    ];
    known = λ j held. ground (arith, contains-set j addr wall p.peers, b.known j held);
  }

  add-IsBounded :
      (wall mono : ℤ) (addr : Text) (p : PeerPool)
      → IsBounded p
      → IsBounded (add lib wall mono addr p).0
  unfolding add
  add-IsBounded wall mono addr p b = elim (Bool-cases (is_routable_peer_addr lib addr)) [
    | inr lost ↦ rw lost b
    | inl routes ↦ elim (Bool-cases (contains addr p.peers)) [
      | inl held ↦ rw (routes, held) (seen addr wall p b held)
      | inr new ↦ elim (Bool-cases (leb p.max_peers (length p.peers))) [
        | inl full ↦ rw (routes, new, full) b
        | inr room ↦ elim (Bool-cases (ltb_ℤ mono (cooldown_of addr p))) [
          | inl cooling ↦ rw (routes, new, room, cooling) b
          | inr cold ↦ elim (Bool-cases (is_crowded lib addr p.peers)) [
            | inl crowded ↦ rw (routes, new, room, cold, crowded) b
            | inr space ↦
                rw (routes, new, room, cold, space)
                  (taken addr wall p b routes new (ground (arith, room)) space)
          ]
        ]
      ]
    ]
  ]

  remove-IsBounded : (addr : Text) (p : PeerPool) → IsBounded p → IsBounded (remove addr p)
  unfolding remove
  remove-IsBounded addr p b = record {
    distinct = pop-Distinct addr p.peers b.distinct;
    info_distinct = pop-Distinct addr p.info b.info_distinct;
    bounded = omega (arith, length-pop addr p.peers, b.bounded);
    spread = λ subnet. omega (arith, count_in-pop lib subnet addr p.peers, b.spread subnet);
    routable = λ j held. b.routable j (ground (arith, contains-pop j addr p.peers b.distinct));
    known = λ j held. ground (
      arith,
      contains-pop j addr p.peers b.distinct,
      contains-pop j addr p.info b.info_distinct,
      b.known j,
    );
  }

  remove_all-IsBounded :
      (addrs : List Text) (p : PeerPool) → IsBounded p → IsBounded (remove_all addrs p)
  unfolding remove_all
  remove_all-IsBounded [] p b = b
  remove_all-IsBounded (addr ∷ addrs) p b =
      remove_all-IsBounded addrs (remove addr p) (remove-IsBounded addr p b)

  -- The table of failures is free.
  failing :
      (p : PeerPool) (fails : Dict Fail) → IsBounded p → IsBounded (record p { fails = fails })
  failing p fails b = record {
    distinct = b.distinct;
    info_distinct = b.info_distinct;
    bounded = b.bounded;
    spread = b.spread;
    routable = b.routable;
    known = b.known;
  }

  strike-IsBounded :
      (mono : ℤ) (addr : Text) (p : PeerPool) → IsBounded p → IsBounded (strike mono addr p)
  unfolding strike note_strike
  strike-IsBounded mono addr p b =
      let noted = failing p (note_strike mono addr p).fails b in
      elim (Bool-cases (leb max_strikes (strikes_of addr p + 1))) [
        | inl out ↦ rw out (remove-IsBounded addr (note_strike mono addr p) noted)
        | inr stays ↦ rw stays noted
      ]

  touch-IsBounded :
      (wall : ℤ) (addr : Text) (p : PeerPool) → IsBounded p → IsBounded (touch wall addr p)
  unfolding touch
  touch-IsBounded wall addr p b = elim (Bool-cases (contains addr p.peers)) [
    | inl held ↦ rw held (
        failing (record p { peers = set addr wall p.peers }) (pop addr p.fails)
          (seen addr wall p b held))
    | inr gone ↦ rw gone (failing p (pop addr p.fails) b)
  ]

  change_info-IsBounded :
      (addr : Text) (f : Info → Info) (p : PeerPool)
      → IsBounded p
      → IsBounded (change_info addr f p)
  unfolding change_info
  change_info-IsBounded addr f p b = elim (Bool-cases (contains addr p.peers)) [
    | inr gone ↦ rw gone b
    | inl held ↦
        rw held (informed held (f (elim (get addr p.info) [ none ↦ no_info | some i ↦ i ])))
  ]
    where
      informed :
          contains addr p.peers ≡ true
          → (i : Info) → IsBounded (record p { info = set addr i p.info })
      informed held i = record {
        distinct = b.distinct;
        info_distinct = set-Distinct addr i p.info b.info_distinct;
        bounded = b.bounded;
        spread = b.spread;
        routable = b.routable;
        known = λ j listed. elim (Bool-cases (text_eq j addr)) [
          | inl same ↦ let key : j ≡ addr = ground (arith, text_eq_iff j addr) in rw key held
          | inr differs ↦ b.known j (ground (arith, contains-set j addr i p.info))
        ];
      }

  run-IsBounded : (c : Call) (p : PeerPool) → IsBounded p → IsBounded (run c p)
  unfolding evict_stale update_info set_http_reachable note_relayed_builder
  run-IsBounded (to_add wall mono addr) p b = add-IsBounded wall mono addr p b
  run-IsBounded (to_touch wall addr) p b = touch-IsBounded wall addr p b
  run-IsBounded (to_strike mono addr) p b = strike-IsBounded mono addr p b
  run-IsBounded (to_remove addr) p b = remove-IsBounded addr p b
  run-IsBounded (to_evict wall) p b = remove_all-IsBounded (stale_peers _ p.peers) p b
  run-IsBounded (to_update addr height wallet version) p b = change_info-IsBounded addr _ p b
  run-IsBounded (to_reach addr is_up checked_at) p b = change_info-IsBounded addr _ p b
  run-IsBounded (to_note addr []) p b = b
  run-IsBounded (to_note addr (c ∷ cs)) p b = change_info-IsBounded addr _ p b

  -- Any calls keep the pool bounded: no address twice, no more than `max_peers`, no more than three
  -- in a subnet, only routable ones, and information only about held ones.
  pub run_all-IsBounded : (cs : List Call) (p : PeerPool) → IsBounded p → IsBounded (run_all cs p)
  unfolding run_all
  run_all-IsBounded [] p b = b
  run_all-IsBounded (c ∷ cs) p b = run_all-IsBounded cs (run c p) (run-IsBounded c p b)
