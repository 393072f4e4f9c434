-- ===== src/Tests/Peers.antt =====
-- Runs of the peer pool, and the theorems about it at concrete inputs.
use echocoin_core.Prelude.{
  List, ℤ, ◌<ℤ◌, ◌≡◌, refl, false, some, none, [], ◌∷◌, pos, Text, arith, codes, take, text_eq,
  ◌+ℤ◌, ◌-ℤ◌,
}
use echocoin_core.Dict.{get, contains, set}
use echocoin_core.PeerPool.{
  IpLib, PeerPool, new_pool, host_of, ip_of, subnet_key, is_routable_peer_addr, is_in, count_in,
  is_crowded, cooldown_of, strikes_of, strike, add, units, evict_stale, cooldown_max_seconds,
}
use echocoin_core.PeerPool.Bounds.{
  IsBounded, Call, to_touch, to_evict, to_add, to_strike, run_all, new_pool-IsBounded,
  run_all-IsBounded,
}
use echocoin_core.PeerPool.Health.{evict_stale_lem}
use echocoin_core.PeerPool.Ban.{strike-run_all}

-- Any host is a routable IPv4 address, and its first two characters are its network.
abbrev lib : IpLib Text
lib = record {
  ip_address = some;
  version = λ ip. 4;
  network = λ ip n. take 2 ip;
  is_private = λ ip. false;
  is_loopback = λ ip. false;
  is_link_local = λ ip. false;
  is_multicast = λ ip. false;
  is_reserved = λ ip. false;
  is_unspecified = λ ip. false;
}

abbrev one : Text
one = codes "10a:1"

abbrev far : Text
far = codes "20a:1"

abbrev start : PeerPool
start = new_pool 9

-- Two held peers, of which the first has two strikes.
abbrev shaky : PeerPool
shaky = record {
  max_peers = 9;
  peers = (one, units 1) ∷ (far, units 900) ∷ [];
  fails = (one, record { strikes = 2; cooldown_until = units 130 }) ∷ [];
  info = [];
}

-- A fourth peer of one subnet is refused.
crowded_run :
    (add lib (pos 0) (pos 0) (codes "10d:1") (
      run_all lib
        (to_add (pos 0) (pos 0) (codes "10a:1")
          ∷ to_add (pos 0) (pos 0) (codes "10b:1")
          ∷ to_add (pos 0) (pos 0) (codes "10c:1")
          ∷ [])
        start)).1
    ≡ false
unfolding text_eq add is_routable_peer_addr ip_of host_of contains set subnet_key is_in count_in
    is_crowded cooldown_of get run_all new_pool
crowded_run = refl

run_all-IsBounded_example :
    IsBounded lib (run_all lib (to_add (pos 0) (pos 0) one ∷ to_strike (pos 5) one ∷ []) start)
run_all-IsBounded_example =
    run_all-IsBounded lib (to_add (pos 0) (pos 0) one ∷ to_strike (pos 5) one ∷ []) start
      (new_pool-IsBounded lib 9)

-- A message of another peer, a fourth strike, a sweep, and an attempt to let the address in.
abbrev after_ban : List Call
after_ban =
    to_touch (units 1) far
    ∷ to_strike (units 150) one
    ∷ to_evict (units 2)
    ∷ to_add (units 3) (units 399) one
    ∷ []

strike-run_all_example :
    (contains one (run_all lib after_ban (strike (units 100) one shaky)).peers ≡ false)
    × ((wall later : ℤ)
        → later <ℤ units 100 +ℤ units cooldown_max_seconds
        → add lib wall later one (run_all lib after_ban (strike (units 100) one shaky))
          ≡ (run_all lib after_ban (strike (units 100) one shaky), false))
unfolding text_eq contains strikes_of get ◌+ℤ◌
strike-run_all_example =
    strike-run_all lib (units 100) one shaky after_ban (refl, (refl, tt)) (omega arith)
      (refl, (omega arith, (tt, (omega arith, tt))))

evict_stale_lem_example : get one (evict_stale (units 1000) shaky).peers ≡ none
unfolding text_eq contains get ◌-ℤ◌
evict_stale_lem_example = evict_stale_lem (units 1000) shaky one (refl, (refl, tt))
