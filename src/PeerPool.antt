-- ===== src/PeerPool.antt =====
-- src/peerpool.py: the addresses of the peers with their health. The clocks are arguments: `wall`
-- is time.time() and `mono` is time.monotonic(), in units of 2^-22 seconds. Each method holds the
-- lock throughout, so methods of several threads run one after the other.
pub mod Counts
pub mod Bounds
pub mod Health
pub mod Strikes
pub mod Ban
use echocoin_core.Prelude.{
  ℕ, zero, suc, ◌+◌, ◌*◌, ◌^◌, ◌-◌, Bool, true, false, not, ◌&&◌, ◌||◌, Option, none, some, List,
  [], ◌∷◌, ℤ, pos, ◌+ℤ◌, ◌-ℤ◌, ltb_ℤ, leb_ℤ, Text, text_eq, ltb, leb, ◌==◌, if◌then◌else◌, length,
}
use echocoin_core.Dict.{Dict, get, contains, set, pop}
use echocoin_core.Wire.{Field, absent}

abbrev pub cooldown_seconds : ℕ
cooldown_seconds = 60

abbrev pub cooldown_max_seconds : ℕ
cooldown_max_seconds = 300

abbrev pub max_strikes : ℕ
max_strikes = 3

abbrev pub stale_seconds : ℕ
stale_seconds = 300

abbrev pub max_peers_per_subnet : ℕ
max_peers_per_subnet = 3

-- Seconds in the clocks' units.
abbrev pub units : ℕ → ℤ
units n = pos (n * 4194304)

-- Python's `ipaddress`: `none` is its ValueError, and `network ip n` is the text of the network of
-- `ip` with a prefix of n bits.
pub record IpLib (Ip : Type 0) : Type 0 where
  pub ip_address : Text → Option Ip
  pub version : Ip → ℕ
  pub network : Ip → ℕ → Text
  pub is_private : Ip → Bool
  pub is_loopback : Ip → Bool
  pub is_link_local : Ip → Bool
  pub is_multicast : Ip → Bool
  pub is_reserved : Ip → Bool
  pub is_unspecified : Ip → Bool

pub record Fail : Type 0 where
  pub strikes : ℕ
  pub cooldown_until : ℤ

-- What `_info` holds of an address, with what a reader sees for a key that is not set.
pub record Info : Type 0 where
  pub height : Field ℤ
  pub wallet : Text
  pub inferred_wallet : Text
  pub version : Text
  pub http : Option (Bool × ℤ)

abbrev pub no_info : Info
no_info = record { height = absent; wallet = []; inferred_wallet = []; version = []; http = none }

pub record PeerPool : Type 0 where
  pub max_peers : ℕ
  pub peers : Dict ℤ
  pub fails : Dict Fail
  pub info : Dict Info

-- `PeerPool.__init__`
unfoldable pub new_pool : ℕ → PeerPool
new_pool limit = record { max_peers = limit; peers = []; fails = []; info = [] }

-- `_fails.get(addr, {}).get("cooldown_until", 0.0)`
unfoldable pub cooldown_of : Text → PeerPool → ℤ
cooldown_of addr p = elim (get addr p.fails) [ none ↦ pos 0 | some f ↦ f.cooldown_until ]

unfoldable pub strikes_of : Text → PeerPool → ℕ
strikes_of addr p = elim (get addr p.fails) [ none ↦ 0 | some f ↦ f.strikes ]

-- `host` of `host, _port = addr.rsplit(":", 1)`; no colon is a ValueError.
unfoldable pub host_of : Text → Option Text
host_of [] = none
host_of (c ∷ cs) = elim (host_of cs) [
  | some host ↦ some (c ∷ host)
  | none ↦ if c == 58 then some [] else none
]

-- `_info.setdefault(addr, {})`, changed by `f`, for a peer that is held.
unfoldable pub change_info : Text → (Info → Info) → PeerPool → PeerPool
change_info addr f p =
    if contains addr p.peers
    then record p {
      info = set addr (f (elim (get addr p.info) [ none ↦ no_info | some i ↦ i ])) p.info;
    }
    else p

unfoldable pub update_info : Text → Field ℤ → Text → Text → PeerPool → PeerPool
update_info addr height wallet version =
    change_info addr (λ i. record i { height = height; wallet = wallet; version = version })

unfoldable pub set_http_reachable : Text → Bool → ℤ → PeerPool → PeerPool
set_http_reachable addr is_up checked_at =
    change_info addr (λ i. record i { http = some (is_up, checked_at) })

unfoldable pub note_relayed_builder : Text → Text → PeerPool → PeerPool
note_relayed_builder addr [] p = p
note_relayed_builder addr (c ∷ cs) p =
    change_info addr (λ i. record i { inferred_wallet = c ∷ cs }) p

unfoldable pub touch : ℤ → Text → PeerPool → PeerPool
touch wall addr p = record p {
  peers = if contains addr p.peers then set addr wall p.peers else p.peers;
  fails = pop addr p.fails;
}

unfoldable pub remove : Text → PeerPool → PeerPool
remove addr p = record p { peers = pop addr p.peers; info = pop addr p.info }

-- `cooldown`, for a count of strikes
unfoldable pub cooldown_for : ℕ → ℕ
cooldown_for strikes =
    if leb max_strikes strikes
    then cooldown_max_seconds
    else if ltb cooldown_max_seconds (cooldown_seconds * 2 ^ (strikes - 1))
    then cooldown_max_seconds
    else cooldown_seconds * 2 ^ (strikes - 1)

-- `_fails[addr] = ...`, one strike later
unfoldable pub note_strike : ℤ → Text → PeerPool → PeerPool
note_strike mono addr p = record p {
  fails =
      set addr
        (record {
          strikes = strikes_of addr p + 1;
          cooldown_until = mono +ℤ units (cooldown_for (strikes_of addr p + 1));
        })
        p.fails;
}

unfoldable pub strike : ℤ → Text → PeerPool → PeerPool
strike mono addr p =
    if leb max_strikes (strikes_of addr p + 1)
    then remove addr (note_strike mono addr p)
    else note_strike mono addr p

-- `[p for p, t in self._peers.items() if t < cutoff]`
unfoldable pub stale_peers : ℤ → Dict ℤ → List Text
stale_peers cutoff [] = []
stale_peers cutoff (e ∷ d) =
    if ltb_ℤ e.1 cutoff then e.0 ∷ stale_peers cutoff d else stale_peers cutoff d

unfoldable pub remove_all : List Text → PeerPool → PeerPool
remove_all [] p = p
remove_all (addr ∷ addrs) p = remove_all addrs (remove addr p)

unfoldable pub evict_stale : ℤ → PeerPool → PeerPool
evict_stale wall p = remove_all (stale_peers (wall -ℤ units stale_seconds) p.peers) p

-- The addresses that are not in their cooldown.
unfoldable pub ready : ℤ → PeerPool → Dict ℤ → List Text
ready mono p [] = []
ready mono p (e ∷ d) =
    if leb_ℤ (cooldown_of e.0 p) mono then e.0 ∷ ready mono p d else ready mono p d

unfoldable pub get_all : ℤ → PeerPool → List Text
get_all mono p = ready mono p p.peers

-- What the peers page shows of a peer.
pub record Row : Type 0 where
  pub addr : Text
  pub last_seen : ℤ
  pub is_active : Bool
  pub info : Info
  pub http_reachable : Option Bool

abbrev pub http_reachable_ttl : ℕ
http_reachable_ttl = 600

-- The last probe's outcome, if it is not too old.
unfoldable pub http_reachable_of : ℤ → Info → Option Bool
http_reachable_of wall i = elim i.http [
  | none ↦ none
  | some probe ↦ if leb_ℤ (wall -ℤ probe.1) (units http_reachable_ttl) then some probe.0 else none
]

unfoldable pub info_of : Text → PeerPool → Info
info_of addr p = elim (get addr p.info) [ none ↦ no_info | some i ↦ i ]

unfoldable pub rows : ℤ → ℤ → PeerPool → Dict ℤ → List Row
rows wall mono p [] = []
rows wall mono p (e ∷ d) =
    record {
      addr = e.0;
      last_seen = e.1;
      is_active = leb_ℤ (cooldown_of e.0 p) mono;
      info = info_of e.0 p;
      http_reachable = http_reachable_of wall (info_of e.0 p);
    }
    ∷ rows wall mono p d

unfoldable pub snapshot : ℤ → ℤ → PeerPool → List Row
snapshot wall mono p = rows wall mono p p.peers

module _ {Ip : Type 0} (lib : IpLib Ip) where
  -- `ipaddress.ip_address(host)` of an address; `none` is an exception that the caller catches.
  unfoldable pub ip_of : Text → Option Ip
  ip_of addr = elim (host_of addr) [ none ↦ none | some host ↦ lib.ip_address host ]

  unfoldable pub subnet_key : Text → Option Text
  subnet_key addr = elim (ip_of addr) [
    | none ↦ none
    | some ip ↦ some (lib.network ip (if lib.version ip == 4 then 24 else 64))
  ]

  unfoldable pub is_routable_peer_addr : Text → Bool
  is_routable_peer_addr addr = elim (ip_of addr) [
    | none ↦ false
    | some ip ↦ not (
        lib.is_private ip
        || lib.is_loopback ip
        || lib.is_link_local ip
        || lib.is_multicast ip
        || lib.is_reserved ip
        || lib.is_unspecified ip)
  ]

  -- `_subnet_key(p) == subnet`, where `subnet` is not None
  unfoldable pub is_in : Text → Text → Bool
  is_in subnet addr = elim (subnet_key addr) [ none ↦ false | some own ↦ text_eq own subnet ]

  -- `same_subnet`
  unfoldable pub count_in : Text → Dict ℤ → ℕ
  count_in subnet [] = 0
  count_in subnet (e ∷ d) = (if is_in subnet e.0 then 1 else 0) + count_in subnet d

  -- `same_subnet >= MAX_PEERS_PER_SUBNET`, if the address has a subnet
  unfoldable pub is_crowded : Text → Dict ℤ → Bool
  is_crowded addr d = elim (subnet_key addr) [
    | none ↦ false
    | some subnet ↦ leb max_peers_per_subnet (count_in subnet d)
  ]

  unfoldable pub add : ℤ → ℤ → Text → PeerPool → PeerPool × Bool
  add wall mono addr p =
      if not (is_routable_peer_addr addr)
      then (p, false)
      else if contains addr p.peers
      then (record p { peers = set addr wall p.peers }, false)
      else if leb p.max_peers (length p.peers)
      then (p, false)
      else if ltb_ℤ mono (cooldown_of addr p)
      then (p, false)
      else if is_crowded addr p.peers
      then (p, false)
      else (record p { peers = set addr wall p.peers }, true)
