-- ===== src/PeerPool/Health.antt =====
-- Strikes, cooldowns and eviction.
use echocoin_core.Prelude.{
  ℕ, ◌≤◌, ◌≡◌, ap, refl, true, false, ◌&&◌, Option, none, some, List, [], ◌∷◌, ℤ, ◌-ℤ◌, ltb_ℤ,
  leb_ℤ, Text, text_eq, text_eq_iff, text_eq_refl, arith, if◌then◌else◌, Bool-cases, Option-cases,
  inl, inr,
}
use echocoin_core.Dict.{Dict, get, contains, Distinct, pop-Distinct, get-pop, contains-pop}
use echocoin_core.Crypto.{mem}
use echocoin_core.PeerPool.{
  IpLib, PeerPool, units, remove, cooldown_for, stale_peers, remove_all, evict_stale, add,
  cooldown_of, ready, get_all, stale_seconds, cooldown_max_seconds,
}

pub cooldown_for_third : (n : ℕ) → 3 ≤ n → cooldown_for n ≡ cooldown_max_seconds
unfolding cooldown_for
cooldown_for_third n h = ground arith

pub contains-remove :
    (addr : Text) (p : PeerPool) → Distinct p.peers → contains addr (remove addr p).peers ≡ false
unfolding remove
contains-remove addr p d = ground (arith, contains-pop addr addr p.peers d, text_eq_refl addr)

module _ {Ip : Type 0} (lib : IpLib Ip) (wall later : ℤ) (addr : Text) (p : PeerPool) where
  pub add_cooling :
      contains addr p.peers ≡ false
      → ltb_ℤ later (cooldown_of addr p) ≡ true
      → add lib wall later addr p ≡ (p, false)
  unfolding add
  add_cooling new cooling = ground (arith, new, cooling)

mem-ready :
    (j : Text) (mono : ℤ) (p : PeerPool) (d : Dict ℤ)
    → mem j (ready mono p d) ≡ (contains j d && leb_ℤ (cooldown_of j p) mono)
unfolding ready mem contains
mem-ready j mono p [] = refl
mem-ready j mono p (e ∷ d) = elim (Bool-cases (text_eq j e.0)) [
  | inl here ↦
      let key : j ≡ e.0 = (text_eq_iff j e.0).0 here in
      elim (Bool-cases (leb_ℤ (cooldown_of e.0 p) mono)) [
        | inl free ↦ rw (free, here) (rw key (ground (arith, free)))
        | inr cooling ↦
            ground (arith, mem-ready j mono p d, cooling, here, ap (λ a. cooldown_of a p) key)
      ]
  | inr there ↦ ground (arith, mem-ready j mono p d, there)
]

-- `get_all` lists exactly the held addresses that are not in a cooldown.
pub mem-get_all :
    (j : Text) (mono : ℤ) (p : PeerPool)
    → mem j (get_all mono p) ≡ (contains j p.peers && leb_ℤ (cooldown_of j p) mono)
unfolding get_all
mem-get_all j mono p = mem-ready j mono p p.peers

-- A peer as it is after the eviction: gone if it was last seen before the cutoff.
abbrev pub unless_before : ℤ → Option ℤ → Option ℤ
unless_before cutoff none = none
unless_before cutoff (some seen) = if ltb_ℤ seen cutoff then none else some seen

not-mem_of_not-contains :
    (cutoff : ℤ) (j : Text) (d : Dict ℤ)
    → contains j d ≡ false
    → mem j (stale_peers cutoff d) ≡ false
unfolding stale_peers mem contains
not-mem_of_not-contains cutoff j [] h = refl
not-mem_of_not-contains cutoff j (e ∷ d) h = ground (arith, not-mem_of_not-contains cutoff j d)

mem-stale_peers :
    (cutoff : ℤ) (j : Text) (seen : ℤ) (d : Dict ℤ)
    → Distinct d
    → get j d ≡ some seen
    → mem j (stale_peers cutoff d) ≡ ltb_ℤ seen cutoff
unfolding stale_peers mem get
mem-stale_peers cutoff j seen [] u h = cc
mem-stale_peers cutoff j seen (e ∷ d) u h = ground (
  arith,
  mem-stale_peers cutoff j seen d u.1,
  not-mem_of_not-contains cutoff e.0 d u.0,
  text_eq_iff j e.0,
)

get-remove_all :
    (j : Text) (addrs : List Text) (p : PeerPool)
    → Distinct p.peers
    → get j (remove_all addrs p).peers ≡ (if mem j addrs then none else get j p.peers)
unfolding remove_all remove mem
get-remove_all j [] p d = refl
get-remove_all j (addr ∷ addrs) p d = ground (
  arith,
  get-remove_all j addrs (remove addr p) (pop-Distinct addr p.peers d),
  get-pop j addr p.peers d,
)

-- In a pool that lists no address twice, after `evict_stale` an address is held, with the same
-- time, exactly if it was held and was seen in the last five minutes.
pub evict_stale_lem :
    (wall : ℤ) (p : PeerPool) (j : Text)
    → Distinct p.peers
    → get j (evict_stale wall p).peers ≡ unless_before (wall -ℤ units stale_seconds) (get j p.peers)
unfolding evict_stale
evict_stale_lem wall p j d =
    let after = get-remove_all j (stale_peers (wall -ℤ units stale_seconds) p.peers) p d in
    elim (Option-cases (get j p.peers)) [
      | inl missing ↦ ground (arith, after, missing)
      | inr (seen, e) ↦
          ground (arith, after, e, mem-stale_peers (wall -ℤ units stale_seconds) j seen p.peers d e)
    ]
