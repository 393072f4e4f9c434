-- ===== src/PeerPool/Counts.antt =====
-- How many held peers share a subnet, when the table of the peers changes.
use echocoin_core.Prelude.{
  ◌+◌, ◌≤◌, ◌≡◌, refl, true, false, [], ◌∷◌, ℤ, Text, text_eq, text_eq_iff, arith, if◌then◌else◌,
  Option-cases, Bool-cases, inl, inr,
}
use echocoin_core.Dict.{Dict, contains, set, pop}
use echocoin_core.PeerPool.{IpLib, subnet_key, is_in, count_in, is_crowded, max_peers_per_subnet}

module _ {Ip : Type 0} (lib : IpLib Ip) where
  pub count_in-set_old :
      (subnet k : Text) (v : ℤ) (d : Dict ℤ)
      → contains k d ≡ true
      → count_in lib subnet (set k v d) ≡ count_in lib subnet d
  unfolding count_in contains set
  count_in-set_old subnet k v [] h = ground arith
  count_in-set_old subnet k v (e ∷ d) h = elim (Bool-cases (text_eq k e.0)) [
    | inl same ↦ let key : k ≡ e.0 = ground (arith, text_eq_iff k e.0) in rw same (rw key refl)
    | inr differs ↦ ground (arith, count_in-set_old subnet k v d)
  ]

  pub count_in-set_new :
      (subnet k : Text) (v : ℤ) (d : Dict ℤ)
      → contains k d ≡ false
      → count_in lib subnet (set k v d)
        ≡ count_in lib subnet d + (if is_in lib subnet k then 1 else 0)
  unfolding count_in contains set
  count_in-set_new subnet k v [] h = omega arith
  count_in-set_new subnet k v (e ∷ d) h = ground (arith, count_in-set_new subnet k v d)

  pub count_in-pop :
      (subnet k : Text) (d : Dict ℤ) → count_in lib subnet (pop k d) ≤ count_in lib subnet d
  unfolding count_in pop
  count_in-pop subnet k [] = omega arith
  count_in-pop subnet k (e ∷ d) = ground (arith, count_in-pop subnet k d)

  -- A peer that is not refused for its subnet leaves room in every subnet that it is in.
  pub is_crowded-room :
      (subnet addr : Text) (d : Dict ℤ)
      → is_crowded lib addr d ≡ false
      → count_in lib subnet d ≤ max_peers_per_subnet
      → count_in lib subnet d + (if is_in lib subnet addr then 1 else 0) ≤ max_peers_per_subnet
  unfolding is_crowded is_in
  is_crowded-room subnet addr d h full = elim (Option-cases (subnet_key lib addr)) [
    | inl bare ↦ ground arith
    | inr (own, e) ↦ ground (arith, text_eq_iff own subnet)
  ]
