-- ===== src/PeerPool/Strikes.antt =====
-- The failures of an address in the peer pool, after a strike and after what leaves them alone.
use echocoin_core.Prelude.{
  ◌+◌, ◌≤◌, ◌≡◌, ◌∙◌, ap, refl, false, some, [], ◌∷◌, ℤ, ◌+ℤ◌, Text, text_eq, text_eq_iff, arith,
}
use echocoin_core.Dict.{Dict, get, contains, pop, get-set, get-set_same}
use echocoin_core.PeerPool.{
  PeerPool, units, remove, note_strike, cooldown_of, strikes_of, cooldown_for, cooldown_max_seconds,
}
use echocoin_core.PeerPool.Health.{cooldown_for_third}

pub get-pop_other :
    {V : Type 0} (j k : Text) (d : Dict V) → text_eq j k ≡ false → get j (pop k d) ≡ get j d
unfolding get pop
get-pop_other j k [] h = refl
get-pop_other j k (e ∷ d) h =
    ground (arith, get-pop_other j k d h, text_eq_iff j k, text_eq_iff k e.0, text_eq_iff j e.0)

pub peers-note_strike :
    (addr : Text) (later : ℤ) (a : Text) (p : PeerPool)
    → contains addr (note_strike later a p).peers ≡ contains addr p.peers
unfolding note_strike
peers-note_strike addr later a p = refl

pub get-note_strike :
    (addr : Text) (later : ℤ) (a : Text) (p : PeerPool)
    → text_eq addr a ≡ false
    → get addr (note_strike later a p).fails ≡ get addr p.fails
unfolding note_strike
get-note_strike addr later a p differs = get-set addr a _ p.fails ∙ rw differs refl

pub all_peers : (mono : ℤ) (addr : Text) (p : PeerPool) → (note_strike mono addr p).peers ≡ p.peers
unfolding note_strike
all_peers mono addr p = refl

pub strikes_of-get :
    (addr : Text) (q p : PeerPool)
    → get addr q.fails ≡ get addr p.fails
    → strikes_of addr q ≡ strikes_of addr p
unfolding strikes_of
strikes_of-get addr q p same = rw (strikes_of, same) refl

pub cooldown_of-get :
    (addr : Text) (q p : PeerPool)
    → get addr q.fails ≡ get addr p.fails
    → cooldown_of addr q ≡ cooldown_of addr p
unfolding cooldown_of
cooldown_of-get addr q p same = rw (cooldown_of, same) refl

pub strikes_of-remove :
    (addr a : Text) (p : PeerPool) → strikes_of addr (remove a p) ≡ strikes_of addr p
unfolding remove strikes_of
strikes_of-remove addr a p = refl

pub cooldown_of-remove :
    (addr a : Text) (p : PeerPool) → cooldown_of addr (remove a p) ≡ cooldown_of addr p
unfolding remove cooldown_of
cooldown_of-remove addr a p = refl

pub noted-get :
    (mono : ℤ) (addr : Text) (p : PeerPool)
    → get addr (note_strike mono addr p).fails
      ≡ some (record {
        strikes = strikes_of addr p + 1;
        cooldown_until = mono +ℤ units (cooldown_for (strikes_of addr p + 1));
      })
unfolding note_strike
noted-get mono addr p = get-set_same addr _ p.fails

pub strikes_of-note_strike :
    (mono : ℤ) (addr : Text) (p : PeerPool)
    → strikes_of addr (note_strike mono addr p) ≡ strikes_of addr p + 1
unfolding strikes_of
strikes_of-note_strike mono addr p = rw (strikes_of, noted-get mono addr p) refl

pub cooldown_of-note_strike :
    (mono : ℤ) (addr : Text) (p : PeerPool)
    → 2 ≤ strikes_of addr p
    → cooldown_of addr (note_strike mono addr p) ≡ mono +ℤ units cooldown_max_seconds
unfolding cooldown_of
cooldown_of-note_strike mono addr p two =
    rw (cooldown_of, noted-get mono addr p)
      (ap (λ n. mono +ℤ units n) (cooldown_for_third (strikes_of addr p + 1) (omega (arith, two))))
