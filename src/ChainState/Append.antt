-- ===== src/ChainState/Append.antt =====
-- The replay of a chain with one more block.
use echocoin_core.Prelude.{
  ◌≡◌, refl, ap, List, [], ◌∷◌, ◌++◌, ℤ, pos, ◌+ℤ◌, ◌<ℤ◌, int_laws, ltb_ℤ, true, false, ok,
  >>=-eq-ok, arith, if◌then◌else◌,
}
use echocoin_core.Wire.{need_or, Block}
use echocoin_core.State.{State}
use echocoin_core.ChainState.{replay_block, replay_chain, cumulative}

pub replay_chain-append :
    (chain : List Block) (blk : Block) (s u s' : State)
    → replay_chain chain s ≡ ok u
    → replay_block blk u ≡ ok s'
    → replay_chain (chain ++ blk ∷ []) s ≡ ok s'
unfolding replay_chain
replay_chain-append [] blk s u s' h k = ground (arith, h, k)
replay_chain-append (b ∷ chain) blk s u s' h k =
    let (v, e, h') = >>=-eq-ok (replay_block b s) _ h in
    rw e (replay_chain-append chain blk v u s' h' k)

pub cumulative-append :
    (chain : List Block) (blk : Block) (work : ℤ) (more : ℤ)
    → cumulative chain ≡ ok work
    → pos 0 <ℤ blk.height
    → need_or (pos 0) blk.vdf_iterations ≡ ok more
    → cumulative (chain ++ blk ∷ []) ≡ ok (work +ℤ more)
unfolding cumulative
cumulative-append [] blk work more h above e =
    let none_yet : pos 0 ≡ work = cc in
    let test : ltb_ℤ (pos 0) blk.height ≡ true = ground (arith, above) in
    rw (test, e, ← none_yet) (ap ok (omega int_laws))
cumulative-append (b ∷ chain) blk work more h above e =
    let (w, f, h1) =
      >>=-eq-ok (if ltb_ℤ (pos 0) b.height then need_or (pos 0) b.vdf_iterations else ok (pos 0)) _
        h in
    let (ws, g, h2) = >>=-eq-ok (cumulative chain) _ h1 in
    let sum : w +ℤ ws ≡ work = cc in
    rw (f, cumulative-append chain blk ws more g above e, ← sum) (ap ok (omega int_laws))

-- A block that is not above height 0 adds no work.
pub cumulative-append_zero :
    (chain : List Block) (blk : Block) (work : ℤ)
    → cumulative chain ≡ ok work
    → blk.height ≡ pos 0
    → cumulative (chain ++ blk ∷ []) ≡ ok work
unfolding cumulative
cumulative-append_zero [] blk work h z =
    let none_yet : pos 0 ≡ work = cc in
    let test : ltb_ℤ (pos 0) blk.height ≡ false = ground (arith, z) in
    rw (test, ← none_yet) (ap ok (omega int_laws))
cumulative-append_zero (b ∷ chain) blk work h z =
    let (w, f, h1) =
      >>=-eq-ok (if ltb_ℤ (pos 0) b.height then need_or (pos 0) b.vdf_iterations else ok (pos 0)) _
        h in
    let (ws, g, h2) = >>=-eq-ok (cumulative chain) _ h1 in
    let sum : w +ℤ ws ≡ work = cc in rw (f, cumulative-append_zero chain blk ws g z, ← sum) refl
