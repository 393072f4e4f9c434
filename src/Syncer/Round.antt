-- ===== src/Syncer/Round.antt =====
-- `check_and_sync` of src/syncer.py: a whole round of syncing with one peer.
use echocoin_core.Prelude.{
  ltb, Bool-cases, inl, inr, drop_all, ℕ, zero, suc, ◌+◌, ◌-◌, ◌≤◌, ◌<◌, ◌≡◌, ◌≢◌, ◌∙◌, sym, ap,
  refl, Bool, false, ◌&&◌, Option, none, some, List, [], ◌∷◌, ◌++◌, ℤ, pos, negsuc, sub_ℕ, eqb_ℤ,
  Text, text_eq, length, take, drop, get_elem?, last?, take-append-drop, length-drop, Result, ok,
  raise, type_error, ◌>>=◌, if◌then◌else◌, arith,
}
use echocoin_core.Wire.{Field, given, absent, other, Block}
use echocoin_core.PeerPool.{PeerPool, update_info}
use echocoin_core.Node.{fork_point}
use echocoin_core.Syncer.{Item, Net, page, find_fork_point, fetch_chain}
use echocoin_core.Syncer.Search.{page_of, find_fork_point-fork_point}
use echocoin_core.Syncer.Fetch.{items, items-append, fetch_chain_lem}

-- The answer to `get_info`, a dict with "height". A height is `absent` for null and `other` for a
-- text, a list or a dict; floats and bools are not modelled, nor other values than texts under
-- the other keys.
pub record PeerInfo : Type 0 where
  pub height : Field ℤ
  pub tip_hash : Text
  pub wallet : Text
  pub version : Text

-- `remote_height == local_height and info.get("tip_hash", "") == local_tip`
unfoldable pub is_in_sync : List Block → PeerInfo → Bool
is_in_sync local info =
    let same_height : Bool = elim info.height [
      | given h ↦ eqb_ℤ h (sub_ℕ (length local) 1)
      | absent ↦ false
      | other ↦ false
    ] in
    let local_tip : Text = elim (last? local) [ none ↦ [] | some b ↦ b.hash ] in
    same_height && text_eq info.tip_hash local_tip

-- The fetched tail behind the shared blocks; nothing fetched is none.
unfoldable pub joined : List Block → ℕ → List Item → Option (List Item)
joined local fork_from [] = none
joined local fork_from (x ∷ xs) = some (items (take fork_from local) ++ x ∷ xs)

-- `_fetch_chain`; the loop's comparison with a height that is no integer raises.
unfoldable pub fetch_from : Net → Field ℤ → ℕ → ℕ → Result (List Item)
fetch_from net (given (pos h)) fork_from n = ok (fetch_chain net h (h + 1) fork_from n).0
fetch_from net (given (negsuc h)) fork_from n = ok []
fetch_from net absent fork_from n = raise type_error
fetch_from net other fork_from n = raise type_error

unfoldable pub compare_chains : Net → List Block → PeerInfo → Result (Option (List Item))
compare_chains net local info = do
  (fork_from, n) ← find_fork_point net local 0
  tail ← fetch_from net info.height fork_from n
  ok (joined local fork_from tail)

-- The chain that `apply_fn` is called with, if it is; `peer` is `pool.random()` with the answer of
-- `get_info`, none for a timeout, for what is no dict, and for a dict without "height".
unfoldable pub check_and_sync :
    Net
    → List Block
    → Option (Text × Option PeerInfo)
    → PeerPool
    → PeerPool × Result (Option (List Item))
check_and_sync net local none pool = (pool, ok none)
check_and_sync net local (some (peer, none)) pool = (pool, ok none)
check_and_sync net local (some (peer, some info)) pool = (
  update_info peer info.height info.wallet info.version pool,
  if is_in_sync local info then ok none else compare_chains net local info,
)

-- One block of a chain, fetched by its height.
items-one : (bs : List Block) (h : ℕ) → items (take 1 (drop h bs)) ≡ page_of (get_elem? bs h)
items-one [] zero = refl
items-one [] (suc h) = refl
items-one (b ∷ bs) zero = refl
items-one (b ∷ bs) (suc h) = items-one bs h

joined-some :
    (local tail : List Block) (fork : ℕ)
    → 0 < length tail
    → joined local fork (items tail) ≡ some (items (take fork local ++ tail))
unfolding joined
joined-some local [] fork h = absurd (omega (arith, h))
joined-some local (x ∷ xs) fork h = ap some (sym (items-append (take fork local) (x ∷ xs)))

-- Behind shared blocks, the rest of the peer's chain makes up that chain.
joined-items :
    (local remote : List Block) (fork : ℕ)
    → take fork local ≡ take fork remote
    → joined local fork (items (drop fork remote))
      ≡ (if ltb fork (length remote) then some (items remote) else none)
unfolding joined
joined-items local remote fork same = elim (Bool-cases (ltb fork (length remote))) [
  | inr past ↦
      let none_left : drop fork remote ≡ [] = drop_all fork remote (ground (arith, past)) in
      rw (past, none_left) refl
  | inl within ↦
      let len : length (drop fork remote) + fork ≡ length remote =
        length-drop fork remote (ground (arith, within)) in
      rw within (
        joined-some local (drop fork remote) fork (ground (arith, len, within))
        ∙ ap (λ xs. some (items (xs ++ drop fork remote))) same
        ∙ ap (λ xs. some (items xs)) (take-append-drop fork remote))
]

module _ (net : Net) (local remote : List Block) (remote_height : ℕ)
    (tall : remote_height + 1 ≡ length remote)
    (serves : (n from_h to_h : ℕ)
      → net n from_h to_h ≡ some (page (items (take (to_h + 1 - from_h) (drop from_h remote)))))
    (parted : (i : ℕ) (a b : Block)
      → fork_point local remote ≤ i
      → get_elem? local i ≡ some a
      → get_elem? remote i ≡ some b
      → b.hash ≢ a.hash)
    (same : take (fork_point local remote) local ≡ take (fork_point local remote) remote) where
  compare_chains-items :
      (info : PeerInfo)
      → info.height ≡ given (pos remote_height)
      → compare_chains net local info
        ≡ ok (if ltb (fork_point local remote) (length remote) then some (items remote) else none)
  unfolding compare_chains fetch_from
  compare_chains-items info told =
      let single : (h : ℕ) → h + 1 - h ≡ 1 = λ h. omega arith in
      let serves_one : (n h : ℕ) → net n h h ≡ some (page (page_of (get_elem? remote h))) = λ n h.
        serves n h h
        ∙ ap (λ k. some (page (items (take k (drop h remote))))) (single h)
        ∙ ap (λ xs. some (page xs)) (items-one remote h) in
      let (n, found) = find_fork_point-fork_point net local remote serves_one parted 0 in
      let (m, fetched) =
        fetch_chain_lem net remote remote_height tall serves (fork_point local remote) n in
      rw (found, told, tall, fetched) (ap ok (joined-items local remote _ same))

  -- Against a peer that serves one chain of the height that it told, whose blocks are the local ones
  -- below the fork point and have other hashes from there on, a round notes what the peer told, and
  -- proposes exactly the peer's chain, when that goes on behind the fork point and the peer is not
  -- in sync; otherwise it proposes nothing.
  pub check_and_sync_lem :
      (peer : Text) (info : PeerInfo) (pool : PeerPool)
      → info.height ≡ given (pos remote_height)
      → check_and_sync net local (some (peer, some info)) pool ≡ (
        update_info peer info.height info.wallet info.version pool,
        ok (
            if is_in_sync local info
            then none
            else if ltb (fork_point local remote) (length remote)
            then some (items remote)
            else none),
      )
  unfolding check_and_sync
  check_and_sync_lem peer info pool told = elim (Bool-cases (is_in_sync local info)) [
    | inl known ↦ rw known refl
    | inr new ↦ rw (new, compare_chains-items info told) refl
  ]
