-- ===== src/Block/Assemble/Senders.antt =====
-- The groups of `assemble` of src/block.py: for each sender one, its transactions in nonce order.
use echocoin_core.Prelude.{
  ℕ, ◌≤◌, ◌≡◌, ◌∙◌, sym, ap, refl, Bool, true, false, List, [], ◌∷◌, ◌++◌, map, keep, All, take, ℤ,
  Text, text_eq, text_eq_iff, text_eq_refl, append_assoc, arith, Bool-cases, inl, inr, append-nil,
  subst,
}
use echocoin_core.Dict.{Dict, get_or, contains, set, Distinct, set-Distinct, get_or-set}
use echocoin_core.Wire.{Tx}
use echocoin_core.Env.{Env}
use echocoin_core.Mempool.Sorting.{sort_by-All, IsAscending, sort_by-IsAscending}
use echocoin_core.Mempool.{sort_by, nonce_less}
use echocoin_core.Block.Assemble.{sender_of, group_by_sender, pays_more, groups_of}
use echocoin_core.Params.{block_size_limit}
use echocoin_core.Wire.{Time, Block}
use echocoin_core.Block.{block_size}
use echocoin_core.Block.Assemble.{skeleton, packing}
use echocoin_core.Block.Assemble.Packed.{IsWithin, packing_sound}
use echocoin_core.Block.Assemble.Ordered.{
  append-All, is_theirs, IsOthers, InOneGroup, nowhere, here, later, sort_by-InOneGroup,
  keep-IsPrefixes,
}

-- Every entry holds transactions of the sender under whose key it stands.
abbrev IsKeyed : Dict (List Tx) → Type 0
IsKeyed = All (λ e. All (λ t. text_eq e.0 (sender_of t) ≡ true) e.1)

set-IsKeyed :
    (k : Text) (ts : List Tx) (d : Dict (List Tx))
    → All (λ t. text_eq k (sender_of t) ≡ true) ts
    → IsKeyed d
    → IsKeyed (set k ts d)
unfolding set
set-IsKeyed k ts [] all keyed = (all, tt)
set-IsKeyed k ts (e ∷ d) all keyed = elim (Bool-cases (text_eq k e.0)) [
  | inl same ↦ rw same (all, keyed.1)
  | inr differs ↦ rw differs (keyed.0, set-IsKeyed k ts d all keyed.1)
]

get_or-IsKeyed :
    (k : Text) (d : Dict (List Tx))
    → IsKeyed d
    → All (λ t. text_eq k (sender_of t) ≡ true) (get_or k [] d)
unfolding get_or
get_or-IsKeyed k [] keyed = tt
get_or-IsKeyed k (e ∷ d) keyed = elim (Bool-cases (text_eq k e.0)) [
  | inl same ↦ let key : k ≡ e.0 = (text_eq_iff k e.0).0 same in rw same (rw key keyed.0)
  | inr differs ↦ rw differs (get_or-IsKeyed k d keyed.1)
]

group_by_sender-IsKeyed :
    (ts : List Tx) (d : Dict (List Tx))
    → IsKeyed d
    → Distinct d
    → IsKeyed (group_by_sender ts d) × Distinct (group_by_sender ts d)
unfolding group_by_sender
group_by_sender-IsKeyed [] d keyed distinct = (keyed, distinct)
group_by_sender-IsKeyed (t ∷ ts) d keyed distinct =
    let own = get_or (sender_of t) [] d ++ t ∷ [] in
    group_by_sender-IsKeyed ts (set (sender_of t) own d)
      (set-IsKeyed (sender_of t) own d
        (append-All _ (get_or (sender_of t) [] d) (t ∷ []) (get_or-IsKeyed (sender_of t) d keyed)
          (text_eq_refl (sender_of t), tt))
        keyed)
      (set-Distinct (sender_of t) own d distinct)

module _ (sender : Text) where
  get_or-group_by_sender :
      (ts : List Tx) (d : Dict (List Tx))
      → get_or sender [] (group_by_sender ts d) ≡ get_or sender [] d ++ keep (is_theirs sender) ts
  unfolding group_by_sender keep
  get_or-group_by_sender [] d = sym (append-nil (get_or sender [] d))
  get_or-group_by_sender (t ∷ ts) d =
      let own = get_or (sender_of t) [] d ++ t ∷ [] in
      let there = get_or-set sender (sender_of t) [] own d in
      get_or-group_by_sender ts (set (sender_of t) own d)
      ∙ elim (Bool-cases (text_eq sender (sender_of t))) [
        | inl same ↦
            let key : sender ≡ sender_of t = (text_eq_iff sender (sender_of t)).0 same in
            rw (there, same)
              (append_assoc (get_or (sender_of t) [] d) (t ∷ []) (keep (is_theirs sender) ts)
                ∙ ap (λ k. get_or k [] d ++ t ∷ keep (is_theirs sender) ts) (sym key))
        | inr differs ↦ rw (there, differs) refl
      ]

  keyed-IsOthers :
      (k : Text) (ts : List Tx)
      → text_eq sender k ≡ false
      → All (λ t. text_eq k (sender_of t) ≡ true) ts
      → IsOthers sender ts
  keyed-IsOthers k [] differs all = tt
  keyed-IsOthers k (t ∷ ts) differs all =
      let key : k ≡ sender_of t = (text_eq_iff k (sender_of t)).0 all.0 in
      (rw (← key) differs, keyed-IsOthers k ts differs all.1)

  abbrev ordered : Dict (List Tx) → List (List Tx)
  ordered d = map (λ e. sort_by nonce_less e.1) d

  ordered-IsOthers :
      (d : Dict (List Tx))
      → contains sender d ≡ false
      → IsKeyed d
      → All (IsOthers sender) (ordered d)
  unfolding contains
  ordered-IsOthers [] out keyed = tt
  ordered-IsOthers (e ∷ d) out keyed = elim (Bool-cases (text_eq sender e.0)) [
    | inl same ↦ absurd (ground (arith, out, same))
    | inr differs ↦ (
      sort_by-All _ nonce_less e.1 (keyed-IsOthers e.0 e.1 differs keyed.0),
      ordered-IsOthers d (ground (arith, out, differs)) keyed.1,
    )
  ]

  ordered-InOneGroup :
      (d : Dict (List Tx))
      → Distinct d
      → IsKeyed d
      → InOneGroup sender (sort_by nonce_less (get_or sender [] d)) (ordered d)
  unfolding get_or sort_by
  ordered-InOneGroup [] distinct keyed = nowhere refl
  ordered-InOneGroup (e ∷ d) distinct keyed = elim (Bool-cases (text_eq sender e.0)) [
    | inl same ↦
        let key : sender ≡ e.0 = (text_eq_iff sender e.0).0 same in
        rw same (
          here (sort_by nonce_less e.1) (ordered d) refl
            (sort_by-All _ nonce_less e.1 (rw key keyed.0))
            (ordered-IsOthers d (rw key distinct.0) keyed.1))
    | inr differs ↦ rw differs (
        later (sort_by nonce_less e.1) (ordered d)
          (sort_by-All _ nonce_less e.1 (keyed-IsOthers e.0 e.1 differs keyed.0))
          (ordered-InOneGroup d distinct.1 keyed.1))
  ]

  groups_of-InOneGroup :
      (env : Env) (txs : List Tx)
      → InOneGroup sender (sort_by nonce_less (keep (is_theirs sender) txs)) (groups_of env txs)
  unfolding groups_of get_or
  groups_of-InOneGroup env txs =
      let (keyed, distinct) = group_by_sender-IsKeyed txs [] tt tt in
      sort_by-InOneGroup sender _ (pays_more env) _ (
        subst (λ own. InOneGroup sender (sort_by nonce_less own) (ordered (group_by_sender txs [])))
          (get_or-group_by_sender txs [])
          (ordered-InOneGroup (group_by_sender txs []) distinct keyed))

-- If the block without transactions is within the size limit, then so is the size that `assemble`
-- counts, which is that of the empty block and of each transaction at its place. The transactions
-- that it takes of a sender are a first part of that sender's transactions in ascending order of
-- their nonces, so that none is taken without those before it, also where the deadline passes.
pub packing_in_order :
    (env : Env) (late : ℕ → Bool) (now : Time) (number : ℕ → Text) (tip : Block) (txs : List Tx)
    (builder : Text) (iterations : ℤ)
    → block_size env (skeleton env number late now tip builder iterations) ≤ block_size_limit
    → IsWithin env
        (block_size env (skeleton env number late now tip builder iterations))
        (packing env number late now tip txs builder iterations)
      × ((sender : Text)
          → IsAscending (sort_by nonce_less (keep (is_theirs sender) txs))
            × (n : ℕ) × (keep
                  (is_theirs sender)
                  (packing env number late now tip txs builder iterations).valid_txs
                ≡ take n (sort_by nonce_less (keep (is_theirs sender) txs))))
packing_in_order env late now number tip txs builder iterations fits =
    let (within, parts) = packing_sound env late now number tip txs builder iterations fits in
    (
      within,
      λ sender.
          let (n, first) =
            keep-IsPrefixes sender _ (groups_of env txs) _ parts
              (groups_of-InOneGroup sender env txs) in
          (sort_by-IsAscending (keep (is_theirs sender) txs), n, first),
    )
