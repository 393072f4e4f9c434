-- ===== src/Block/Assemble/Ordered.antt =====
-- Lists of groups of which one holds a sender's transactions, for `assemble` of src/block.py.
use echocoin_core.Prelude.{
  ℕ, zero, suc, ◌≡◌, ◌∙◌, ap, refl, Bool, true, false, List, [], ◌∷◌, ◌++◌, keep, All, take, Text,
  text_eq, Bool-cases, inl, inr, append-nil,
}
use echocoin_core.Wire.{Tx}
use echocoin_core.Mempool.Sorting.{insert_by-All, sort_by-All}
use echocoin_core.Mempool.{insert_by, sort_by}
use echocoin_core.Block.Assemble.{sender_of}
use echocoin_core.Block.Assemble.Packed.{IsPrefixes, none_left, then_part}

module _ {A : Type 0} (P : A → Type 0) where
  take-All : (n : ℕ) (xs : List A) → All P xs → All P (take n xs)
  take-All zero xs all = tt
  take-All (suc n) [] all = tt
  take-All (suc n) (x ∷ xs) all = (all.0, take-All n xs all.1)

  pub append-All : (xs ys : List A) → All P xs → All P ys → All P (xs ++ ys)
  append-All [] ys h k = k
  append-All (x ∷ xs) ys h k = (h.0, append-All xs ys h.1 k)

module _ {A : Type 0} (p : A → Bool) where
  keep_whole : (xs : List A) → All (λ x. p x ≡ true) xs → keep p xs ≡ xs
  unfolding keep
  keep_whole [] all = refl
  keep_whole (x ∷ xs) all = rw all.0 (ap (λ ys. x ∷ ys) (keep_whole xs all.1))

  keep_nothing : (xs : List A) → All (λ x. p x ≡ false) xs → keep p xs ≡ []
  unfolding keep
  keep_nothing [] none = refl
  keep_nothing (x ∷ xs) none = rw none.0 (keep_nothing xs none.1)

  keep-append : (xs ys : List A) → keep p (xs ++ ys) ≡ keep p xs ++ keep p ys
  unfolding keep
  keep-append [] ys = refl
  keep-append (x ∷ xs) ys = elim (Bool-cases (p x)) [
    | inl kept ↦ rw kept (ap (λ zs. x ∷ zs) (keep-append xs ys))
    | inr gone ↦ rw gone (keep-append xs ys)
  ]

module _ (sender : Text) where
  abbrev pub is_theirs : Tx → Bool
  is_theirs t = text_eq sender (sender_of t)

  abbrev pub IsTheirs : List Tx → Type 0
  IsTheirs = All (λ t. is_theirs t ≡ true)

  abbrev pub IsOthers : List Tx → Type 0
  IsOthers = All (λ t. is_theirs t ≡ false)

  -- Of some groups, the sender's are in one of them, which holds nothing else.
  pub data InOneGroup (own : List Tx) : List (List Tx) → Type 0 where
    nowhere : own ≡ [] → InOneGroup own []
    here :
        (g : List Tx) (gs : List (List Tx))
        → g ≡ own
        → IsTheirs own
        → All IsOthers gs
        → InOneGroup own (g ∷ gs)
    later :
        (g : List Tx) (gs : List (List Tx))
        → IsOthers g
        → InOneGroup own gs
        → InOneGroup own (g ∷ gs)

  module _ (own : List Tx) (less : List Tx → List Tx → Bool) where
    insert_by-InOneGroup :
        (g : List Tx) (gs : List (List Tx))
        → InOneGroup own (g ∷ gs)
        → InOneGroup own (insert_by less g gs)
    unfolding insert_by
    insert_by-InOneGroup g [] h = h
    insert_by-InOneGroup g (h ∷ hs) (here _ _ e theirs (first, rest)) =
        elim (Bool-cases (less h g)) [
          | inl lower ↦ rw lower (
              later h (insert_by less g hs) first
                (insert_by-InOneGroup g hs (here g hs e theirs rest)))
          | inr placed ↦ rw placed (here g (h ∷ hs) e theirs (first, rest))
        ]
    insert_by-InOneGroup g (h ∷ hs) (later _ _ others (here _ _ e theirs rest)) =
        elim (Bool-cases (less h g)) [
          | inl lower ↦
              rw lower (
                here h (insert_by less g hs) e theirs
                  (insert_by-All IsOthers less g hs others rest))
          | inr placed ↦ rw placed (later g (h ∷ hs) others (here h hs e theirs rest))
        ]
    insert_by-InOneGroup g (h ∷ hs) (later _ _ others (later _ _ first rest)) =
        elim (Bool-cases (less h g)) [
          | inl lower ↦ rw lower (
              later h (insert_by less g hs) first
                (insert_by-InOneGroup g hs (later g hs others rest)))
          | inr placed ↦ rw placed (later g (h ∷ hs) others (later h hs first rest))
        ]

    pub sort_by-InOneGroup :
        (gs : List (List Tx)) → InOneGroup own gs → InOneGroup own (sort_by less gs)
    unfolding sort_by
    sort_by-InOneGroup [] h = h
    sort_by-InOneGroup (g ∷ gs) (here _ _ e theirs rest) =
        insert_by-InOneGroup g (sort_by less gs)
          (here g (sort_by less gs) e theirs (sort_by-All IsOthers less gs rest))
    sort_by-InOneGroup (g ∷ gs) (later _ _ others rest) =
        insert_by-InOneGroup g (sort_by less gs)
          (later g (sort_by less gs) others (sort_by-InOneGroup gs rest))

  keep-others :
      (gs : List (List Tx)) (ts : List Tx)
      → IsPrefixes gs ts
      → All IsOthers gs
      → keep is_theirs ts ≡ []
  unfolding keep
  keep-others gs [] (none_left _) others = refl
  keep-others (g ∷ gs) ts (then_part _ _ n rest parts) others =
      keep-append is_theirs (take n g) rest
      ∙ rw
          (
            keep_nothing is_theirs (take n g) (take-All _ n g others.0),
            keep-others gs rest parts others.1,
          )
          refl

  -- Of the sender's transactions, first parts of the groups hold a first part.
  pub keep-IsPrefixes :
      (own : List Tx) (gs : List (List Tx)) (ts : List Tx)
      → IsPrefixes gs ts
      → InOneGroup own gs
      → (n : ℕ) × (keep is_theirs ts ≡ take n own)
  unfolding keep
  keep-IsPrefixes own gs [] (none_left _) h = (0, refl)
  keep-IsPrefixes own (g ∷ gs) ts (then_part _ _ n rest parts) (here _ _ e theirs others) = (
    n,
    keep-append is_theirs (take n g) rest
        ∙ rw
            (
              e,
              keep_whole is_theirs (take n own) (take-All _ n own theirs),
              keep-others gs rest parts others,
            )
            (append-nil (take n own)),
  )
  keep-IsPrefixes own (g ∷ gs) ts (then_part _ _ n rest parts) (later _ _ others one) =
      let (m, e) = keep-IsPrefixes own gs rest parts one in
      (
        m,
        keep-append is_theirs (take n g) rest
            ∙ rw (keep_nothing is_theirs (take n g) (take-All _ n g others)) e,
      )
