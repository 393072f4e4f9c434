-- ===== src/Syncer/Fetch.antt =====
-- The paged fetch from a peer that serves one chain.
use echocoin_core.Prelude.{
  ℕ, zero, suc, ◌+◌, ◌-◌, ◌≤◌, ◌<◌, ◌≡◌, ◌∙◌, sym, ap, refl, true, false, some, List, [], ◌∷◌, ◌++◌,
  ltb, length, take, drop, take-append-drop, take_all, length-take_short, length-take_positive,
  drop_all, drop-drop, length-drop, ltb-true, lt-ltb, arith, Bool-cases, inl, inr,
}
use echocoin_core.Wire.{Block}
use echocoin_core.Syncer.{
  Net, Item, block_item, page, attempt, request_sync_with_retry, items_of, last_of_page,
  fetch_chain, fetch_chunk, next_page,
}

abbrev pub items : List Block → List Item
items [] = []
items (b ∷ bs) = block_item b ∷ items bs

pub items-append : (xs ys : List Block) → items (xs ++ ys) ≡ items xs ++ items ys
items-append [] ys = refl
items-append (x ∷ xs) ys = ap (λ zs. block_item x ∷ zs) (items-append xs ys)

length-items : (xs : List Block) → length (items xs) ≡ length xs
length-items [] = refl
length-items (x ∷ xs) = omega (arith, length-items xs)

-- A page and what is behind it make up the chain.
next_page-items :
    (bs : List Block) (n m : ℕ)
    → 0 < length bs
    → (k : ℕ) × (next_page (items (take fetch_chunk bs)) n (items (drop fetch_chunk bs), m)
        ≡ (items bs, k))
unfolding next_page
next_page-items bs n m some_left =
    let len = length-items (take fetch_chunk bs) in
    let any : 0 < length (items (take fetch_chunk bs)) =
      omega (arith, len, length-take_positive fetch_chunk bs (omega arith) some_left) in
    let full : ltb 0 (length (items (take fetch_chunk bs))) ≡ true = ltb-true 0 _ any in
    elim (Bool-cases (ltb (length (items (take fetch_chunk bs))) fetch_chunk)) [
      | inl part ↦
          let whole : take fetch_chunk bs ≡ bs =
            take_all fetch_chunk bs
              (length-take_short fetch_chunk bs (omega (arith, len, lt-ltb _ fetch_chunk part))) in
          (n, rw (full, part) (ap (λ xs. (items xs, n)) whole))
      | inr more ↦
          let whole : items (take fetch_chunk bs) ++ items (drop fetch_chunk bs) ≡ items bs =
            sym (items-append (take fetch_chunk bs) (drop fetch_chunk bs))
            ∙ ap items (take-append-drop fetch_chunk bs) in
          (m, rw (full, more) (ap (λ xs. (xs, m)) whole))
    ]

module _ (net : Net) (remote : List Block) (remote_height : ℕ)
    (tall : remote_height + 1 ≡ length remote)
    (serves : (n from_h to_h : ℕ)
      → net n from_h to_h
        ≡ some (page (items (take (to_h + 1 - from_h) (drop from_h remote))))) where
  take-page :
      (h : ℕ)
      → h ≤ remote_height
      → take (last_of_page h remote_height + 1 - h) (drop h remote)
        ≡ take fetch_chunk (drop h remote)
  unfolding last_of_page
  take-page h low =
      let len : length (drop h remote) + h ≡ length remote =
        length-drop h remote (omega (arith, low, tall)) in
      elim (Bool-cases (ltb remote_height (h + fetch_chunk - 1))) [
        | inl short ↦
            let few : remote_height < h + fetch_chunk - 1 = ground (arith, short) in
            rw short (
              take_all (remote_height + 1 - h) (drop h remote) (omega (arith, len, tall))
              ∙ sym (take_all fetch_chunk (drop h remote) (omega (arith, len, tall, few))))
        | inr long ↦
            let whole : h + fetch_chunk - 1 + 1 - h ≡ fetch_chunk = omega arith in
            rw long (ap (λ k. take k (drop h remote)) whole)
      ]

  request-page :
      (h n : ℕ)
      → h ≤ remote_height
      → request_sync_with_retry net h (last_of_page h remote_height) n
        ≡ (some (page (items (take fetch_chunk (drop h remote)))), suc n)
  unfolding request_sync_with_retry attempt
  request-page h n low = rw (serves n h (last_of_page h remote_height), take-page h low) refl

  fetch-step :
      (fuel h n : ℕ)
      → h ≤ remote_height
      → fetch_chain net remote_height (suc fuel) h n
        ≡ next_page
            (items (take fetch_chunk (drop h remote)))
            (suc n)
            (fetch_chain net remote_height fuel (h + fetch_chunk) (suc n))
  unfolding fetch_chain items_of next_page
  fetch-step fuel h n low =
      let on : ltb remote_height h ≡ false = ground (arith, low) in
      rw (on, request-page h n low) refl

  fetch_chain_past :
      (fuel h n : ℕ) → remote_height < h → fetch_chain net remote_height fuel h n ≡ ([], n)
  unfolding fetch_chain
  fetch_chain_past zero h n past = refl
  fetch_chain_past (suc fuel) h n past =
      let off : ltb remote_height h ≡ true = ground (arith, past) in rw off refl

  fetch_chain-items :
      (fuel h n : ℕ)
      → length remote ≤ h + fuel
      → (next : ℕ) × (fetch_chain net remote_height fuel h n ≡ (items (drop h remote), next))
  fetch_chain-items zero h n enough =
      let none_left : drop h remote ≡ [] = drop_all h remote (omega (arith, enough)) in
      (
        n,
        fetch_chain_past zero h n (omega (arith, enough, tall))
            ∙ ap (λ bs. (items bs, n)) (sym none_left),
      )
  fetch_chain-items (suc fuel) h n enough = elim (Bool-cases (ltb remote_height h)) [
    | inl past ↦
        let over : remote_height < h = ground (arith, past) in
        let none_left : drop h remote ≡ [] = drop_all h remote (omega (arith, over, tall)) in
        (n, fetch_chain_past (suc fuel) h n over ∙ ap (λ bs. (items bs, n)) (sym none_left))
    | inr within ↦
        let low : h ≤ remote_height = ground (arith, within) in
        let len : length (drop h remote) + h ≡ length remote =
          length-drop h remote (omega (arith, low, tall)) in
        let (m, later) = fetch_chain-items fuel (h + fetch_chunk) (suc n) (omega (arith, enough)) in
        let (k, joined) =
          next_page-items (drop h remote) (suc n) m (omega (arith, len, low, tall)) in
        let split : drop (h + fetch_chunk) remote ≡ drop fetch_chunk (drop h remote) =
          drop-drop h fetch_chunk (h + fetch_chunk) remote refl in
        (
          k,
          fetch-step fuel h n low
              ∙ ap (next_page (items (take fetch_chunk (drop h remote))) (suc n))
                  (later ∙ ap (λ bs. (items bs, m)) split)
              ∙ joined,
        )
  ]

  -- From a peer that serves one chain of the height that it told, the fetch from any height brings
  -- exactly the rest of that chain, in order.
  pub fetch_chain_lem :
      (h n : ℕ)
      → (next : ℕ) × (fetch_chain net remote_height (length remote) h n
          ≡ (items (drop h remote), next))
  fetch_chain_lem h n = fetch_chain-items (length remote) h n (omega arith)
