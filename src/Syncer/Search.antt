-- ===== src/Syncer/Search.antt =====
-- The search against a peer that serves one chain.
use echocoin_core.Prelude.{
  ℕ, zero, suc, ◌+◌, ◌≤◌, ◌<◌, ◌≡◌, ◌≢◌, ◌∙◌, refl, if◌then◌else◌, true, false, Option, none, some,
  List, [], ◌∷◌, text_eq, text_eq_iff, text_eq_refl, ltb, length, get_elem?, ok, arith, Bool-cases,
  Option-cases, inl, inr,
}
use echocoin_core.Wire.{Block}
use echocoin_core.Node.{fork_point}
use echocoin_core.Syncer.{
  Net, Item, block_item, page, attempt, request_sync_with_retry, has_hash, is_shared, probe,
  local_hash_at, middle, search, after, find_fork_point,
}

-- Below the fork point both chains have a block, of the same hash.
fork_point-shared :
    (local remote : List Block) (i : ℕ) (a : Block)
    → i < fork_point local remote
    → get_elem? local i ≡ some a
    → (b : Block) × (get_elem? remote i ≡ some b) × (b.hash ≡ a.hash)
unfolding fork_point
fork_point-shared [] remote i a h e = absurd (omega (arith, h))
fork_point-shared (x ∷ local) [] i a h e = absurd (omega (arith, h))
fork_point-shared (x ∷ local) (y ∷ remote) zero a h e =
    (y, refl, ground (arith, h, e, text_eq_iff x.hash y.hash))
fork_point-shared (x ∷ local) (y ∷ remote) (suc i) a h e =
    fork_point-shared local remote i a (ground (arith, h)) e

fork_point-length : (local remote : List Block) → fork_point local remote ≤ length local
unfolding fork_point
fork_point-length [] remote = omega arith
fork_point-length (x ∷ local) [] = omega arith
fork_point-length (x ∷ local) (y ∷ remote) = ground (arith, fork_point-length local remote)

get_elem?-in :
    {A : Type 0} (xs : List A) (i : ℕ) → i < length xs → (x : A) × (get_elem? xs i ≡ some x)
get_elem?-in [] i h = absurd (omega (arith, h))
get_elem?-in (x ∷ xs) zero h = (x, refl)
get_elem?-in (x ∷ xs) (suc i) h = get_elem?-in xs i (omega (arith, h))

-- The answer of a peer to a request for the block of one height.
abbrev pub page_of : Option Block → List Item
page_of none = []
page_of (some b) = block_item b ∷ []

middle-bounds : (lo top : ℕ) → lo < top → (lo ≤ middle lo top) × (middle lo top < top)
unfolding middle
middle-bounds lo top h = (omega (arith, h), omega (arith, h))

local_hash_at-ok :
    (chain : List Block) (h : ℕ) (a : Block)
    → get_elem? chain h ≡ some a
    → local_hash_at chain h ≡ ok a.hash
unfolding local_hash_at
local_hash_at-ok chain h a e = rw (local_hash_at, e) refl

after-none : after none ≡ 0
unfolding after
after-none = refl

after-some : (k : ℕ) → after (some k) ≡ k + 1
unfolding after
after-some k = refl

search_out :
    (net : Net) (chain : List Block) (fuel lo top : ℕ) (result : Option ℕ) (n : ℕ)
    → top ≤ lo
    → search net chain fuel lo top result n ≡ ok (result, n)
unfolding search
search_out net chain zero lo top result n h = refl
search_out net chain (suc fuel) lo top result n h =
    let off : ltb lo top ≡ false = ground (arith, h) in rw off refl

module _ (net : Net) (chain remote : List Block)
    (serves : (n h : ℕ) → net n h h ≡ some (page (page_of (get_elem? remote h))))
    (parted : (i : ℕ) (a b : Block)
      → fork_point chain remote ≤ i
      → get_elem? chain i ≡ some a
      → get_elem? remote i ≡ some b
      → b.hash ≢ a.hash) where
  request-served :
      (h n : ℕ)
      → request_sync_with_retry net h h n ≡ (some (page (page_of (get_elem? remote h))), suc n)
  unfolding request_sync_with_retry attempt
  request-served h n = rw (serves n h) refl

  is_shared-served :
      (h : ℕ) (a : Block)
      → get_elem? chain h ≡ some a
      → is_shared (some (page (page_of (get_elem? remote h)))) a.hash
        ≡ ok (ltb h (fork_point chain remote))
  unfolding is_shared has_hash
  is_shared-served h a e = elim (Bool-cases (ltb h (fork_point chain remote))) [
    | inl below ↦
        let (b, r, same) = fork_point-shared chain remote h a (ground (arith, below)) e in
        rw (r, below, same, text_eq_refl a.hash) refl
    | inr above ↦ elim (Option-cases (get_elem? remote h)) [
      | inl bare ↦ rw (bare, above) refl
      | inr (b, r) ↦
          let apart : b.hash ≢ a.hash = parted h a b (ground (arith, above)) e r in
          let differ : text_eq b.hash a.hash ≡ false = elim (Bool-cases (text_eq b.hash a.hash)) [
            | inl alike ↦ absurd (apart ((text_eq_iff b.hash a.hash).0 alike))
            | inr fine ↦ fine
          ] in
          rw (r, above, differ) refl
    ]
  ]

  probe-served :
      (h n : ℕ) (a : Block)
      → get_elem? chain h ≡ some a
      → probe net h a.hash n ≡ ok (ltb h (fork_point chain remote), suc n)
  unfolding probe
  probe-served h n a e = rw (request-served h n, is_shared-served h a e) refl

  -- One round, at the middle `mid` of the interval.
  round :
      (fuel lo top : ℕ) (result : Option ℕ) (n : ℕ) (a : Block)
      → lo < top
      → get_elem? chain (middle lo top) ≡ some a
      → search net chain (suc fuel) lo top result n ≡ (
          if ltb (middle lo top) (fork_point chain remote)
          then search net chain fuel (middle lo top + 1) top (some (middle lo top)) (suc n)
          else search net chain fuel lo (middle lo top) result (suc n))
  unfolding search
  round fuel lo top result n a open_interval e =
      let on : ltb lo top ≡ true = ground (arith, open_interval) in
      elim (Bool-cases (ltb (middle lo top) (fork_point chain remote))) [
        | inl below ↦
            rw
              (
                on,
                local_hash_at-ok chain (middle lo top) a e,
                probe-served (middle lo top) n a e,
                below,
              )
              refl
        | inr above ↦
            rw
              (
                on,
                local_hash_at-ok chain (middle lo top) a e,
                probe-served (middle lo top) n a e,
                above,
              )
              refl
      ]

  search-lem :
      (fuel lo top : ℕ) (result : Option ℕ) (n : ℕ)
      → after result ≡ lo
      → lo ≤ fork_point chain remote
      → fork_point chain remote ≤ top
      → top ≤ length chain
      → top ≤ lo + fuel
      → (r : Option ℕ) × (next : ℕ) × (search net chain fuel lo top result n ≡ ok (r, next))
        × (after r ≡ fork_point chain remote)
  search-lem zero lo top result n found low high len enough = (
    result,
    n,
    search_out net chain zero lo top result n (omega (arith, enough)),
    omega (arith, found, low, high, enough),
  )
  search-lem (suc fuel) lo top result n found low high len enough = elim (Bool-cases (ltb lo top)) [
    | inr off ↦
        let over : top ≤ lo = ground (arith, off) in
        (
          result,
          n,
          search_out net chain (suc fuel) lo top result n over,
          omega (arith, found, low, high, over),
        )
    | inl on ↦
        let inside : lo < top = ground (arith, on) in
        let (from, below_top) = middle-bounds lo top inside in
        let (a, e) = get_elem?-in chain (middle lo top) (omega (arith, below_top, len)) in
        let step = round fuel lo top result n a inside e in
        elim (Bool-cases (ltb (middle lo top) (fork_point chain remote))) [
          | inl below ↦
              let (r, next, runs, ends) =
                search-lem fuel (middle lo top + 1) top (some (middle lo top)) (suc n)
                  (after-some (middle lo top)) (ground (arith, below)) high len
                  (omega (arith, from, enough)) in
              (r, next, step ∙ rw below runs, ends)
          | inr above ↦
              let (r, next, runs, ends) =
                search-lem fuel lo (middle lo top) result (suc n) found low (ground (arith, above))
                  (omega (arith, below_top, len)) (omega (arith, below_top, enough)) in
              (r, next, step ∙ rw above runs, ends)
        ]
  ]

  -- Against a peer that serves one chain, whose hashes differ from the local ones from the fork
  -- point on, the search finds the fork point that the node computes from the two chains.
  pub find_fork_point-fork_point :
      (n : ℕ) → (next : ℕ) × (find_fork_point net chain n ≡ ok (fork_point chain remote, next))
  unfolding find_fork_point
  find_fork_point-fork_point n =
      let (r, next, runs, ends) =
        search-lem (length chain) 0 (length chain) none n after-none (omega arith)
          (fork_point-length chain remote) (omega arith) (omega arith) in
      (next, rw (runs, ends) refl)
