-- ===== src/Syncer.antt =====
-- src/syncer.py: the search for the last block that a peer's chain shares with the local one. The
-- network is what it answers to its n-th request for the blocks from one height to another.
pub mod Search
pub mod Fetch
pub mod Round
use echocoin_core.Prelude.{
  ℕ, zero, suc, ◌+◌, ◌-◌, ◌/◌, Bool, true, false, Option, none, some, List, [], ◌∷◌, ◌++◌, Text,
  text_eq, ltb, if◌then◌else◌, length, get_elem?, Result, ok, raise, attribute_error, index_error,
  ◌>>=◌,
}
use echocoin_core.Wire.{Block}

-- An entry of an answer's "chain": a block, a dict without a usable "hash", or something else.
pub data Item : Type 0 where
  block_item : Block → Item
  hashless : Item
  no_dict : Item

-- An answer that is no dict, or has no list under "chain"; or that list.
pub data Answer : Type 0 where
  no_page : Answer
  page : List Item → Answer

-- `none` is a timeout.
abbrev pub Net : Type 0
Net = ℕ → ℕ → ℕ → Option Answer

abbrev pub sync_request_retries : ℕ
sync_request_retries = 2

-- At most so many attempts; the number of the next request comes back with the answer.
unfoldable pub attempt : Net → ℕ → ℕ → ℕ → ℕ → Option Answer × ℕ
attempt net from_h to_h zero n = (none, n)
attempt net from_h to_h (suc left) n =
    let later = attempt net from_h to_h left (suc n) in
    elim (net n from_h to_h) [ some answer ↦ (some answer, suc n) | none ↦ later ]

unfoldable pub request_sync_with_retry : Net → ℕ → ℕ → ℕ → Option Answer × ℕ
request_sync_with_retry net from_h to_h n = attempt net from_h to_h (sync_request_retries + 1) n

-- `page[0].get("hash") == local_hash`
unfoldable pub has_hash : Item → Text → Result Bool
has_hash (block_item b) local_hash = ok (text_eq b.hash local_hash)
has_hash hashless local_hash = ok false
has_hash no_dict local_hash = raise attribute_error

-- Whether the peer has the block of this hash at this height.
unfoldable pub is_shared : Option Answer → Text → Result Bool
is_shared none local_hash = ok false
is_shared (some no_page) local_hash = ok false
is_shared (some (page [])) local_hash = ok false
is_shared (some (page (x ∷ xs))) local_hash = has_hash x local_hash

unfoldable pub probe : Net → ℕ → Text → ℕ → Result (Bool × ℕ)
probe net mid local_hash n =
    let answer = request_sync_with_retry net mid mid n in
    do same ← is_shared answer.0 local_hash; ok (same, answer.1)

unfoldable pub local_hash_at : List Block → ℕ → Result Text
local_hash_at chain h = elim (get_elem? chain h) [ none ↦ raise index_error | some b ↦ ok b.hash ]

-- `(lo + hi) // 2`, where `top` is `hi + 1`
unfoldable pub middle : ℕ → ℕ → ℕ
middle lo top = (lo + top - 1) / 2

-- The loop, with `top` for `hi + 1`, so that `lo <= hi` is `lo < top`. The first number is fuel.
unfoldable pub search : Net → List Block → ℕ → ℕ → ℕ → Option ℕ → ℕ → Result (Option ℕ × ℕ)
search net chain zero lo top result n = ok (result, n)
search net chain (suc fuel) lo top result n =
    if ltb lo top
    then (do
      local_hash ← local_hash_at chain (middle lo top)
      (same, next) ← probe net (middle lo top) local_hash n
      search net chain fuel (if same then middle lo top + 1 else lo)
          (if same then top else middle lo top) (if same then some (middle lo top) else result)
          next)
    else ok (result, n)

-- `(result + 1) if result is not None else 0`
unfoldable pub after : Option ℕ → ℕ
after none = 0
after (some k) = k + 1

unfoldable pub find_fork_point : Net → List Block → ℕ → Result (ℕ × ℕ)
find_fork_point net chain n = do
  (result, next) ← search net chain (length chain) 0 (length chain) none n
  ok (after result, next)

abbrev pub fetch_chunk : ℕ
fetch_chunk = 50

-- The page of an answer, empty where the code stops because there is none.
unfoldable pub items_of : Option Answer → List Item
items_of none = []
items_of (some no_page) = []
items_of (some (page xs)) = xs

-- `min(h + FETCH_CHUNK - 1, remote_height)`
unfoldable pub last_of_page : ℕ → ℕ → ℕ
last_of_page h remote_height =
    if ltb remote_height (h + fetch_chunk - 1) then remote_height else h + fetch_chunk - 1

-- What a page adds to the chain: nothing more is asked for after one that is not full.
unfoldable pub next_page : List Item → ℕ → List Item × ℕ → List Item × ℕ
next_page xs n rest =
    if ltb 0 (length xs)
    then (if ltb (length xs) fetch_chunk then (xs, n) else (xs ++ rest.0, rest.1))
    else ([], n)

-- The pages from `h` on; an empty chain stands for None. The first number is fuel.
unfoldable pub fetch_chain : Net → ℕ → ℕ → ℕ → ℕ → List Item × ℕ
fetch_chain net remote_height zero h n = ([], n)
fetch_chain net remote_height (suc fuel) h n =
    let answer = request_sync_with_retry net h (last_of_page h remote_height) n in
    let rest = fetch_chain net remote_height fuel (h + fetch_chunk) answer.1 in
    if ltb remote_height h then ([], n) else next_page (items_of answer.0) answer.1 rest
