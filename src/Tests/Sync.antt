-- ===== src/Tests/Sync.antt =====
-- Runs of the syncing, and the theorems about it at concrete inputs.
use echocoin_core.Prelude.{
  ℕ, zero, suc, ◌≤◌, ◌≡◌, ◌≢◌, refl, ok, some, [], ◌∷◌, List, get_elem?, take, drop, ◌+◌, ◌-◌,
  text_eq, arith, none, ltb, length, if◌then◌else◌, pos,
}
use echocoin_core.Wire.{given, Block}
use echocoin_core.Node.{fork_point}
use echocoin_core.Syncer.{
  Net, page, attempt, request_sync_with_retry, has_hash, is_shared, probe, local_hash_at, middle,
  search, after, find_fork_point,
}
use echocoin_core.Syncer.Search.{page_of, find_fork_point-fork_point}
use echocoin_core.Syncer.Fetch.{items}
use echocoin_core.Syncer.Round.{PeerInfo, is_in_sync, check_and_sync, check_and_sync_lem}
use echocoin_core.PeerPool.{new_pool, update_info}
use echocoin_core.Tests.Toy.{block_one}

abbrev base : Block
base = record block_one { hash = 0 ∷ [] }

abbrev other : Block
other = record block_one { hash = 2 ∷ [] }

abbrev local : List Block
local = base ∷ block_one ∷ []

abbrev remote : List Block
remote = base ∷ other ∷ other ∷ []

-- A peer that serves `remote`.
abbrev net : Net
net n from_h to_h = some (page (page_of (get_elem? remote from_h)))

forks : fork_point local remote ≡ 1
unfolding fork_point text_eq
forks = refl

finds : find_fork_point net local 0 ≡ ok (1, 2)
unfolding attempt request_sync_with_retry has_hash is_shared probe local_hash_at middle search after
    find_fork_point text_eq
finds = refl

apart :
    (i : ℕ) (a b : Block)
    → fork_point local remote ≤ i
    → get_elem? local i ≡ some a
    → get_elem? remote i ≡ some b
    → b.hash ≢ a.hash
apart zero a b h p q same = absurd (omega (arith, h, forks))
apart (suc zero) a b h p q same = ground (arith, p, q, same)
apart (suc (suc i)) a b h p q same = ground (arith, p)

shared : take (fork_point local remote) local ≡ take (fork_point local remote) remote
unfolding fork_point text_eq
shared = refl

find_fork_point-fork_point_example :
    (next : ℕ) × (find_fork_point net local 0 ≡ ok (fork_point local remote, next))
find_fork_point-fork_point_example =
    find_fork_point-fork_point net local remote (λ n h. refl) apart 0

-- A peer that serves `remote`, any blocks of it.
abbrev server : Net
server n from_h to_h = some (page (items (take (to_h + 1 - from_h) (drop from_h remote))))

abbrev told : PeerInfo
told = record { height = given (pos 2); tip_hash = 2 ∷ []; wallet = []; version = [] }

check_and_sync_lem_example : check_and_sync server local (some ([], some told)) (new_pool 3) ≡ (
  update_info [] told.height told.wallet told.version (new_pool 3),
  ok (
      if is_in_sync local told
      then none
      else if ltb (fork_point local remote) (length remote)
      then some (items remote)
      else none),
)
check_and_sync_lem_example =
    check_and_sync_lem server local remote 2 refl (λ n from_h to_h. refl) apart shared [] told
      (new_pool 3) refl
