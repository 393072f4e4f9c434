-- ===== src/Storage/Snapshot.antt =====
-- The state as it is written and read back.
use echocoin_core.Prelude.{
  add_member, member, ◌≡◌, ◌∙◌, sym, ap, refl, true, false, some, List, [], ◌∷◌, map, ℤ, pos, Text,
  text_eq, text_eq_iff, text_eq_refl, arith, if◌then◌else◌, Bool-cases, inl, inr,
}
use echocoin_core.Dict.{Dict, get_or, contains}
use echocoin_core.Table.{find-put, text_key, put, find}
use echocoin_core.State.{State, get_balance, get_nonce}
use echocoin_core.Storage.{
  Database, all_keys, state_row, save_state, save_state_inner, load_state, total_key, total_of,
  state_exists,
}

member-add_member :
    (a b : Text) (set : List Text)
    → member a (add_member b set) ≡ (if text_eq a b then true else member a set)
unfolding member
member-add_member a b set = ground (arith, text_eq_iff a b)

member-all_keys :
    (a : Text) (d : Dict ℤ) (set : List Text)
    → member a (all_keys d set) ≡ (if contains a d then true else member a set)
unfolding all_keys contains
member-all_keys a [] set = refl
member-all_keys a (e ∷ d) set =
    ground (arith, member-all_keys a d (add_member e.0 set), member-add_member a e.0 set)

get_or_of_not-contains : (a : Text) (d : Dict ℤ) → contains a d ≡ false → get_or a (pos 0) d ≡ pos 0
unfolding get_or contains
get_or_of_not-contains a [] h = refl
get_or_of_not-contains a (e ∷ d) h = ground (arith, get_or_of_not-contains a d)

-- A column of the rows, looked up.
get_or-column :
    (a : Text) (f : Text → ℤ × ℤ) (pick : ℤ × ℤ → ℤ) (keys : List Text)
    → get_or a
        (pos 0)
        (map (λ (row : Text × (ℤ × ℤ)). (row.0, pick row.1)) (map (λ k. (k, f k)) keys))
      ≡ (if member a keys then pick (f a) else pos 0)
unfolding get_or member
get_or-column a f pick [] = refl
get_or-column a f pick (k ∷ keys) = elim (Bool-cases (text_eq a k)) [
  | inl same ↦ rw same (ap (λ j. pick (f j)) (sym ((text_eq_iff a k).0 same)))
  | inr other ↦ rw other (get_or-column a f pick keys)
]

module _ (a : Text) (s : State) where
  member-state :
      member a (all_keys s.nonces (all_keys s.balances []))
      ≡ (if contains a s.nonces then true else if contains a s.balances then true else false)
  unfolding member
  member-state =
      member-all_keys a s.nonces (all_keys s.balances [])
      ∙ ap (λ b. if contains a s.nonces then true else b) (member-all_keys a s.balances [])

  column_lem :
      (pick : ℤ × ℤ → ℤ) (d : Dict ℤ)
      → pick (state_row s a).1 ≡ get_or a (pos 0) d
      → (contains a d ≡ true → member a (all_keys s.nonces (all_keys s.balances [])) ≡ true)
      → (if member a (all_keys s.nonces (all_keys s.balances []))
          then pick (state_row s a).1
          else pos 0)
        ≡ get_or a (pos 0) d
  column_lem pick d e there = ground (arith, e, there, get_or_of_not-contains a d)

-- Two states that no reader can tell apart by an address.
abbrev pub IsSameState : State → State → Type 0
IsSameState s t =
    ((a : Text) → (get_balance a s ≡ get_balance a t) × (get_nonce a s ≡ get_nonce a t))
    × (s.total_minted ≡ t.total_minted)

-- The state that was saved is the state that is loaded, whatever the tables held before: every
-- address has its balance and its nonce again, and the total that was minted is the same.
pub load_state-save_state :
    (s : State) (db : Database) → IsSameState (load_state (save_state s db)) s
unfolding load_state save_state save_state_inner get_balance get_nonce
load_state-save_state s db =
    let keys = all_keys s.nonces (all_keys s.balances []) in
    let total : find total_key (put total_key s.total_minted db.emission) ≡ some s.total_minted =
      find-put total_key total_key s.total_minted db.emission ∙ rw (text_eq_refl total_key) refl in
    let f : Text → ℤ × ℤ = λ k. (state_row s k).1 in
    (
      λ a. (
        get_or-column a f (λ v. v.0) keys
            ∙ column_lem a s (λ v. v.0) s.balances refl (λ c. ground (arith, c, member-state a s)),
        get_or-column a f (λ v. v.1) keys
            ∙ column_lem a s (λ v. v.1) s.nonces refl (λ c. ground (arith, c, member-state a s)),
      ),
      ap total_of total,
    )

exists_lem :
    (s : State) (a : Text) (keys : List Text)
    → member a keys ≡ true
    → (db : Database) → db.states ≡ map (state_row s) keys
    → state_exists db ≡ true
unfolding member state_exists
exists_lem s a [] h db e = cc
exists_lem s a (k ∷ keys) h db e = rw e refl

-- A state in which an address has a balance leaves rows behind.
pub state_exists-save_state :
    (s : State) (db : Database) (a : Text)
    → contains a s.balances ≡ true
    → state_exists (save_state s db) ≡ true
unfolding save_state save_state_inner
state_exists-save_state s db a h =
    exists_lem s a (all_keys s.nonces (all_keys s.balances []))
      (ground (arith, h, member-state a s)) _ refl
