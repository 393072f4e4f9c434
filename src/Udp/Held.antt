-- ===== src/Udp/Held.antt =====
-- How many of the first `n` numbers are keys of a table, against its length.
use echocoin_core.Prelude.{
  ℕ, zero, suc, ◌+◌, ◌≤◌, ◌<◌, ◌≡◌, refl, true, false, some, List, [], ◌∷◌, length, get_elem?, ltb,
  ◌==◌, if◌then◌else◌, ok, arith, Bool-cases, inl, inr,
}
use echocoin_core.Env.{Bytes}
use echocoin_core.Table.{Table, find, holds, IsDistinct, number_key, same_refl}
use echocoin_core.Udp.Reassembler.{join_chunks}
use echocoin_core.Udp.Chunks.{concat}

module _ {V : Type 0} where
  pub held : ℕ → Table ℕ V → ℕ
  held zero t = 0
  held (suc n) t = (if holds n t then 1 else 0) + held n t

held_nil : (V : Type 0) (n : ℕ) → held {V = V} n [] ≡ 0
unfolding held holds
held_nil V zero = refl
held_nil V (suc n) = omega (arith, held_nil V n)

module _ {V : Type 0} where
  held-cons :
      (n k : ℕ) (v : V) (t : Table ℕ V)
      → holds k t ≡ false
      → held n ((k, v) ∷ t) ≡ (if ltb k n then 1 else 0) + held n t
  unfolding held holds
  held-cons zero k v t h = ground arith
  held-cons (suc n) k v t h = ground (arith, held-cons n k v t h)

  pub held-length :
      (n : ℕ) (t : Table ℕ V)
      → IsDistinct t
      → ((i : ℕ) → holds i t ≡ true → i < n)
      → held n t ≡ length t
  unfolding holds
  held-length n [] d below = held_nil V n
  held-length n (e ∷ t) d below =
      let first : e.0 < n = below e.0 (ground (arith, same_refl e.0)) in
      let rest : held n t ≡ length t = held-length n t d.1 (λ i h. below i (ground (arith, h))) in
      ground (arith, first, rest, held-cons n e.0 e.1 t d.0)

  held-le : (n : ℕ) (t : Table ℕ V) → held n t ≤ n
  unfolding held
  held-le zero t = omega arith
  held-le (suc n) t = ground (arith, held-le n t)

  pub held_all : (n : ℕ) (t : Table ℕ V) → ((i : ℕ) → i < n → holds i t ≡ true) → held n t ≡ n
  unfolding held
  held_all zero t h = refl
  held_all (suc n) t h =
      ground (arith, h n (omega arith), held_all n t (λ i b. h i (omega (arith, b))))

  pub held_missing : (n i : ℕ) (t : Table ℕ V) → i < n → holds i t ≡ false → held n t < n
  unfolding held
  held_missing zero i t b h = absurd (omega (arith, b))
  held_missing (suc n) i t b h = elim (Bool-cases (i == n)) [
    | inl last ↦ ground (arith, last, h, held-le n t)
    | inr before ↦ ground (arith, held_missing n i t (ground (arith, before, b)) h)
  ]

-- The chunks of a table that agrees with a list are joined to the list's concatenation.
pub join_chunks-concat :
    (chunks : Table ℕ Bytes) (ps : List Bytes) (i n : ℕ)
    → length ps ≡ n
    → ((j k : ℕ) → j < n → k ≡ i + j → find k chunks ≡ get_elem? ps j)
    → join_chunks n i chunks ≡ ok (concat ps)
unfolding join_chunks concat
join_chunks-concat chunks [] i zero e same = refl
join_chunks-concat chunks [] i (suc n) e same = absurd (omega (arith, e))
join_chunks-concat chunks (p ∷ ps) i zero e same = absurd (omega (arith, e))
join_chunks-concat chunks (p ∷ ps) i (suc n) e same =
    let first : find i chunks ≡ some p = same 0 i (omega arith) (omega arith) in
    let rest : join_chunks n (i + 1) chunks ≡ ok (concat ps) =
      join_chunks-concat chunks ps (i + 1) n (omega (arith, e))
        (λ j k b h. same (suc j) k (omega (arith, b)) (omega (arith, h))) in
    rw (first, rest) refl
