-- ===== src/Table.antt =====
-- A Python dict with keys of any type that can be compared, as its entries in insertion order.
use echocoin_core.Prelude.{
  ℕ, ◌≡◌, ◌↔◌, refl, Bool, true, false, ◌&&◌, Option, none, some, List, [], ◌∷◌, arith, Text,
  text_eq, text_eq_iff, ◌==◌, if◌then◌else◌, ℤ, eqb_ℤ, eqb→eq, eqb_refl,
}

-- Keys with their `==`.
pub record Key {ℓ} (K : Type ℓ) : Type ℓ where
  pub same : K → K → Bool
  pub same_iff : (j k : K) → (same j k ≡ true) ↔ (j ≡ k)

pub ==_iff : (a b : ℕ) → ((a == b) ≡ true) ↔ (a ≡ b)
==_iff a b = ground arith

instance abbrev pub number_key : Key ℕ
number_key = record { same = ◌==◌; same_iff = ==_iff }

instance abbrev pub text_key : Key Text
text_key = record { same = text_eq; same_iff = text_eq_iff }

abbrev pub pair_same : Text × ℕ → Text × ℕ → Bool
pair_same a b = text_eq a.0 b.0 && (a.1 == b.1)

pub pair_same_iff : (a b : Text × ℕ) → (pair_same a b ≡ true) ↔ (a ≡ b)
pair_same_iff a b = ground (arith, text_eq_iff a.0 b.0)

instance abbrev pub pair_key : Key (Text × ℕ)
pair_key = record { same = pair_same; same_iff = pair_same_iff }

abbrev pub texts_same : Text × Text → Text × Text → Bool
texts_same a b = text_eq a.0 b.0 && text_eq a.1 b.1

pub texts_same_iff : (a b : Text × Text) → (texts_same a b ≡ true) ↔ (a ≡ b)
texts_same_iff a b = ground (arith, text_eq_iff a.0 b.0, text_eq_iff a.1 b.1)

instance abbrev pub texts_key : Key (Text × Text)
texts_key = record { same = texts_same; same_iff = texts_same_iff }

pub eqb_ℤ_iff : (a b : ℤ) → (eqb_ℤ a b ≡ true) ↔ (a ≡ b)
eqb_ℤ_iff a b = (eqb→eq a b, λ e. rw e (eqb_refl b))

instance abbrev pub integer_key : Key ℤ
integer_key = record { same = eqb_ℤ; same_iff = eqb_ℤ_iff }

abbrev pub Table : Type 0 → Type 0 → Type 0
Table K V = List (K × V)

module _ {K : Type 0} ⦃key : Key K⦄ where
  pub same_refl : (k : K) → key.same k k ≡ true
  same_refl k = (key.same_iff k k).1 refl

module _ {K V : Type 0} ⦃key : Key K⦄ where
  -- `d.get(k)`
  unfoldable pub find : K → Table K V → Option V
  find k [] = none
  find k (e ∷ d) = if key.same k e.0 then some e.1 else find k d

  -- `k in d`
  unfoldable pub holds : K → Table K V → Bool
  holds k [] = false
  holds k (e ∷ d) = if key.same k e.0 then true else holds k d

  -- `d[k] = v`
  unfoldable pub put : K → V → Table K V → Table K V
  put k v [] = (k, v) ∷ []
  put k v (e ∷ d) = if key.same k e.0 then (k, v) ∷ d else e ∷ put k v d

  -- An insert that leaves the row of a key that is there.
  unfoldable pub put_new : K → V → Table K V → Table K V
  put_new k v d = if holds k d then d else put k v d

  -- `d.pop(k, None)`
  unfoldable pub drop_key : K → Table K V → Table K V
  drop_key k [] = []
  drop_key k (e ∷ d) = if key.same k e.0 then d else e ∷ drop_key k d

  -- No key is listed twice.
  abbrev pub IsDistinct : Table K V → Type 0
  IsDistinct [] = Unit
  IsDistinct (e ∷ d) = (holds e.0 d ≡ false) × IsDistinct d

  pub find-put :
      (j k : K) (v : V) (d : Table K V)
      → find j (put k v d) ≡ (if key.same j k then some v else find j d)
  unfolding find put
  find-put j k v [] = refl
  find-put j k v (e ∷ d) =
      ground (arith, find-put j k v d, key.same_iff j k, key.same_iff k e.0, key.same_iff j e.0)

  pub holds-put :
      (j k : K) (v : V) (d : Table K V)
      → holds j (put k v d) ≡ (if key.same j k then true else holds j d)
  unfolding holds put
  holds-put j k v [] = refl
  holds-put j k v (e ∷ d) =
      ground (arith, holds-put j k v d, key.same_iff j k, key.same_iff k e.0, key.same_iff j e.0)

  pub put-IsDistinct : (k : K) (v : V) (d : Table K V) → IsDistinct d → IsDistinct (put k v d)
  unfolding put holds
  put-IsDistinct k v [] h = (refl, tt)
  put-IsDistinct k v (e ∷ d) h =
      ground (
        arith,
        put-IsDistinct k v d h.1,
        holds-put e.0 k v d,
        key.same_iff k e.0,
        key.same_iff e.0 k,
      )

  pub find_of_not-holds : (k : K) (d : Table K V) → holds k d ≡ false → find k d ≡ none
  unfolding find holds
  find_of_not-holds k [] h = refl
  find_of_not-holds k (e ∷ d) h = ground (arith, find_of_not-holds k d)

  pub holds_of_find : (k : K) (v : V) (d : Table K V) → find k d ≡ some v → holds k d ≡ true
  unfolding find holds
  holds_of_find k v [] h = cc
  holds_of_find k v (e ∷ d) h = ground (arith, holds_of_find k v d)

  pub not-holds_of_none : (k : K) (d : Table K V) → find k d ≡ none → holds k d ≡ false
  unfolding find holds
  not-holds_of_none k [] h = refl
  not-holds_of_none k (e ∷ d) h = ground (arith, not-holds_of_none k d)

  pub find-drop_key :
      (j k : K) (d : Table K V)
      → IsDistinct d
      → find j (drop_key k d) ≡ (if key.same j k then none else find j d)
  unfolding find drop_key
  find-drop_key j k [] h = ground arith
  find-drop_key j k (e ∷ d) h = ground (
    arith,
    find-drop_key j k d h.1,
    find_of_not-holds e.0 d h.0,
    key.same_iff j k,
    key.same_iff k e.0,
    key.same_iff j e.0,
  )

  pub holds-drop_key-false :
      (j k : K) (d : Table K V) → holds j d ≡ false → holds j (drop_key k d) ≡ false
  unfolding holds drop_key
  holds-drop_key-false j k [] h = refl
  holds-drop_key-false j k (e ∷ d) h = ground (arith, holds-drop_key-false j k d)

  pub drop_key-IsDistinct : (k : K) (d : Table K V) → IsDistinct d → IsDistinct (drop_key k d)
  unfolding drop_key
  drop_key-IsDistinct k [] h = tt
  drop_key-IsDistinct k (e ∷ d) h =
      ground (arith, drop_key-IsDistinct k d h.1, holds-drop_key-false e.0 k d h.0)
