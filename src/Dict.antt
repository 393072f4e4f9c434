-- ===== src/Dict.antt =====
-- A Python dict with `str` keys, as its entries in insertion order.
use echocoin_core.Prelude.{
  ◌≡◌, ◌∙◌, refl, text_eq_refl, Bool, true, false, Option, none, some, List, [], ◌∷◌, arith, Text,
  text_eq, text_eq_iff, if◌then◌else◌, ℤ, pos, ◌+ℤ◌, int_laws, ◌≤◌, suc, length, Bool-cases, inl,
  inr,
}

abbrev pub Dict {ℓ} : Type ℓ → Type ℓ
Dict V = List (Text × V)

module _ {ℓ} {V : Type ℓ} where
  -- `d.get(k)`
  unfoldable pub get : Text → Dict V → Option V
  get k [] = none
  get k (e ∷ d) = if text_eq k e.0 then some e.1 else get k d

  -- `d.get(k, v)`
  unfoldable pub get_or : Text → V → Dict V → V
  get_or k v [] = v
  get_or k v (e ∷ d) = if text_eq k e.0 then e.1 else get_or k v d

  -- `k in d`
  unfoldable pub contains : Text → Dict V → Bool
  contains k [] = false
  contains k (e ∷ d) = if text_eq k e.0 then true else contains k d

  -- `d[k] = v`
  unfoldable pub set : Text → V → Dict V → Dict V
  set k v [] = (k, v) ∷ []
  set k v (e ∷ d) = if text_eq k e.0 then (k, v) ∷ d else e ∷ set k v d

  -- `d.pop(k, None)`
  unfoldable pub pop : Text → Dict V → Dict V
  pop k [] = []
  pop k (e ∷ d) = if text_eq k e.0 then d else e ∷ pop k d

  pub get_or-set :
      (j k : Text) (u v : V) (d : Dict V)
      → get_or j u (set k v d) ≡ (if text_eq j k then v else get_or j u d)
  unfolding get_or set
  get_or-set j k u v [] = refl
  get_or-set j k u v (e ∷ d) =
      ground (arith, get_or-set j k u v d, text_eq_iff j k, text_eq_iff k e.0, text_eq_iff j e.0)

  pub get-set :
      (j k : Text) (v : V) (d : Dict V)
      → get j (set k v d) ≡ (if text_eq j k then some v else get j d)
  unfolding get set
  get-set j k v [] = refl
  get-set j k v (e ∷ d) =
      ground (arith, get-set j k v d, text_eq_iff j k, text_eq_iff k e.0, text_eq_iff j e.0)

  pub get-set_same : (k : Text) (v : V) (d : Dict V) → get k (set k v d) ≡ some v
  get-set_same k v d = get-set k k v d ∙ rw (text_eq_refl k) refl

  pub contains-set :
      (j k : Text) (v : V) (d : Dict V)
      → contains j (set k v d) ≡ (if text_eq j k then true else contains j d)
  unfolding contains set
  contains-set j k v [] = refl
  contains-set j k v (e ∷ d) =
      ground (arith, contains-set j k v d, text_eq_iff j k, text_eq_iff k e.0, text_eq_iff j e.0)

  -- No key is listed twice.
  abbrev pub Distinct : Dict V → Type 0
  Distinct [] = Unit
  Distinct (e ∷ d) = (contains e.0 d ≡ false) × Distinct d

  pub set-Distinct : (k : Text) (v : V) (d : Dict V) → Distinct d → Distinct (set k v d)
  unfolding set contains
  set-Distinct k v [] h = (refl, tt)
  set-Distinct k v (e ∷ d) h =
      ground (
        arith,
        set-Distinct k v d h.1,
        contains-set e.0 k v d,
        text_eq_iff k e.0,
        text_eq_iff e.0 k,
      )

  pub length-set_new :
      (k : Text) (v : V) (d : Dict V) → contains k d ≡ false → length (set k v d) ≡ suc (length d)
  unfolding set contains
  length-set_new k v [] h = refl
  length-set_new k v (e ∷ d) h = ground (arith, length-set_new k v d)

  pub length-set_old :
      (k : Text) (v : V) (d : Dict V) → contains k d ≡ true → length (set k v d) ≡ length d
  unfolding set contains
  length-set_old k v [] h = ground arith
  length-set_old k v (e ∷ d) h = ground (arith, length-set_old k v d)

module _ {ℓ} {V : Type ℓ} where
  pub get_of_not-contains : (k : Text) (d : Dict V) → contains k d ≡ false → get k d ≡ none
  unfolding get contains
  get_of_not-contains k [] h = refl
  get_of_not-contains k (e ∷ d) h = ground (arith, get_of_not-contains k d)

  pub contains_of_get : (k : Text) (v : V) (d : Dict V) → get k d ≡ some v → contains k d ≡ true
  unfolding get contains
  contains_of_get k v [] h = cc
  contains_of_get k v (e ∷ d) h = ground (arith, contains_of_get k v d)

  pub not-contains_of_none : (k : Text) (d : Dict V) → get k d ≡ none → contains k d ≡ false
  unfolding get contains
  not-contains_of_none k [] h = refl
  not-contains_of_none k (e ∷ d) h = ground (arith, not-contains_of_none k d)

  pub contains-pop-false :
      (j k : Text) (d : Dict V) → contains j d ≡ false → contains j (pop k d) ≡ false
  unfolding contains pop
  contains-pop-false j k [] h = refl
  contains-pop-false j k (e ∷ d) h = ground (arith, contains-pop-false j k d)

  pub pop-Distinct : (k : Text) (d : Dict V) → Distinct d → Distinct (pop k d)
  unfolding pop
  pop-Distinct k [] h = tt
  pop-Distinct k (e ∷ d) h = ground (arith, pop-Distinct k d h.1, contains-pop-false e.0 k d h.0)

  pub contains-pop :
      (j k : Text) (d : Dict V)
      → Distinct d
      → contains j (pop k d) ≡ (if text_eq j k then false else contains j d)
  unfolding contains pop
  contains-pop j k [] h = ground arith
  contains-pop j k (e ∷ d) h =
      ground
        (arith, contains-pop j k d h.1, h.0, text_eq_iff j k, text_eq_iff k e.0, text_eq_iff j e.0)

  pub length-pop : (k : Text) (d : Dict V) → length (pop k d) ≤ length d
  unfolding pop
  length-pop k [] = omega arith
  length-pop k (e ∷ d) = ground (arith, length-pop k d)

  pub get-pop :
      (j k : Text) (d : Dict V)
      → Distinct d
      → get j (pop k d) ≡ (if text_eq j k then none else get j d)
  unfolding get pop
  get-pop j k [] h = ground arith
  get-pop j k (e ∷ d) h = ground (
    arith,
    get-pop j k d h.1,
    get_of_not-contains e.0 d h.0,
    text_eq_iff j k,
    text_eq_iff k e.0,
    text_eq_iff j e.0,
  )

-- Every value of a dict of integers.
abbrev pub AllValues : (ℤ → Type 0) → Dict ℤ → Type 0
AllValues P [] = Unit
AllValues P (e ∷ d) = P e.1 × AllValues P d

-- `sum(d.values())`
unfoldable pub sum_values : Dict ℤ → ℤ
sum_values [] = pos 0
sum_values (e ∷ d) = e.1 +ℤ sum_values d

-- Writing a key moves the sum by what the key gains.
pub sum_values-set :
    (k : Text) (v : ℤ) (d : Dict ℤ)
    → sum_values (set k v d) +ℤ get_or k (pos 0) d ≡ sum_values d +ℤ v
unfolding sum_values set get_or
sum_values-set k v [] = omega int_laws
sum_values-set k v (e ∷ d) = grind (int_laws, sum_values-set k v d)

pub set-AllValues :
    (P : ℤ → Type 0) (k : Text) (v : ℤ) (d : Dict ℤ) → P v → AllValues P d → AllValues P (set k v d)
unfolding set
set-AllValues P k v [] p h = (p, tt)
set-AllValues P k v (e ∷ d) p h = elim (Bool-cases (text_eq k e.0)) [
  | inl same ↦ rw same (p, h.1)
  | inr other ↦ rw other (h.0, set-AllValues P k v d p h.1)
]
