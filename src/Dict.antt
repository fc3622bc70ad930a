-- ===== src/Dict.antt =====
-- Python's `dict`, as the list of its items in insertion order: an assignment to a key that is
-- there keeps its place, a new key goes to the end.
use jarvis_brain.Prelude.{
  Eq, Option, none, some, List, [], ◌∷◌, ◌≡◌, refl, arith, if◌then◌else◌, sym, ◌∙◌, ◌≢◌, ◌⊎◌, inl,
  inr, Bool-cases, Bool, true, false, not, ◌&&◌, ◌||◌, contains, nat_eq, string_eq, pair_eq,
}

abbrev pub Dict {ℓ κ} : Type ℓ → Type κ → Type (ℓ ⊔ κ)
Dict K V = List (K × V)

module _ {ℓ κ} {K : Type ℓ} {V : Type κ} where
  -- list(d.values())
  abbrev pub values : Dict K V → List V
  values [] = []
  values ((k, v) ∷ d) = v ∷ values d

  abbrev pub keys : Dict K V → List K
  keys [] = []
  keys ((k, v) ∷ d) = k ∷ keys d

module _ {ℓ κ} {K : Type ℓ} {V : Type κ} ⦃e : Eq K⦄ where
  -- d.get(k)
  unfoldable pub get : Dict K V → K → Option V
  get [] k = none
  get ((j, v) ∷ d) k = if e.beq j k then some v else get d k

  -- d[k] = v
  unfoldable pub put : Dict K V → K → V → Dict K V
  put [] k v = (k, v) ∷ []
  put ((j, w) ∷ d) k v = if e.beq j k then (j, v) ∷ d else (j, w) ∷ put d k v

  -- d.pop(k, None)
  unfoldable pub remove : Dict K V → K → Dict K V
  remove [] k = []
  remove ((j, w) ∷ d) k = let rest = remove d k in if e.beq j k then rest else (j, w) ∷ rest

  pub get-put :
      (d : Dict K V) (k j : K) (v : V) → get (put d k v) j ≡ (if e.beq k j then some v else get d j)
  unfolding get put
  get-put [] k j v = refl
  get-put ((i, w) ∷ d) k j v =
      ground (arith, get-put d k j v, e.beq_iff i k, e.beq_iff i j, e.beq_iff k j)

  pub get-remove :
      (d : Dict K V) (k j : K) → get (remove d k) j ≡ (if e.beq k j then none else get d j)
  unfolding get remove
  get-remove [] k j = ground arith
  get-remove ((i, w) ∷ d) k j =
      ground (arith, get-remove d k j, e.beq_iff i k, e.beq_iff i j, e.beq_iff k j)

pub ruleset dict_laws = (get-put, get-remove)

module _ {ℓ κ} {K : Type ℓ} {V : Type κ} ⦃e : Eq K⦄ (d : Dict K V) (k j : K) where
  pub get-put_self : (v : V) → get (put d k v) k ≡ some v
  get-put_self v = get-put d k k v ∙ ground (arith, (e.beq_iff k k).1 refl)

  pub get-put_ne : (v : V) → k ≢ j → get (put d k v) j ≡ get d j
  get-put_ne v n = get-put d k j v ∙ ground (arith, e.beq_iff k j, n)

  -- What stands at a key after an assignment, and after a removal.
  pub get-put_cases :
      (v w : V) → get (put d k v) j ≡ some w → ((k ≡ j) × (v ≡ w)) ⊎ ((k ≢ j) × (get d j ≡ some w))
  get-put_cases v w h = elim (Bool-cases (e.beq k j)) [
    | inl same ↦ inl ((e.beq_iff k j).0 same, ground (arith, sym (get-put d k j v) ∙ h, same))
    | inr other ↦ inr (
      (λ p. absurd (ground (arith, (e.beq_iff k j).1 p, other))),
      ground (arith, sym (get-put d k j v) ∙ h, other),
    )
  ]

  pub get-remove-some : (w : V) → get (remove d k) j ≡ some w → (k ≢ j) × (get d j ≡ some w)
  get-remove-some w h = elim (Bool-cases (e.beq k j)) [
    | inl same ↦ absurd (ground (arith, sym (get-remove d k j) ∙ h, same))
    | inr other ↦ (
      (λ p. absurd (ground (arith, (e.beq_iff k j).1 p, other))),
      ground (arith, sym (get-remove d k j) ∙ h, other),
    )
  ]

  pub get-remove_ne : k ≢ j → get (remove d k) j ≡ get d j
  get-remove_ne n = get-remove d k j ∙ ground (arith, e.beq_iff k j, n)

module _ {ℓ κ} {K : Type ℓ} {V : Type κ} ⦃e : Eq K⦄ where
  -- k in d
  abbrev pub has : Dict K V → K → Bool
  has d k = contains (keys d) k

  pub has-put : (d : Dict K V) (k j : K) (v : V) → has (put d k v) j ≡ (e.beq k j || has d j)
  unfolding put contains
  has-put [] k j v = refl
  has-put ((i, w) ∷ d) k j v =
      ground (arith, has-put d k j v, e.beq_iff i k, e.beq_iff i j, e.beq_iff k j)

  pub has-remove : (d : Dict K V) (k j : K) → has (remove d k) j ≡ (not (e.beq k j) && has d j)
  unfolding remove contains
  has-remove [] k j = ground arith
  has-remove ((i, w) ∷ d) k j =
      ground (arith, has-remove d k j, e.beq_iff i k, e.beq_iff i j, e.beq_iff k j)

  -- A key is there exactly if something stands at it.
  pub has-get : (d : Dict K V) (k : K) → has d k ≡ (elim (get d k) [ none ↦ false | some v ↦ true ])
  unfolding get contains
  has-get [] k = refl
  has-get ((i, w) ∷ d) k = ground (arith, has-get d k)
