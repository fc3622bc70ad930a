-- ===== src/Conversation/Sessions/Recency.antt =====
-- Uses and evictions on lists of keys: what the eviction of the oldest keeps
-- (src/jarvis_brain/conversation/manager.py).
use jarvis_brain.Dict.{Dict, remove, keys}
use jarvis_brain.Conversation.Sessions.{evict}
use jarvis_brain.Prelude.{
  ℕ, suc, ◌+◌, ◌≤◌, ◌≡◌, refl, sym, ap, ◌∙◌, subst, inl, inr, true, false, ◌||◌, List, [], ◌∷◌,
  ◌++◌, arith, ltb, if◌then◌else◌, Bool-cases, Eq, nat_eq, string_eq, pair_eq, length,
  length-append, contains, if-elim,
}

module _ {ℓ} {A : Type ℓ} ⦃e : Eq A⦄ where
  unfoldable pub without : A → List A → List A
  without k [] = []
  without k (x ∷ xs) = let rest = without k xs in if e.beq x k then rest else x ∷ rest

  -- `k` becomes the most recent.
  abbrev pub use_key : A → List A → List A
  use_key k xs = without k xs ++ k ∷ []

  -- No two places of the list are equal.
  abbrev pub Distinct : List A → Type 0
  Distinct [] = Unit
  Distinct (x ∷ xs) = (contains xs x ≡ false) × Distinct xs

  without-absent : (k : A) (xs : List A) → contains xs k ≡ false → without k xs ≡ xs
  unfolding without contains
  without-absent k [] h = refl
  without-absent k (x ∷ xs) h = ground (arith, h, without-absent k xs)

  -- Of distinct members at most one goes.
  length-without : (k : A) (xs : List A) → Distinct xs → length xs ≤ length (without k xs) + 1
  unfolding without contains
  length-without k [] d = omega arith
  length-without k (x ∷ xs) d = elim (Bool-cases (e.beq x k)) [
    | inl same ↦ ground (
      arith,
      same,
      ap length
          (without-absent k xs (subst (λ z. contains xs z ≡ false) ((e.beq_iff x k).0 same) d.0)),
    )
    | inr other ↦ ground (arith, other, length-without k xs d.1)
  ]

  contains-without :
      (k a : A) (xs : List A) → contains xs a ≡ false → contains (without k xs) a ≡ false
  unfolding without contains
  contains-without k a [] h = refl
  contains-without k a (x ∷ xs) h = ground (arith, h, contains-without k a xs)

  pub without_self : (k : A) (xs : List A) → contains (without k xs) k ≡ false
  unfolding without contains
  without_self k [] = refl
  without_self k (x ∷ xs) = ground (arith, without_self k xs)

  contains-snoc : (a k : A) (xs : List A) → contains (xs ++ k ∷ []) a ≡ (contains xs a || e.beq k a)
  unfolding contains
  contains-snoc a k [] = ground arith
  contains-snoc a k (x ∷ xs) = ground (arith, contains-snoc a k xs)

  pub evict_long :
      (m : ℕ) (x : A) (xs : List A) → ltb m (length (x ∷ xs)) ≡ true → evict m (x ∷ xs) ≡ evict m xs
  unfolding evict
  evict_long m x xs h = rw h refl

  pub evict_short :
      (m : ℕ) (x : A) (xs : List A) → ltb m (length (x ∷ xs)) ≡ false → evict m (x ∷ xs) ≡ x ∷ xs
  unfolding evict
  evict_short m x xs h = rw h refl

  -- What a use leaves after an eviction does not depend on the members that had been evicted before.
  drop_oldest :
      (m : ℕ) (k x : A) (xs : List A)
      → Distinct (x ∷ xs)
      → ltb m (length (x ∷ xs)) ≡ true
      → evict m (use_key k (x ∷ xs)) ≡ evict m (use_key k xs)
  unfolding without
  drop_oldest m k x xs d long = elim (Bool-cases (e.beq x k)) [
    | inl same ↦ rw same refl
    | inr other ↦ rw other (
        evict_long m x (use_key k xs)
          (ground (arith, long, length-without k xs d.1, length-append (without k xs) (k ∷ []))))
  ]

  pub evict-use_key :
      (m : ℕ) (k : A) (xs : List A)
      → Distinct xs
      → evict m (use_key k (evict m xs)) ≡ evict m (use_key k xs)
  unfolding evict
  evict-use_key m k [] d = refl
  evict-use_key m k (x ∷ xs) d = elim (Bool-cases (ltb m (length (x ∷ xs)))) [
    | inl long ↦
        ap (λ r. evict m (use_key k r)) (evict_long m x xs long)
        ∙ evict-use_key m k xs d.1
        ∙ sym (drop_oldest m k x xs d long)
    | inr short ↦ ap (λ r. evict m (use_key k r)) (evict_short m x xs short)
  ]

  pub without-Distinct : (k : A) (xs : List A) → Distinct xs → Distinct (without k xs)
  unfolding without
  without-Distinct k [] d = tt
  without-Distinct k (x ∷ xs) d =
      if-elim Distinct (e.beq x k) (without k xs) (x ∷ without k xs)
        (λ same. without-Distinct k xs d.1)
        (λ other. (contains-without k x xs d.0, without-Distinct k xs d.1))

  pub snoc-Distinct :
      (k : A) (xs : List A) → contains xs k ≡ false → Distinct xs → Distinct (xs ++ k ∷ [])
  unfolding contains
  snoc-Distinct k [] absent d = (refl, tt)
  snoc-Distinct k (x ∷ xs) absent d = (
    ground (arith, d.0, absent, contains-snoc x k xs, e.beq_iff x k, e.beq_iff k x),
    snoc-Distinct k xs (ground (arith, absent)) d.1,
  )

  -- The members of a history of uses, the last used at the end.
  unfoldable pub by_last_use : List A → List A → List A
  by_last_use before [] = before
  by_last_use before (k ∷ later) = by_last_use (use_key k before) later

module _ {ℓ κ} {K : Type ℓ} {V : Type κ} ⦃e : Eq K⦄ where
  pub keys-remove : (d : Dict K V) (k : K) → keys (remove d k) ≡ without k (keys d)
  unfolding remove without
  keys-remove [] k = refl
  keys-remove ((j, w) ∷ d) k =
      if-elim
        (λ (r : Dict K V).
          keys r ≡ (if e.beq j k then without k (keys d) else j ∷ without k (keys d)))
        (e.beq j k) (remove d k) ((j, w) ∷ remove d k) (λ same. rw same (keys-remove d k))
        (λ other. rw other (ap (λ r. j ∷ r) (keys-remove d k)))

  pub keys-snoc : (d : Dict K V) (k : K) (v : V) → keys (d ++ (k, v) ∷ []) ≡ keys d ++ k ∷ []
  keys-snoc [] k v = refl
  keys-snoc ((j, w) ∷ d) k v = ap (λ r. j ∷ r) (keys-snoc d k v)

  length-keys : (d : Dict K V) → length (keys d) ≡ length d
  length-keys [] = refl
  length-keys ((j, w) ∷ d) = ap suc (length-keys d)

  pub keys-evict : (m : ℕ) (d : Dict K V) → keys (evict m d) ≡ evict m (keys d)
  unfolding evict
  keys-evict m [] = refl
  keys-evict m ((j, w) ∷ d) = rw (length-keys d) (
      if-elim
        (λ (r : Dict K V).
          keys r ≡ (if ltb m (suc (length d)) then evict m (keys d) else j ∷ keys d))
        (ltb m (suc (length d))) (evict m d) ((j, w) ∷ d) (λ long. rw long (keys-evict m d))
        (λ short. rw short refl))
