-- ===== src/Prelude/Members.antt =====
-- The tests over lists against membership.
use mathlib.Core.Path.{◌≡◌, refl, sym, subst, ap}
use mathlib.Core.Logic.{inl, inr}
use mathlib.Core.Logic.Or
use mathlib.Core.Logic.{∥∥₁_prop}
use mathlib.Core.HLevel.{×_prop}
use mathlib.Core.Bool.{Bool, true, false, not, ◌&&◌}
use mathlib.Core.Option.{Option, none, some}
use mathlib.Core.List.{
  List, [], ◌∷◌, ◌++◌, Mem, mem-cons, mem-cons_self, mem-cons_of_mem, not-mem-nil,
}
use native.Mathlib.Omega.{arith}
use jarvis_brain.Prelude.Tests.{if◌then◌else◌, Bool-cases, if-elim}
use jarvis_brain.Prelude.Equality.{Eq}
use jarvis_brain.Prelude.Lists.{unique, unique_from, All, all, keep, contains}

pub append-eq-nil {ℓ} : {A : Type ℓ} (xs ys : List A) → xs ++ ys ≡ [] → (xs ≡ []) × (ys ≡ [])
append-eq-nil [] ys e = (refl, e)
append-eq-nil (x ∷ xs) ys e = absurd (ground (arith, e))

pub holds-prop : (b : Bool) → IsProp (b ≡ true)
holds-prop b = hlevel

module _ {ℓ} {A : Type ℓ} where
  -- next(x for x in xs if test(x)), where `none` is `StopIteration`
  unfoldable pub find : (A → Bool) → List A → Option A
  find test [] = none
  find test (x ∷ xs) = if test x then some x else find test xs

  pub all-Mem :
      (test : A → Bool) (xs : List A) → all test xs ≡ true → (x : A) → Mem x xs → test x ≡ true
  unfolding all
  all-Mem test [] h x m = absurd (not-mem-nil m)
  all-Mem test (y ∷ xs) h x m =
      Or.elim (holds-prop (test x)) (mem-cons.0 m)
        (λ e. subst (λ z. test z ≡ true) (sym e) (ground (arith, h)))
        (λ rest. all-Mem test xs (ground (arith, h)) x rest)

  pub all_intro :
      (test : A → Bool) (xs : List A) → ((x : A) → Mem x xs → test x ≡ true) → all test xs ≡ true
  unfolding all
  all_intro test [] h = refl
  all_intro test (y ∷ xs) h =
      ground (arith, h y mem-cons_self, all_intro test xs (λ x m. h x (mem-cons_of_mem y m)))

  pub All-Mem {κ} :
      {P : A → Type κ}
      → ((x : A) → IsProp (P x))
      → (xs : List A) → All P xs
      → (x : A) → Mem x xs
      → P x
  All-Mem prop [] h x m = absurd (not-mem-nil m)
  All-Mem {P = P} prop (y ∷ xs) h x m =
      Or.elim (prop x) (mem-cons.0 m) (λ e. subst P (sym e) h.0)
        (λ rest. All-Mem prop xs h.1 x rest)

  pub All-append {κ} : (P : A → Type κ) (xs ys : List A) → All P xs → All P ys → All P (xs ++ ys)
  All-append P [] ys h k = k
  All-append P (x ∷ xs) ys h k = (h.0, All-append P xs ys h.1 k)

  pub find-Mem :
      (test : A → Bool) (xs : List A) {x : A} → find test xs ≡ some x → Mem x xs × (test x ≡ true)
  unfolding find
  find-Mem test [] e = absurd (ground arith)
  find-Mem test (y ∷ xs) {x} e = elim (Bool-cases (test y)) [
    | inl hit ↦
        let same : y ≡ x = ground arith in
        (subst (λ z. Mem z (y ∷ xs)) same mem-cons_self, subst (λ z. test z ≡ true) same hit)
    | inr miss ↦ let (m, h) = find-Mem test xs (ground (arith, e, miss)) in (mem-cons_of_mem y m, h)
  ]

  pub keep-Mem :
      (test : A → Bool) (xs : List A) (x : A) → Mem x (keep test xs) → Mem x xs × (test x ≡ true)
  unfolding keep
  keep-Mem test [] x m = absurd (not-mem-nil m)
  keep-Mem test (y ∷ xs) x m = elim (Bool-cases (test y)) [
    | inl hit ↦
        Or.elim (×_prop ∥∥₁_prop (holds-prop (test x)))
          (mem-cons.0 (subst (λ b. Mem x (if b then y ∷ keep test xs else keep test xs)) hit m))
          (λ e. (
            subst (λ z. Mem z (y ∷ xs)) (sym e) mem-cons_self,
            subst (λ z. test z ≡ true) (sym e) hit,
          ))
          (λ rest. let (n, h) = keep-Mem test xs x rest in (mem-cons_of_mem y n, h))
    | inr miss ↦
        let (n, h) =
          keep-Mem test xs x
            (subst (λ b. Mem x (if b then y ∷ keep test xs else keep test xs)) miss m) in
        (mem-cons_of_mem y n, h)
  ]

  pub mem_keep :
      (test : A → Bool) (xs : List A) (x : A) → Mem x xs → test x ≡ true → Mem x (keep test xs)
  unfolding keep
  mem_keep test [] x m h = absurd (not-mem-nil m)
  mem_keep test (y ∷ xs) x m h =
      Or.elim ∥∥₁_prop (mem-cons.0 m)
        (λ e.
          rw (subst (λ z. test z ≡ true) e h)
            (subst (λ z. Mem x (z ∷ keep test xs)) e mem-cons_self))
        (λ rest.
          if-elim (Mem x) (test y) (y ∷ keep test xs) (keep test xs)
            (λ hit. mem-cons_of_mem y (mem_keep test xs x rest h))
            (λ miss. mem_keep test xs x rest h))

  pub mem_second : (x m other : A) (rest : List A) → Mem x (m ∷ rest) → Mem x (m ∷ other ∷ rest)
  mem_second x m other rest h =
      Or.elim ∥∥₁_prop (mem-cons.0 h) (λ e. subst (λ z. Mem x (z ∷ other ∷ rest)) e mem-cons_self)
        (λ later. mem-cons_of_mem m (mem-cons_of_mem other later))

module _ {ℓ} {A : Type ℓ} ⦃e : Eq A⦄ where
  pub contains-Mem : (xs : List A) (a : A) → contains xs a ≡ true → Mem a xs
  unfolding contains
  contains-Mem [] a h = absurd (ground arith)
  contains-Mem (x ∷ xs) a h = elim (Bool-cases (e.beq x a)) [
    | inl hit ↦ subst (λ z. Mem z (x ∷ xs)) ((e.beq_iff x a).0 hit) mem-cons_self
    | inr miss ↦ mem-cons_of_mem x (contains-Mem xs a (ground arith))
  ]

  pub contains_of_Mem : (xs : List A) (a : A) → Mem a xs → contains xs a ≡ true
  unfolding contains
  contains_of_Mem [] a m = absurd (not-mem-nil m)
  contains_of_Mem (x ∷ xs) a m =
      Or.elim (holds-prop (contains (x ∷ xs) a)) (mem-cons.0 m)
        (λ same. ground (arith, (e.beq_iff x a).1 (sym same)))
        (λ rest. ground (arith, contains_of_Mem xs a rest))

  pub contains-keep :
      (test : A → Bool) (xs : List A) (a : A)
      → contains (keep test xs) a ≡ (contains xs a && test a)
  unfolding contains keep
  contains-keep test [] a = refl
  contains-keep test (x ∷ xs) a = elim (Bool-cases (e.beq x a)) [
    | inl same ↦
        let at = ap test ((e.beq_iff x a).0 same) in
        ground (arith, contains-keep test xs a, same, at)
    | inr other ↦ ground (arith, contains-keep test xs a, other)
  ]

  pub contains-unique_from_eq :
      (seen xs : List A) (a : A)
      → contains (unique_from seen xs) a ≡ (contains xs a && not (contains seen a))
  unfolding contains unique_from
  contains-unique_from_eq seen [] a = refl
  contains-unique_from_eq seen (x ∷ xs) a = elim (Bool-cases (e.beq x a)) [
    | inl same ↦
        let at = ap (contains seen) ((e.beq_iff x a).0 same) in
        ground (
          arith,
          contains-unique_from_eq seen xs a,
          contains-unique_from_eq (x ∷ seen) xs a,
          same,
          at,
        )
    | inr other ↦
        ground
          (arith, contains-unique_from_eq seen xs a, contains-unique_from_eq (x ∷ seen) xs a, other)
  ]

  -- A list without members is empty.
  pub none-contained : (xs : List A) → ((a : A) → contains xs a ≡ false) → xs ≡ []
  unfolding contains
  none-contained [] h = refl
  none-contained (x ∷ xs) h = absurd (ground (arith, h x, (e.beq_iff x x).1 refl))

  pub unique-eq-nil : (xs : List A) → unique xs ≡ [] → xs ≡ []
  unfolding unique_from contains
  unique-eq-nil [] h = refl
  unique-eq-nil (x ∷ xs) h = absurd (ground arith)

  -- `dict.fromkeys` loses no member.
  pub contains-unique_from :
      (seen xs : List A) (a : A)
      → contains seen a ≡ false
      → contains xs a ≡ true
      → contains (unique_from seen xs) a ≡ true
  unfolding contains unique_from
  contains-unique_from seen [] a new h = absurd (ground arith)
  contains-unique_from seen (x ∷ xs) a new h = elim (Bool-cases (e.beq x a)) [
    | inl same ↦
        let at : x ≡ a = (e.beq_iff x a).0 same in ground (arith, new, same, ap (contains seen) at)
    | inr other ↦
        let later =
          contains-unique_from (x ∷ seen) xs a (ground (arith, new, other))
            (ground (arith, h, other)) in
        let skipped = contains-unique_from seen xs a new (ground (arith, h, other)) in
        ground (arith, later, skipped, other)
  ]
