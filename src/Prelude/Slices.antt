-- ===== src/Prelude/Slices.antt =====
-- Laws of `drop` and of the slice `xs[-n:]`, which bounds logs and histories.
use Prim.Native.Nat.{ℕ, zero, suc, ◌+◌, ◌-◌, ◌≤◌}
use mathlib.Core.Path.{◌≡◌, refl, ◌∙◌, sym, ap}
use mathlib.Core.List.{List, [], ◌∷◌, ◌++◌}
use native.Mathlib.Omega.{arith}
use jarvis_brain.Prelude.Lists.{length, drop, last_n, length-append, length-last_n}

module _ {ℓ} {A : Type ℓ} where
  pub drop-append : (k : ℕ) (xs ys : List A) → k ≤ length xs → drop k (xs ++ ys) ≡ drop k xs ++ ys
  drop-append zero xs ys h = refl
  drop-append (suc k) [] ys h = absurd (omega arith)
  drop-append (suc k) (x ∷ xs) ys h = drop-append k xs ys (omega arith)

  pub drop_at : (a b : ℕ) (xs : List A) → a ≡ b → drop a xs ≡ drop b xs
  drop_at a b xs e = ap (λ n. drop n xs) e

  pub drop-nil : (n : ℕ) → drop {A = A} n [] ≡ []
  drop-nil zero = refl
  drop-nil (suc n) = refl

  pub drop-drop : (a b : ℕ) (xs : List A) → drop a (drop b xs) ≡ drop (b + a) xs
  drop-drop a zero xs = drop_at a (zero + a) xs (omega arith)
  drop-drop a (suc b) [] = drop-nil a ∙ sym (drop-nil (suc b + a))
  drop-drop a (suc b) (x ∷ xs) =
      drop-drop a b xs ∙ drop_at (suc (b + a)) (suc b + a) (x ∷ xs) (omega arith)

  pub last_n-short : (n : ℕ) (xs : List A) → length xs ≤ n → last_n n xs ≡ xs
  last_n-short n xs h = drop_at (length xs - n) 0 xs (omega arith)

  -- Trimming early loses nothing that a later trim would keep.
  pub last_n-last_n-append :
      (n : ℕ) (xs ys : List A) → last_n n (last_n n xs ++ ys) ≡ last_n n (xs ++ ys)
  last_n-last_n-append n xs ys =
      let k = length xs - n in
      ap (drop (length (last_n n xs ++ ys) - n)) (sym (drop-append k xs ys (omega arith)))
      ∙ drop-drop (length (last_n n xs ++ ys) - n) k (xs ++ ys)
      ∙ drop_at (k + (length (last_n n xs ++ ys) - n)) (length (xs ++ ys) - n) (xs ++ ys)
          (omega (arith, length-append (last_n n xs) ys, length-append xs ys, length-last_n n xs))
