-- ===== src/Llm/Router/Rounds/Counted.antt =====
-- The order and the number of the requests that a run sends (src/jarvis_brain/llm/intelligence_router.py).
use jarvis_brain.Prelude.{
  ℕ, zero, suc, ◌≤◌, ◌<◌, ◌≡◌, true, false, Bool, Option, none, some, List, [], ◌∷◌, ◌++◌,
}

-- A value `n` times.
unfoldable pub times {ℓ} : {A : Type ℓ} → ℕ → A → List A
times zero x = []
times (suc n) x = x ∷ times n x

abbrev pub listed {ℓ} : {A : Type ℓ} → Option A → List A
listed none = []
listed (some x) = x ∷ []

-- What a run over the values of a list asks, in order: nothing of a value that is not there, `limit`
-- times one that is there and gives no answer, and at most as often, but once, the one that gives the
-- answer, behind which nothing is asked.
pub data AreRounds {A : Type 0} (is_there : A → Bool) (limit : ℕ) : List A → List A → Type 0 where
  exhausted : AreRounds is_there limit [] []
  absent :
      (x : A) (xs found : List A)
      → is_there x ≡ false
      → AreRounds is_there limit xs found
      → AreRounds is_there limit (x ∷ xs) found
  failing :
      (x : A) (xs found later : List A)
      → is_there x ≡ true
      → found ≡ times limit x ++ later
      → AreRounds is_there limit xs later
      → AreRounds is_there limit (x ∷ xs) found
  answering :
      (x : A) (xs found : List A) (n : ℕ)
      → is_there x ≡ true
      → 0 < n
      → n ≤ limit
      → found ≡ times n x
      → AreRounds is_there limit (x ∷ xs) found
