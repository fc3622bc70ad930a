-- ===== src/Floats.antt =====
-- Python's floats, which this development does not build: a type with the operations that the code
-- uses, and the laws of `<` between numbers (no value that is compared is a NaN). `ratio m n` is the
-- float that `m / n` gives, so also the literal of that value.
use jarvis_brain.Prelude.{
  ℕ, ◌+◌, ◌*◌, ◌/◌, ◌≡◌, Bool, false, ltb, if◌then◌else◌, nat_eq, string_eq, pair_eq, ltb_asym,
  ltb_mono, inl, inr, true, Bool-cases,
}

pub record Floats : Type 1 where
  pub Float : Type 0
  pub ratio : ℕ → ℕ → Float
  pub plus : Float → Float → Float
  pub times : Float → Float → Float
  pub over : Float → ℕ → Float
  pub round_to : ℕ → Float → Float
  pub less : Float → Float → Bool
  pub less_asym : (a b : Float) → less a b ≡ true → less b a ≡ false
  pub less_mono : (a b c : Float) → less a b ≡ false → less b c ≡ false → less a c ≡ false

module _ (fl : Floats) where
  open fl use {Float, less, less_asym}

  pub less_irrefl : (a : Float) → less a a ≡ false
  less_irrefl a = elim (Bool-cases (less a a)) [ inl h ↦ less_asym a a h | inr h ↦ h ]

  -- min(a, b) and max(a, b): the first argument unless the second is strictly better
  abbrev pub float_min : Float → Float → Float
  float_min a b = if less b a then b else a

  abbrev pub float_max : Float → Float → Float
  float_max a b = if less a b then b else a

-- An instance: the natural numbers, with whole quotients.
abbrev pub whole : Floats
whole = record {
  Float = ℕ;
  ratio = λ m n. m / n;
  plus = λ a b. a + b;
  times = λ a b. a * b;
  over = λ a n. a / n;
  round_to = λ n a. a;
  less = ltb;
  less_asym = ltb_asym;
  less_mono = ltb_mono;
}
