-- ===== src/Llm/ModelRouter/Words.antt =====
-- What the search for a keyword finds
-- (src/jarvis_brain/llm/llm_model_router.py, `_contains_keyword`).
use Prim.Native.Char.{Char, code}
use Prim.Native.String.{◌++◌ as concat}
use text.Mathlib.TextEquality.{Char-path}
use text.Mathlib.TextLemmas.{
  nil-append, cons-append, head-eq_of_cons-eq, tail-eq_of_cons-eq, nil≢cons,
}
use jarvis_brain.Llm.ModelRouter.{starts_word, matches_word, search_from, contains_keyword}
use jarvis_brain.Prelude.{
  String, ◌≡◌, refl, sym, ap, ◌∙◌, subst, ◌↔◌, inl, inr, Bool, true, false, not, ◌&&◌, arith,
  nat_beq_iff, Bool-cases, nat_eq, string_eq, pair_eq,
}

module _ (is_word : Char → Bool) where
  -- Whether a text ends in a character of a word; `before` is that of the text before it.
  unfoldable pub ends_word : Bool → String → Bool
  ends_word before String.[] = before
  ends_word before (String.◌∷◌ c s) = ends_word (is_word c) s

  -- The keyword stands in the text, with no character of a word on either side.
  abbrev pub IsWordOf : Bool → String → String → Type 0
  IsWordOf before keyword text =
      (front : String) × ((behind : String) × ((text ≡ concat front (concat keyword behind))
          × ((ends_word before front ≡ false) × (starts_word is_word behind ≡ false))))

  matched :
      (text keyword : String)
      → matches_word is_word text keyword ≡ true
      → (behind : String) × ((text ≡ concat keyword behind) × (starts_word is_word behind ≡ false))
  unfolding matches_word
  matched text String.[] h = (text, (sym (nil-append text), ground (arith, h)))
  matched String.[] (String.◌∷◌ k keyword) h = absurd (ground (arith, h))
  matched (String.◌∷◌ c text) (String.◌∷◌ k keyword) h =
      let (behind, (e, free)) = matched text keyword (ground (arith, h)) in
      (
        behind,
        (
          ap (λ x. String.◌∷◌ c x) e
              ∙ ap (λ x. String.◌∷◌ x (concat keyword behind))
                  (Char-path c k ((nat_beq_iff (code c) (code k)).0 (ground (arith, h))))
              ∙ sym (cons-append k keyword behind),
          free,
        ),
      )

  matches :
      (keyword behind : String)
      → starts_word is_word behind ≡ false
      → matches_word is_word (concat keyword behind) keyword ≡ true
  unfolding matches_word
  matches String.[] behind free = rw nil-append (ground (arith, free))
  matches (String.◌∷◌ k keyword) behind free =
      rw cons-append
        (ground (arith, matches keyword behind free, (nat_beq_iff (code k) (code k)).1 refl))

  found_here :
      (before : Bool) (text keyword : String)
      → before ≡ false
      → matches_word is_word text keyword ≡ true
      → search_from is_word before text keyword ≡ true
  unfolding search_from
  found_here before String.[] keyword start here = ground (arith, start, here)
  found_here before (String.◌∷◌ c text) keyword start here = ground (arith, start, here)

  at_start :
      (before : Bool) (text keyword : String)
      → before ≡ false
      → matches_word is_word text keyword ≡ true
      → IsWordOf before keyword text
  unfolding ends_word
  at_start before text keyword start here =
      let (behind, (e, free)) = matched text keyword here in
      ("", (behind, (e ∙ sym (nil-append (concat keyword behind)), (start, free))))

  found :
      (before : Bool) (text keyword : String)
      → search_from is_word before text keyword ≡ true
      → IsWordOf before keyword text
  unfolding search_from ends_word
  found before String.[] keyword h =
      at_start before "" keyword (ground (arith, h)) (ground (arith, h))
  found before (String.◌∷◌ c text) keyword h =
      elim (Bool-cases (not before && matches_word is_word (String.◌∷◌ c text) keyword)) [
        | inl here ↦
            at_start before (String.◌∷◌ c text) keyword (ground (arith, here))
              (ground (arith, here))
        | inr further ↦
            let (front, (behind, (e, (edge, free)))) =
              found (is_word c) text keyword (ground (arith, h, further)) in
            (
              String.◌∷◌ c front,
              (
                behind,
                (
                  ap (λ x. String.◌∷◌ c x) e ∙ sym (cons-append c front (concat keyword behind)),
                  (edge, free),
                ),
              ),
            )
      ]

  finds :
      (before : Bool) (text keyword front behind : String)
      → text ≡ concat front (concat keyword behind)
      → ends_word before front ≡ false
      → starts_word is_word behind ≡ false
      → search_from is_word before text keyword ≡ true
  unfolding search_from ends_word
  finds before text keyword String.[] behind e edge free = found_here before text keyword edge (
      subst (λ x. matches_word is_word x keyword ≡ true)
        (sym (e ∙ nil-append (concat keyword behind))) (matches keyword behind free))
  finds before String.[] keyword (String.◌∷◌ d front) behind e edge free =
      absurd (nil≢cons (e ∙ cons-append d front (concat keyword behind)))
  finds before (String.◌∷◌ c text) keyword (String.◌∷◌ d front) behind e edge free =
      let split = e ∙ cons-append d front (concat keyword behind) in
      let later =
        finds (is_word c) text keyword front behind (tail-eq_of_cons-eq split)
          (subst (λ x. ends_word (is_word x) front ≡ false) (sym (head-eq_of_cons-eq split)) edge)
          free in
      ground (arith, later)

  -- A keyword is found in a text exactly if the text has it somewhere as a word of its own: no character
  -- of a word stands right before it or right behind it, as a boundary of the regular expression asks.
  pub contains_keyword_iff :
      (text keyword : String)
      → (contains_keyword is_word text keyword ≡ true) ↔ IsWordOf false keyword text
  contains_keyword_iff text keyword = (
    found false text keyword,
    λ (front, (behind, (e, (edge, free)))). finds false text keyword front behind e edge free,
  )
