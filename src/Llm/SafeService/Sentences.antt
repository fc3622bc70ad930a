-- ===== src/Llm/SafeService/Sentences.antt =====
-- The split of streamed text into sentences
-- (src/jarvis_brain/llm/safe_llm_service.py, `_complete_sentences`).
use Prim.Native.Char.{Char, code}
use Prim.Native.String.{◌++◌ as concat}
use text.Mathlib.TextLemmas.{nil-append, cons-append, append-nil, append_assoc}
use jarvis_brain.Text.{is_space, lstrip, rstrip, strip}
use jarvis_brain.Prelude.{
  String, ◌≡◌, refl, sym, ap, ◌∙◌, inl, inr, Bool, true, ◌&&◌, List, [], ◌∷◌, arith, if◌then◌else◌,
  Bool-cases, ◌==◌, nat_eq, string_eq, pair_eq, contains, if-elim,
}

-- character in ".!?"
abbrev pub is_stop : Char → Bool
is_stop c = contains (46 ∷ 33 ∷ 63 ∷ []) (code c)

-- Whether a sentence may end before this text: at the end, or before white space, a quote or a bracket.
abbrev pub may_follow : String → Bool
may_follow String.[] = true
may_follow (String.◌∷◌ c s) = contains (32 ∷ 10 ∷ 9 ∷ 13 ∷ 34 ∷ 39 ∷ 41 ∷ 93 ∷ 125 ∷ []) (code c)

-- Only a sentence that is not blank is kept.
abbrev pub add_sentence : String → List String × String → List String × String
add_sentence text rest = if strip text == "" then rest else (strip text ∷ rest.0, rest.1)

abbrev pub with_char : String → Char → String
with_char s c = concat s (String.◌∷◌ c "")

-- The loop over the characters; `current` is `buffer[start:index]`.
unfoldable pub sentences_from : String → String → List String × String
sentences_from current String.[] = ([], lstrip current)
sentences_from current (String.◌∷◌ c rest) =
    let cut = sentences_from "" rest in
    let more = sentences_from (with_char current c) rest in
    if is_stop c && may_follow rest then add_sentence (with_char current c) cut else more

abbrev pub complete_sentences : String → List String × String
complete_sentences buffer = sentences_from "" buffer

-- A text without its white space.
unfoldable pub squeeze : String → String
squeeze String.[] = String.[]
squeeze (String.◌∷◌ c s) = let rest = squeeze s in if is_space c then rest else String.◌∷◌ c rest

unfoldable pub squeeze_all : List String → String
squeeze_all [] = ""
squeeze_all (s ∷ rest) = concat (squeeze s) (squeeze_all rest)

pub squeeze-concat : (s t : String) → squeeze (concat s t) ≡ concat (squeeze s) (squeeze t)
unfolding squeeze
squeeze-concat String.[] t = rw nil-append (rw nil-append refl)
squeeze-concat (String.◌∷◌ c s) t = elim (Bool-cases (is_space c)) [
  | inl space ↦ rw cons-append (rw space (squeeze-concat s t))
  | inr mark ↦
      rw cons-append (rw mark (ap (String.◌∷◌ c) (squeeze-concat s t) ∙ sym (cons-append c _ _)))
]

squeeze-lstrip : (s : String) → squeeze (lstrip s) ≡ squeeze s
unfolding squeeze lstrip
squeeze-lstrip String.[] = refl
squeeze-lstrip (String.◌∷◌ c s) = elim (Bool-cases (is_space c)) [
  | inl space ↦ rw space (squeeze-lstrip s)
  | inr mark ↦ rw mark (rw mark refl)
]

squeeze_cons :
    (c : Char) (s t : String)
    → squeeze s ≡ squeeze t
    → squeeze (String.◌∷◌ c s) ≡ squeeze (String.◌∷◌ c t)
unfolding squeeze
squeeze_cons c s t e = rw e refl

squeeze-rstrip : (s : String) → squeeze (rstrip s) ≡ squeeze s
unfolding squeeze rstrip
squeeze-rstrip String.[] = refl
squeeze-rstrip (String.◌∷◌ c s) =
    let before = squeeze-rstrip s in
    if-elim (λ (x : String). squeeze x ≡ squeeze (String.◌∷◌ c s)) (is_space c && rstrip s == "") _
      _
      (λ blank.
        let empty : rstrip s ≡ "" = (string_eq.beq_iff _ _).0 (ground (arith, blank)) in
        let space : is_space c ≡ true = ground (arith, blank) in
        rw space (sym (sym before ∙ ap squeeze empty)))
      (λ mark. squeeze_cons c (rstrip s) s before)

squeeze-strip : (s : String) → squeeze (strip s) ≡ squeeze s
squeeze-strip s = squeeze-rstrip (lstrip s) ∙ squeeze-lstrip s

-- What sentences and the text behind them say.
abbrev pub said : List String × String → String
said (sentences, behind) = concat (squeeze_all sentences) (squeeze behind)

said-add_sentence :
    (text : String) (rest : List String × String)
    → said (add_sentence text rest) ≡ concat (squeeze text) (said rest)
unfolding squeeze squeeze_all
said-add_sentence text rest =
    if-elim (λ (x : List String × String). said x ≡ concat (squeeze text) (said rest))
      (strip text == "") _ _
      (λ blank.
        let empty : strip text ≡ "" = (string_eq.beq_iff _ _).0 blank in
        let silent : squeeze text ≡ "" = sym (squeeze-strip text) ∙ ap squeeze empty in
        sym (ap (λ x. concat x (said rest)) silent ∙ nil-append (said rest)))
      (λ mark. rw append_assoc (ap (λ x. concat x (said rest)) (squeeze-strip text)))

squeeze-next :
    (current : String) (c : Char) (rest : String)
    → concat (squeeze (with_char current c)) (squeeze rest)
      ≡ concat (squeeze current) (squeeze (String.◌∷◌ c rest))
squeeze-next current c rest =
    sym (squeeze-concat (with_char current c) rest)
    ∙ ap squeeze (
        append_assoc current (String.◌∷◌ c "") rest
        ∙ ap (concat current) (cons-append c "" rest ∙ ap (String.◌∷◌ c) (nil-append rest)))
    ∙ squeeze-concat current (String.◌∷◌ c rest)

-- Splitting a text into sentences loses and adds nothing but white space: the sentences one after
-- another, and the text that is kept behind them, are the text, up to white space.
pub sentences_from-said :
    (current buffer : String)
    → said (sentences_from current buffer) ≡ concat (squeeze current) (squeeze buffer)
unfolding sentences_from squeeze squeeze_all
sentences_from-said current String.[] =
    nil-append (squeeze (lstrip current))
    ∙ squeeze-lstrip current
    ∙ sym (append-nil (squeeze current))
sentences_from-said current (String.◌∷◌ c rest) =
    let next = with_char current c in
    if-elim
      (λ (x : List String × String).
        said x ≡ concat (squeeze current) (squeeze (String.◌∷◌ c rest)))
      (is_stop c && may_follow rest) _ _
      (λ stop.
        said-add_sentence next (sentences_from "" rest)
        ∙ ap (concat (squeeze next)) (sentences_from-said "" rest ∙ nil-append (squeeze rest))
        ∙ squeeze-next current c rest)
      (λ going. sentences_from-said next rest ∙ squeeze-next current c rest)
