-- ===== src/Llm/SafeService/Heard.antt =====
-- What the callback of a stream hears, and what is shown
-- (src/jarvis_brain/llm/safe_llm_service.py).
use Prim.Native.String.{◌++◌ as concat}
use mathlib.Core.List.{append-nil as list_append-nil, append_assoc as list_append_assoc}
use text.Mathlib.TextLemmas.{nil-append, append-nil, append_assoc}
use jarvis_brain.Text.{strip, or_else}
use jarvis_brain.Llm.SafeService.{
  Guards, SafeRequest, SafeResponse, Call, request_of, is_injection, shown, emit_safe_sentence,
  emit_each,
}
use jarvis_brain.Llm.SafeService.Sentences.{
  complete_sentences, squeeze, squeeze_all, said, squeeze-concat, sentences_from-said,
}
use jarvis_brain.Llm.SafeService.Streaming.{
  StreamItem, token, done, error, other, cancelled, Streaming, started, take_token, read, ended,
  generate_streaming,
}
use jarvis_brain.Prelude.{
  String, ◌≡◌, refl, sym, ap, ◌∙◌, subst, Bool, true, false, ◌||◌, Option, none, some, List, [],
  ◌∷◌, ◌++◌, arith, ◌==◌, nat_eq, string_eq, pair_eq, length, All, get_or, if-elim,
}

-- The text that a stream tells before it fails or its turn is cancelled.
unfoldable pub told_text : List StreamItem → String
told_text [] = ""
told_text (token text ∷ later) = concat text (told_text later)
told_text (done provider model ∷ later) = told_text later
told_text (other ∷ later) = told_text later
told_text (error message ∷ later) = ""
told_text (cancelled ∷ later) = ""

squeeze_all-append :
    (a b : List String) → squeeze_all (a ++ b) ≡ concat (squeeze_all a) (squeeze_all b)
unfolding squeeze_all
squeeze_all-append [] b = sym (nil-append (squeeze_all b))
squeeze_all-append (s ∷ a) b =
    ap (concat (squeeze s)) (squeeze_all-append a b)
    ∙ sym (append_assoc (squeeze s) (squeeze_all a) (squeeze_all b))

module _ (guards : Guards) where
  emit_each-append :
      (a b : List String) → emit_each guards (a ++ b) ≡ emit_each guards a ++ emit_each guards b
  unfolding emit_each
  emit_each-append [] b = refl
  emit_each-append (s ∷ a) b =
      ap (λ x. emit_safe_sentence guards s ++ x) (emit_each-append a b)
      ∙ sym (list_append_assoc (emit_safe_sentence guards s) _ _)

  -- What is read from `s` on: the sentences that were offered to the callback since, and the text.
  abbrev IsRead : Streaming → String → Streaming → Type 0
  IsRead s text end =
      (end.raw_content ≡ concat s.raw_content text)
      × ((offered : List String) × ((end.heard ≡ s.heard ++ emit_each guards offered)
            × (concat (squeeze_all offered) (squeeze end.pending_sentence)
                ≡ concat (squeeze s.pending_sentence) (squeeze text))))

  nothing-IsRead : (s : Streaming) → IsRead s "" s
  unfolding squeeze squeeze_all emit_each
  nothing-IsRead s = (
    sym (append-nil s.raw_content),
    (
      [],
      (
        sym (list_append-nil s.heard),
        nil-append (squeeze s.pending_sentence) ∙ sym (append-nil (squeeze s.pending_sentence)),
      ),
    ),
  )

  token-IsRead :
      (text later : String) (s end : Streaming)
      → IsRead (take_token guards text s) later end
      → IsRead s (concat text later) end
  unfolding take_token squeeze
  token-IsRead text later s end (raw, (offered, (heard, squeezed))) =
      let buffer = concat s.pending_sentence text in
      let (sentences, pending) = complete_sentences buffer in
      (
        raw ∙ append_assoc s.raw_content text later,
        (
          sentences ++ offered,
          (
            heard
                ∙ list_append_assoc s.heard (emit_each guards sentences) (emit_each guards offered)
                ∙ ap (λ x. s.heard ++ x) (sym (emit_each-append sentences offered)),
            ap (λ x. concat x (squeeze end.pending_sentence)) (squeeze_all-append sentences offered)
                ∙ append_assoc (squeeze_all sentences) (squeeze_all offered)
                    (squeeze end.pending_sentence)
                ∙ ap (concat (squeeze_all sentences)) squeezed
                ∙ sym (append_assoc (squeeze_all sentences) (squeeze pending) (squeeze later))
                ∙ ap (λ x. concat x (squeeze later))
                    (sentences_from-said "" buffer ∙ nil-append (squeeze buffer))
                ∙ sym (squeeze-concat buffer later)
                ∙ ap squeeze (append_assoc s.pending_sentence text later)
                ∙ squeeze-concat s.pending_sentence (concat text later),
          ),
        ),
      )

  read-IsRead :
      (call : Call) (items : List StreamItem) (s : Streaming)
      → IsRead s (told_text items) (read guards call s items).1
  unfolding read told_text
  read-IsRead call [] s = nothing-IsRead s
  read-IsRead call (cancelled ∷ later) s = nothing-IsRead s
  read-IsRead call (token text ∷ later) s =
      if-elim (λ (x : Bool × Streaming). IsRead s (concat text (told_text later)) x.1) (text == "")
        _ _
        (λ empty.
          subst (λ x. IsRead s x (read guards call s later).1)
            (sym (
              ap (λ x. concat x (told_text later)) ((string_eq.beq_iff text "").0 empty)
              ∙ nil-append (told_text later)))
            (read-IsRead call later s))
        (λ more.
          token-IsRead text (told_text later) s
            (read guards call (take_token guards text s) later).1
            (read-IsRead call later (take_token guards text s)))
  read-IsRead call (done provider model ∷ later) s = read-IsRead call later (record s {
    final_provider = get_or provider call.provider;
    final_model = or_else model call.selected_model;
  })
  read-IsRead call (error message ∷ later) s = nothing-IsRead s
  read-IsRead call (other ∷ later) s = read-IsRead call later s

  -- What a sentence makes the callback hear.
  abbrev pub IsSafe : String → Type 0
  IsSafe said =
      (sentence : String) × (((guards.enforce_output_policy "llm_stream_sentence" sentence).blocked
          ≡ false)
        × (strip (guards.enforce_output_policy "llm_stream_sentence" sentence).redacted_text
            ≡ said))

  emit_each-IsSafe : (offered : List String) → All IsSafe (emit_each guards offered)
  unfolding emit_each emit_safe_sentence
  emit_each-IsSafe [] = tt
  emit_each-IsSafe (s ∷ rest) =
      let policy = guards.enforce_output_policy "llm_stream_sentence" (strip s) in
      let safe = strip policy.redacted_text in
      if-elim (λ (x : List String). All IsSafe (x ++ emit_each guards rest))
        (strip s == "" || (policy.blocked || safe == "")) _ _ (λ silent. emit_each-IsSafe rest)
        (λ said. ((strip s, (ground (arith, said), refl)), emit_each-IsSafe rest))

  -- The sentences that were offered tell the whole text, and the answer shows it as the policy has it.
  abbrev pub IsShown : String → List String → List String → Option SafeResponse → Type 0
  IsShown text offered heard none = Unit
  IsShown text offered heard (some response) =
      (squeeze_all offered ≡ squeeze text)
      × ((response.content ≡ shown (guards.enforce_output_policy "llm_response" text))
          × (response.safe_sentence_count ≡ length heard))

  module _ (call : Call) where
    ended-IsShown :
        (text : String) (raised : Bool) (s : Streaming)
        → IsRead (started call) text s
        → (offered : List String) × (((ended guards call (raised, s)).0 ≡ emit_each guards offered)
            × IsShown text offered
                (ended guards call (raised, s)).0
                (ended guards call (raised, s)).1)
    unfolding squeeze squeeze_all emit_each
    ended-IsShown text true s (raw, (offered, (heard, squeezed))) = (offered, (heard, tt))
    ended-IsShown text false s (raw, (offered, (heard, squeezed))) =
        let pending = s.pending_sentence in
        (
          offered ++ pending ∷ [],
          (
            ap (λ x. x ++ emit_safe_sentence guards pending) heard
                ∙ ap (λ x. emit_each guards offered ++ x) (sym (list_append-nil _))
                ∙ sym (emit_each-append offered (pending ∷ [])),
            (
              squeeze_all-append offered (pending ∷ [])
                  ∙ ap (concat (squeeze_all offered)) (append-nil (squeeze pending))
                  ∙ squeezed
                  ∙ nil-append (squeeze text),
              (
                ap (λ x. shown (guards.enforce_output_policy "llm_response" x))
                    (raw ∙ nil-append text),
                refl,
              ),
            ),
          ),
        )

    -- Whatever a stream does, its callback only ever hears texts that the policy does not block, as the
    -- policy redacts them, and never a raw token. What it hears comes from sentences that were offered in
    -- order. Unless the turn is cancelled, these tell the whole text of the stream, up to its white
    -- space; the answer shows that text as the policy redacts it, or the notice on credentials, and
    -- counts what was heard. This is for a call that is not taken for an injection.
    pub generate_streaming-IsShown :
        (stream : SafeRequest → List StreamItem)
        → is_injection guards call ≡ false
        → let text = told_text (stream (request_of guards call true)) in
          let run = generate_streaming guards stream call in
          All IsSafe run.0
          × ((offered : List String) × ((run.0 ≡ emit_each guards offered)
                × IsShown text offered run.0 run.1))
    unfolding generate_streaming
    generate_streaming-IsShown stream clean =
        let items = stream (request_of guards call true) in
        let found = read guards call (started call) items in
        let (offered, (heard, shows)) =
          ended-IsShown (told_text items) found.0 found.1 (read-IsRead call items (started call)) in
        rw clean
          (subst (All IsSafe) (sym heard) (emit_each-IsSafe offered), (offered, (heard, shows)))
