-- ===== src/Llm/Router/Stream/Endings.antt =====
-- How a stream of the router ends (src/jarvis_brain/llm/intelligence_router.py, `generate_stream`).
use jarvis_brain.Floats.{Floats}
use jarvis_brain.OmniRoute.Signals.{Platform}
use jarvis_brain.Llm.Providers.{StreamEvent}
use jarvis_brain.Llm.Router.{LlmRequest, IntelligenceRouter, Facts, facts_of}
use jarvis_brain.Llm.Router.Generate.{Decision, Calls, selection_of}
use jarvis_brain.Llm.Router.Stream.{
  Candidate, Output, Ending, Drained, drain, drained, stream_decision, follow, stream_loop,
  stream_calls, id_of, candidates_of, generate_stream,
}
use jarvis_brain.Llm.Router.Stream.Exceptions.{IsBlamed, stream_loop-IsBlamed}
use jarvis_brain.Prelude.{
  String, ℕ, ◌+◌, ◌≡◌, refl, sym, subst, Bool, true, false, not, ◌&&◌, Option, none, some, List, [],
  ◌∷◌, ◌++◌, arith, ◌==◌, nat_eq, string_eq, pair_eq, all, if-elim,
}

module _ (platform : Platform) (fl : Floats) where
  abbrev pub is_token : Output platform fl → Bool
  is_token (Output.token text) = true
  is_token output = false

  -- Tokens, and then one event that is none, which is the last.
  unfoldable pub is_ended : List (Output platform fl) → Bool
  is_ended [] = false
  is_ended (output ∷ []) = not (is_token output)
  is_ended (output ∷ next ∷ rest) = is_token output && is_ended (next ∷ rest)

  abbrev pub ShapeAt : Ending → Bool → List (Output platform fl) → Type 0
  ShapeAt Ending.returned visible output = is_ended output ≡ true
  ShapeAt Ending.broken visible output = (output ≡ []) × (visible ≡ false)
  ShapeAt Ending.ran_out visible output = all is_token output ≡ true

  token_ended :
      (text : String) (output : List (Output platform fl))
      → is_ended output ≡ true
      → is_ended (Output.token text ∷ output) ≡ true
  unfolding is_ended
  token_ended text [] h = absurd (ground (arith, h))
  token_ended text (next ∷ rest) h = h

  token_shape :
      (ending : Ending) (visible : Bool) (text : String) (output : List (Output platform fl))
      → ShapeAt ending true output
      → ShapeAt ending visible (Output.token text ∷ output)
  unfolding all
  token_shape Ending.returned visible text output h = token_ended text output h
  token_shape Ending.broken visible text output h = absurd (ground (arith, h.1))
  token_shape Ending.ran_out visible text output h = h

  -- What one stream gives: an end as the last event, nothing before an error, or only tokens.
  pub drain_shape :
      (c : Candidate platform fl) (decision : Decision platform fl) (visible : Bool) (chunk : ℕ)
      (events : List StreamEvent)
      → ShapeAt
          (drain platform fl c decision visible chunk events).ending
          visible
          (drain platform fl c decision visible chunk events).output
  unfolding drain is_ended all
  drain_shape c decision visible chunk [] = refl
  drain_shape c decision visible chunk (StreamEvent.token content ∷ later) =
      let rest = drain platform fl c decision true (chunk + 1) later in
      if-elim (λ (d : Drained platform fl). ShapeAt d.ending visible d.output) (content == "") _ _
        (λ empty. drain_shape c decision visible chunk later)
        (λ shown.
          token_shape rest.ending visible content rest.output
            (drain_shape c decision true (chunk + 1) later))
  drain_shape c decision visible chunk (StreamEvent.done ∷ later) = refl
  drain_shape c decision true chunk (StreamEvent.error ∷ later) = refl
  drain_shape c decision false chunk (StreamEvent.error ∷ later) = (refl, refl)
  drain_shape c decision visible chunk (StreamEvent.raises ∷ later) = refl
  drain_shape c decision visible chunk (StreamEvent.other ∷ later) =
      drain_shape c decision visible chunk later

  tokens_ended :
      (xs ys : List (Output platform fl))
      → all is_token xs ≡ true
      → is_ended ys ≡ true
      → is_ended (xs ++ ys) ≡ true
  unfolding all is_ended
  tokens_ended [] ys h k = k
  tokens_ended (Output.token text ∷ xs) ys h k =
      token_ended text (xs ++ ys) (tokens_ended xs ys h k)
  tokens_ended (output ∷ xs) ys h k = absurd (ground (arith, h))

  module _ (router : IntelligenceRouter platform fl) where
    follow_ended :
        (calls : Calls platform fl) (output : List (Output platform fl)) (made : Calls platform fl)
        (ending : Ending) (after_break after_end : List (Output platform fl) × Calls platform fl)
        → ShapeAt ending false output
        → is_ended after_break.0 ≡ true
        → is_ended after_end.0 ≡ true
        → is_ended
            (follow platform fl router calls
              (record { output = output; calls = made; ending = ending })
              after_break
              after_end).0
          ≡ true
    follow_ended calls output made Ending.returned after_break after_end shape h k = shape
    follow_ended calls output made Ending.broken after_break after_end shape h k =
        subst (λ z. is_ended (z ++ after_break.0) ≡ true) (sym shape.0) h
    follow_ended calls output made Ending.ran_out after_break after_end shape h k =
        tokens_ended output after_end.0 shape k

    stream_loop_ended :
        (facts : Facts platform fl) (fallback : Bool) (failed_id : Option String)
        (candidates : List (Candidate platform fl))
        → is_ended (stream_loop platform fl router facts fallback failed_id candidates).0 ≡ true
    unfolding stream_loop is_ended
    stream_loop_ended facts fallback failed_id [] = refl
    stream_loop_ended facts fallback failed_id (c ∷ later) =
        let decision = stream_decision platform fl router facts c later fallback in
        let d = drained platform fl router facts c later fallback in
        let next = some (id_of platform fl router c) in
        if-elim (λ (r : List (Output platform fl) × Calls platform fl). is_ended r.0 ≡ true)
          (not c.provider.is_available) _ _ (λ off. stream_loop_ended facts true next later)
          (λ on.
            follow_ended (stream_calls platform fl router c decision failed_id) d.output d.calls
              d.ending (stream_loop platform fl router facts true next later)
              (stream_loop platform fl router facts true failed_id later)
              (drain_shape c decision false 0 _) (stream_loop_ended facts true next later)
              (stream_loop_ended facts true failed_id later))

    -- The router's stream consists of tokens and of exactly one more event, which is its last: `done`,
    -- `error`, or the exception of a provider's stream, which the router lets through. It is not an
    -- exception, unless the stream of an available candidate raises, for some request, before it says
    -- `done` or `error`.
    pub generate_stream_ended :
        (request : LlmRequest)
        → let facts = facts_of platform fl request in
          let output = (generate_stream platform fl router request).0 in
          (is_ended output ≡ true)
          × IsBlamed platform fl
              (candidates_of platform fl router facts (selection_of platform fl router facts))
              output
    unfolding generate_stream
    generate_stream_ended request =
        let facts = facts_of platform fl request in
        let candidates =
          candidates_of platform fl router facts (selection_of platform fl router facts) in
        (
          stream_loop_ended facts false none candidates,
          stream_loop-IsBlamed platform fl router facts false none candidates,
        )
