-- ===== src/Llm/Router/Stream/Sources.antt =====
-- Whose tokens a stream of the router shows (src/jarvis_brain/llm/intelligence_router.py,
-- `generate_stream`).
use jarvis_brain.Floats.{Floats}
use jarvis_brain.OmniRoute.Signals.{Platform}
use jarvis_brain.Llm.Providers.{StreamEvent}
use jarvis_brain.Llm.Router.{LlmRequest, IntelligenceRouter, Facts, facts_of, RoutedRequest, routed}
use jarvis_brain.Llm.Router.Generate.{Decision, Calls, selection_of}
use jarvis_brain.Llm.Router.Stream.{
  Candidate, Output, Ending, Drained, drain, drained, stream_decision, follow, stream_loop,
  stream_calls, id_of, candidates_of, generate_stream,
}
use jarvis_brain.Llm.Router.Stream.Endings.{ShapeAt, drain_shape}
use jarvis_brain.Prelude.{
  String, ℕ, ◌+◌, ◌≡◌, refl, sym, subst, ◌≢◌, ◌⊎◌, inl, inr, Bool, true, false, not, Option, none,
  some, List, [], ◌∷◌, ◌++◌, arith, if◌then◌else◌, ◌==◌, nat_eq, string_eq, pair_eq, All, Mem,
  mem-cons_self, mem-cons_of_mem, if-elim,
}

-- The texts that a provider's stream shows: those of its tokens before its first end, but for the empty
-- ones.
unfoldable pub shown_texts : List StreamEvent → List String
shown_texts [] = []
shown_texts (StreamEvent.token content ∷ later) =
    let rest = shown_texts later in if content == "" then rest else content ∷ rest
shown_texts (StreamEvent.done ∷ later) = []
shown_texts (StreamEvent.error ∷ later) = []
shown_texts (StreamEvent.raises ∷ later) = []
shown_texts (StreamEvent.other ∷ later) = shown_texts later

-- The stream says how it ends: a `done`, an `error` or an exception.
unfoldable pub says_end : List StreamEvent → Bool
says_end [] = false
says_end (StreamEvent.token content ∷ later) = says_end later
says_end (StreamEvent.done ∷ later) = true
says_end (StreamEvent.error ∷ later) = true
says_end (StreamEvent.raises ∷ later) = true
says_end (StreamEvent.other ∷ later) = says_end later

module _ (platform : Platform) (fl : Floats) where
  -- The texts of the tokens that the router passes on.
  unfoldable pub texts_of : List (Output platform fl) → List String
  texts_of [] = []
  texts_of (Output.token text ∷ rest) = text ∷ texts_of rest
  texts_of (output ∷ rest) = texts_of rest

  drain-texts_of :
      (c : Candidate platform fl) (decision : Decision platform fl) (visible : Bool) (chunk : ℕ)
      (events : List StreamEvent)
      → texts_of (drain platform fl c decision visible chunk events).output ≡ shown_texts events
  unfolding drain texts_of shown_texts
  drain-texts_of c decision visible chunk [] = refl
  drain-texts_of c decision visible chunk (StreamEvent.token content ∷ later) = ground (
    arith,
    drain-texts_of c decision visible chunk later,
    drain-texts_of c decision true (chunk + 1) later,
  )
  drain-texts_of c decision visible chunk (StreamEvent.done ∷ later) = refl
  drain-texts_of c decision true chunk (StreamEvent.error ∷ later) = refl
  drain-texts_of c decision false chunk (StreamEvent.error ∷ later) = refl
  drain-texts_of c decision visible chunk (StreamEvent.raises ∷ later) = refl
  drain-texts_of c decision visible chunk (StreamEvent.other ∷ later) =
      drain-texts_of c decision visible chunk later

  drain-says_end :
      (c : Candidate platform fl) (decision : Decision platform fl) (visible : Bool) (chunk : ℕ)
      (events : List StreamEvent)
      → says_end events ≡ true
      → (drain platform fl c decision visible chunk events).ending ≢ Ending.ran_out
  unfolding drain says_end
  drain-says_end c decision visible chunk [] h = λ e. absurd (ground (arith, h))
  drain-says_end c decision visible chunk (StreamEvent.token content ∷ later) h =
      if-elim (λ (d : Drained platform fl). d.ending ≢ Ending.ran_out) (content == "") _ _
        (λ empty. drain-says_end c decision visible chunk later h)
        (λ shown. drain-says_end c decision true (chunk + 1) later h)
  drain-says_end c decision visible chunk (StreamEvent.done ∷ later) h =
      λ e. absurd (ground (arith, e))
  drain-says_end c decision true chunk (StreamEvent.error ∷ later) h =
      λ e. absurd (ground (arith, e))
  drain-says_end c decision false chunk (StreamEvent.error ∷ later) h =
      λ e. absurd (ground (arith, e))
  drain-says_end c decision visible chunk (StreamEvent.raises ∷ later) h =
      λ e. absurd (ground (arith, e))
  drain-says_end c decision visible chunk (StreamEvent.other ∷ later) h =
      drain-says_end c decision visible chunk later h

  module _ (router : IntelligenceRouter platform fl) where
    -- All the texts are those of one available candidate, for one request, or there are none.
    abbrev pub FromOne : List (Candidate platform fl) → List String → Type 0
    FromOne candidates texts =
        (texts ≡ [])
        ⊎ ((c : Candidate platform fl) × (request : RoutedRequest platform fl) × Mem c candidates
            × (c.provider.is_available ≡ true)
            × (texts ≡ shown_texts (c.provider.generate_stream request)))

    FromOne-cons :
        (c : Candidate platform fl) (later : List (Candidate platform fl)) (texts : List String)
        → FromOne later texts
        → FromOne (c ∷ later) texts
    FromOne-cons c later texts (inl none_shown) = inl none_shown
    FromOne-cons c later texts (inr (d, request, m, on, same)) =
        inr (d, request, mem-cons_of_mem c m, on, same)

    follow-FromOne :
        (candidates : List (Candidate platform fl)) (calls : Calls platform fl)
        (output : List (Output platform fl)) (made : Calls platform fl) (ending : Ending)
        (after_break after_end : List (Output platform fl) × Calls platform fl)
        → ShapeAt platform fl ending false output
        → ending ≢ Ending.ran_out
        → FromOne candidates (texts_of output)
        → FromOne candidates (texts_of after_break.0)
        → FromOne candidates (
            texts_of
              (follow platform fl router calls
                (record { output = output; calls = made; ending = ending })
                after_break
                after_end).0)
    follow-FromOne candidates calls output made Ending.returned after_break after_end shape n h k =
        h
    follow-FromOne candidates calls output made Ending.broken after_break after_end shape n h k =
        subst (λ z. FromOne candidates (texts_of (z ++ after_break.0))) (sym shape.0) k
    follow-FromOne candidates calls output made Ending.ran_out after_break after_end shape n h k =
        absurd (n refl)

    -- The streams of every candidate say how they end.
    abbrev pub AllSayEnd : List (Candidate platform fl) → Type 0
    AllSayEnd candidates =
        All
          (λ c.
            (request : RoutedRequest platform fl)
            → says_end (c.provider.generate_stream request) ≡ true)
          candidates

    stream_loop-FromOne :
        (facts : Facts platform fl) (fallback : Bool) (failed_id : Option String)
        (candidates : List (Candidate platform fl))
        → AllSayEnd candidates
        → FromOne candidates
            (texts_of (stream_loop platform fl router facts fallback failed_id candidates).0)
    unfolding stream_loop texts_of
    stream_loop-FromOne facts fallback failed_id [] ends = inl refl
    stream_loop-FromOne facts fallback failed_id (c ∷ later) ends =
        let decision = stream_decision platform fl router facts c later fallback in
        let request = routed platform fl facts c.name c.model decision in
        let d = drained platform fl router facts c later fallback in
        let next = some (id_of platform fl router c) in
        let rest =
          FromOne-cons c later (texts_of (stream_loop platform fl router facts true next later).0)
            (stream_loop-FromOne facts true next later ends.1) in
        if-elim
          (λ (r : List (Output platform fl) × Calls platform fl).
            FromOne (c ∷ later) (texts_of r.0))
          (not c.provider.is_available) _ _ (λ off. rest)
          (λ on.
            follow-FromOne (c ∷ later) (stream_calls platform fl router c decision failed_id)
              d.output d.calls d.ending (stream_loop platform fl router facts true next later)
              (stream_loop platform fl router facts true failed_id later)
              (drain_shape platform fl c decision false 0 (c.provider.generate_stream request))
              (drain-says_end c decision false 0 (c.provider.generate_stream request)
                (ends.0 request))
              (inr (
                c,
                request,
                mem-cons_self,
                ground (arith, on),
                drain-texts_of c decision false 0 (c.provider.generate_stream request),
              ))
              rest)

    -- If the streams of all candidates say how they end, by a `done` or an `error` event or an
    -- exception, then all the text that the router's stream shows comes from one available candidate, whole and in order, up to
    -- the end of that candidate's stream: a fallback never adds to the output of another provider.
    pub generate_stream-FromOne :
        (request : LlmRequest)
        → AllSayEnd (
            candidates_of platform fl router
              (facts_of platform fl request)
              (selection_of platform fl router (facts_of platform fl request)))
        → FromOne
            (candidates_of platform fl router
              (facts_of platform fl request)
              (selection_of platform fl router (facts_of platform fl request)))
            (texts_of (generate_stream platform fl router request).0)
    unfolding generate_stream
    generate_stream-FromOne request ends =
        let facts = facts_of platform fl request in
        stream_loop-FromOne facts false none
          (candidates_of platform fl router facts (selection_of platform fl router facts)) ends
