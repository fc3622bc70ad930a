-- ===== src/Llm/Router/Stream/Exceptions.antt =====
-- Where an exception in a stream of the router comes from (src/jarvis_brain/llm/intelligence_router.py,
-- `generate_stream`).
use jarvis_brain.Floats.{Floats}
use jarvis_brain.OmniRoute.Signals.{Platform}
use jarvis_brain.Llm.Providers.{StreamEvent}
use jarvis_brain.Llm.Router.{IntelligenceRouter, Facts, RoutedRequest, routed}
use jarvis_brain.Llm.Router.Generate.{Decision, Calls}
use jarvis_brain.Llm.Router.Stream.{
  Candidate, Output, Ending, Drained, drain, drained, stream_decision, follow, stream_loop,
  stream_calls, id_of,
}
use jarvis_brain.Prelude.{
  String, ℕ, ◌+◌, ◌≡◌, refl, Bool, true, false, not, Option, some, List, [], ◌∷◌, ◌++◌, arith, ◌==◌,
  nat_eq, string_eq, pair_eq, any, if-elim, ◌⊎◌, inl, inr, ◌∙◌, Bool-cases, Mem, mem-cons_self,
  mem-cons_of_mem,
}

module _ (platform : Platform) (fl : Floats) where
  abbrev pub is_raised : Output platform fl → Bool
  is_raised Output.raised = true
  is_raised output = false

  -- Whether the events reach an exception before their end.
  unfoldable pub can_raise : List StreamEvent → Bool
  can_raise [] = false
  can_raise (StreamEvent.token content ∷ later) = can_raise later
  can_raise (StreamEvent.done ∷ later) = false
  can_raise (StreamEvent.error ∷ later) = false
  can_raise (StreamEvent.raises ∷ later) = true
  can_raise (StreamEvent.other ∷ later) = can_raise later

  -- What one stream gives has an exception exactly if the stream reaches one.
  drain-can_raise :
      (c : Candidate platform fl) (decision : Decision platform fl) (visible : Bool) (chunk : ℕ)
      (events : List StreamEvent)
      → any is_raised (drain platform fl c decision visible chunk events).output ≡ can_raise events
  unfolding drain can_raise any
  drain-can_raise c decision visible chunk [] = refl
  drain-can_raise c decision visible chunk (StreamEvent.token content ∷ later) =
      if-elim (λ (d : Drained platform fl). any is_raised d.output ≡ can_raise later)
        (content == "") _ _ (λ empty. drain-can_raise c decision visible chunk later)
        (λ shown. drain-can_raise c decision true (chunk + 1) later)
  drain-can_raise c decision visible chunk (StreamEvent.done ∷ later) = refl
  drain-can_raise c decision true chunk (StreamEvent.error ∷ later) = refl
  drain-can_raise c decision false chunk (StreamEvent.error ∷ later) = refl
  drain-can_raise c decision visible chunk (StreamEvent.raises ∷ later) = refl
  drain-can_raise c decision visible chunk (StreamEvent.other ∷ later) =
      drain-can_raise c decision visible chunk later

  quiet-append :
      (xs ys : List (Output platform fl))
      → any is_raised xs ≡ false
      → any is_raised ys ≡ false
      → any is_raised (xs ++ ys) ≡ false
  unfolding any
  quiet-append [] ys h k = k
  quiet-append (x ∷ xs) ys h k = ground (arith, h, quiet-append xs ys (ground (arith, h)) k)

  -- An available candidate whose stream reaches an exception, for some request.
  abbrev pub SomeRaises : List (Candidate platform fl) → Type 0
  SomeRaises candidates =
      (c : Candidate platform fl) × (request : RoutedRequest platform fl) × Mem c candidates
      × (c.provider.is_available ≡ true)
      × (can_raise (c.provider.generate_stream request) ≡ true)

  -- No exception, or a candidate that it may come from.
  abbrev pub IsBlamed : List (Candidate platform fl) → List (Output platform fl) → Type 0
  IsBlamed candidates output = (any is_raised output ≡ false) ⊎ SomeRaises candidates

  IsBlamed-append :
      (candidates : List (Candidate platform fl)) (xs ys : List (Output platform fl))
      → IsBlamed candidates xs
      → IsBlamed candidates ys
      → IsBlamed candidates (xs ++ ys)
  IsBlamed-append candidates xs ys (inr some_raises) k = inr some_raises
  IsBlamed-append candidates xs ys (inl quiet) (inr some_raises) = inr some_raises
  IsBlamed-append candidates xs ys (inl quiet) (inl later) = inl (quiet-append xs ys quiet later)

  IsBlamed-cons :
      (c : Candidate platform fl) (later : List (Candidate platform fl))
      (output : List (Output platform fl))
      → IsBlamed later output
      → IsBlamed (c ∷ later) output
  IsBlamed-cons c later output (inl quiet) = inl quiet
  IsBlamed-cons c later output (inr (d, request, m, on, raising)) =
      inr (d, request, mem-cons_of_mem c m, on, raising)

  module _ (router : IntelligenceRouter platform fl) where
    follow-IsBlamed :
        (candidates : List (Candidate platform fl)) (calls : Calls platform fl)
        (output : List (Output platform fl)) (made : Calls platform fl) (ending : Ending)
        (after_break after_end : List (Output platform fl) × Calls platform fl)
        → IsBlamed candidates output
        → IsBlamed candidates after_break.0
        → IsBlamed candidates after_end.0
        → IsBlamed candidates
            (follow platform fl router calls
              (record { output = output; calls = made; ending = ending })
              after_break
              after_end).0
    follow-IsBlamed cs calls output made Ending.returned after_break after_end h k l = h
    follow-IsBlamed cs calls output made Ending.broken after_break after_end h k l =
        IsBlamed-append cs output after_break.0 h k
    follow-IsBlamed cs calls output made Ending.ran_out after_break after_end h k l =
        IsBlamed-append cs output after_end.0 h l

    drained-IsBlamed :
        (facts : Facts platform fl) (c : Candidate platform fl)
        (later : List (Candidate platform fl)) (fallback : Bool)
        → c.provider.is_available ≡ true
        → IsBlamed (c ∷ later) (drained platform fl router facts c later fallback).output
    drained-IsBlamed facts c later fallback on =
        let decision = stream_decision platform fl router facts c later fallback in
        let request = routed platform fl facts c.name c.model decision in
        let events = c.provider.generate_stream request in
        let same = drain-can_raise c decision false 0 events in
        elim (Bool-cases (can_raise events)) [
          | inl raising ↦ inr (c, request, mem-cons_self, on, raising)
          | inr quiet ↦ inl (same ∙ quiet)
        ]

    pub stream_loop-IsBlamed :
        (facts : Facts platform fl) (fallback : Bool) (failed_id : Option String)
        (candidates : List (Candidate platform fl))
        → IsBlamed candidates (stream_loop platform fl router facts fallback failed_id candidates).0
    unfolding stream_loop any
    stream_loop-IsBlamed facts fallback failed_id [] = inl refl
    stream_loop-IsBlamed facts fallback failed_id (c ∷ later) =
        let decision = stream_decision platform fl router facts c later fallback in
        let d = drained platform fl router facts c later fallback in
        let next = some (id_of platform fl router c) in
        let after_break =
          IsBlamed-cons c later (stream_loop platform fl router facts true next later).0
            (stream_loop-IsBlamed facts true next later) in
        if-elim (λ (r : List (Output platform fl) × Calls platform fl). IsBlamed (c ∷ later) r.0)
          (not c.provider.is_available) _ _ (λ off. after_break)
          (λ on.
            follow-IsBlamed (c ∷ later) (stream_calls platform fl router c decision failed_id)
              d.output d.calls d.ending (stream_loop platform fl router facts true next later)
              (stream_loop platform fl router facts true failed_id later)
              (drained-IsBlamed facts c later fallback (ground (arith, on))) after_break
              (IsBlamed-cons c later (stream_loop platform fl router facts true failed_id later).0
                (stream_loop-IsBlamed facts true failed_id later)))
