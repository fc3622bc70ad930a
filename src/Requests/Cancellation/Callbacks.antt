-- ===== src/Requests/Cancellation/Callbacks.antt =====
-- What a token's callbacks hear (src/jarvis_brain/requests/cancellation.py).
use mathlib.Core.List.{append_assoc, map-append}
use jarvis_brain.Requests.Cancellation.{
  CancellationToken, new_token, call_each, given_reason, cancel, add_callback, raise_if_cancelled,
}
use jarvis_brain.Prelude.{
  String, ◌≡◌, refl, sym, ap, ◌∙◌, true, false, Option, none, some, List, [], ◌∷◌, ◌++◌, nat_eq,
  string_eq, pair_eq,
}

-- The calls that change a token.
pub data Op {ℓ} (C : Type ℓ) : Type ℓ where
  cancels : String → Op C
  adds : C → Op C

module _ {ℓ} {C : Type ℓ} where
  abbrev pub after : Op C → CancellationToken C → CancellationToken C
  after (cancels reason) t = (cancel reason t).token
  after (adds callback) t = (add_callback callback t).token

  abbrev pub heard : Op C → CancellationToken C → List (C × String)
  heard (cancels reason) t = (cancel reason t).ran
  heard (adds callback) t = (add_callback callback t).ran

  -- A history of calls, in any order: the last token, and every callback that ran.
  unfoldable pub run : List (Op C) → CancellationToken C → CancellationToken C × List (C × String)
  run [] t = (t, [])
  run (op ∷ later) t = let (final, ran) = run later (after op t) in (final, heard op t ++ ran)

  unfoldable pub added : List (Op C) → List C
  added [] = []
  added (cancels reason ∷ later) = added later
  added (adds callback ∷ later) = callback ∷ added later

  -- The reason of the first cancellation.
  unfoldable pub first_reason : List (Op C) → Option String
  first_reason [] = none
  first_reason (cancels reason ∷ later) = some (given_reason reason)
  first_reason (adds callback ∷ later) = first_reason later

  -- What must have been heard of the callbacks `waiting`.
  abbrev pub told : Option String → List C → List (C × String)
  told none waiting = []
  told (some reason) waiting = call_each waiting reason

  -- A token that `reason` has cancelled, and one that nothing has.
  abbrev gone : String → List C → CancellationToken C
  gone reason callbacks = record { cancelled = true; reason = reason; callbacks = callbacks }

  abbrev waiting : List C → CancellationToken C
  waiting callbacks = record { cancelled = false; reason = "cancelled"; callbacks = callbacks }

  -- A cancelled token tells every later callback at once, and nothing changes it.
  run_gone :
      (ops : List (Op C)) (reason : String) (callbacks : List C)
      → run ops (gone reason callbacks) ≡ (gone reason callbacks, call_each (added ops) reason)
  unfolding run added cancel add_callback
  run_gone [] reason callbacks = refl
  run_gone (cancels other ∷ later) reason callbacks = rw (run_gone later reason callbacks) refl
  run_gone (adds callback ∷ later) reason callbacks = rw (run_gone later reason callbacks) refl

  run-waiting :
      (ops : List (Op C)) (callbacks : List C)
      → (run ops (waiting callbacks)).1 ≡ told (first_reason ops) (callbacks ++ added ops)
  unfolding run added cancel add_callback first_reason
  run-waiting [] callbacks = refl
  run-waiting (cancels reason ∷ later) callbacks =
      ap (λ r. call_each callbacks (given_reason reason) ++ r.1)
        (run_gone later (given_reason reason) [])
      ∙ sym (map-append _ callbacks (added later))
  run-waiting (adds callback ∷ later) callbacks =
      run-waiting later (callbacks ++ callback ∷ [])
      ∙ ap (told (first_reason later)) (append_assoc callbacks (callback ∷ []) (added later))

  -- In any history of a new token, each callback that was added is called exactly once, in the order
  -- of the additions, with the reason of the first cancellation, whether it was added before or after
  -- it; without a cancellation none is called.
  pub run-told : (ops : List (Op C)) → (run ops new_token).1 ≡ told (first_reason ops) (added ops)
  run-told ops = run-waiting ops []

  -- The token's own answers after any history: it is cancelled exactly when a cancellation was among
  -- the calls, with the reason of the first of them.
  pub run-raise_if_cancelled :
      (ops : List (Op C)) → raise_if_cancelled (run ops new_token).0 ≡ first_reason ops
  unfolding run cancel add_callback first_reason raise_if_cancelled
  run-raise_if_cancelled ops = raises ops []
    where
      raises :
          (ops : List (Op C)) (callbacks : List C)
          → raise_if_cancelled (run ops (waiting callbacks)).0 ≡ first_reason ops
      raises [] callbacks = refl
      raises (cancels reason ∷ later) callbacks =
          ap (λ r. raise_if_cancelled r.0) (run_gone later (given_reason reason) [])
      raises (adds callback ∷ later) callbacks = raises later (callbacks ++ callback ∷ [])
