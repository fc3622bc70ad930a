-- ===== src/Requests/Cancellation/Examples.antt =====
-- The token's theorems at a history with two cancellations; a callback is a number here.
use jarvis_brain.Requests.Cancellation.{new_token}
use jarvis_brain.Requests.Cancellation.Callbacks.{Op, run, added, first_reason, told, run-told}
use jarvis_brain.Prelude.{ℕ, ◌≡◌, List, [], ◌∷◌, nat_eq, string_eq, pair_eq}

abbrev calls : List (Op ℕ)
calls = Op.adds 1 ∷ Op.cancels " superseded " ∷ Op.adds 2 ∷ Op.cancels "late" ∷ Op.adds 3 ∷ []

run-told_example : (run calls new_token).1 ≡ told (first_reason calls) (added calls)
run-told_example = run-told calls
