-- ===== src/Requests/Cancellation.antt =====
-- The cancellation token of a turn (src/jarvis_brain/requests/cancellation.py). `C` is what a callback
-- is; a call hands back the callbacks that it ran, each with its argument, in order. A callback runs
-- after the lock has been released; one that calls the token again makes a further call of the history.
pub mod Callbacks
mod Examples
use jarvis_brain.Text.{strip, or_else}
use jarvis_brain.Prelude.{
  String, ℕ, zero, suc, ◌+◌, ◌-◌, ◌*◌, ◌/◌, ◌%◌, ◌≤◌, ◌<◌, min, max, ◌≡◌, refl, sym, ap, ◌∙◌, subst,
  ◌≢◌, ◌↔◌, ◌⊎◌, inl, inr, Bool, true, false, not, ◌&&◌, ◌||◌, Option, none, some, List, [], ◌∷◌,
  ◌++◌, map, reverse, arith, ltb, leb, nat_beq, if◌then◌else◌, ltb→lt, lt→ltb, le→ltb, leb→le,
  le→leb, nat_beq_iff, Bool-cases, Option-cases, Eq, ◌==◌, nat_eq, string_eq, pair_eq, length, drop,
  last_n, keep, All, any, all, length-append, length-drop, length-last_n, contains, get_or, eq_iff,
  eq_refl, list_cases, last_n-last_n-append, last_n-short, drop-append, drop-drop, drop_at,
  drop-nil, ltb_asym, ltb_mono, dec_beq, dec_beq_iff, discrete_eq, unique, unique_from, is_subset,
  Mem, mem-cons_self, mem-cons_of_mem, all-Mem, contains-Mem, find, find-Mem, all_intro, keep-Mem,
  contains_of_Mem, All-Mem, append-eq-nil, unique-eq-nil, eq-cases, if-elim,
}

pub record CancellationToken {ℓ} (C : Type ℓ) : Type ℓ where
  pub cancelled : Bool
  pub reason : String
  pub callbacks : List C

-- The token after a call, the answer, and the callbacks that ran.
pub record Called {ℓ} (C : Type ℓ) (R : Type 0) : Type ℓ where
  pub token : CancellationToken C
  pub answer : R
  pub ran : List (C × String)

-- reason.strip() or "cancelled"
abbrev pub given_reason : String → String
given_reason reason = or_else (strip reason) "cancelled"

module _ {ℓ} {C : Type ℓ} where
  abbrev pub new_token : CancellationToken C
  new_token = record { cancelled = false; reason = "cancelled"; callbacks = [] }

  abbrev pub call_each : List C → String → List (C × String)
  call_each callbacks reason = map (λ callback. (callback, reason)) callbacks

  unfoldable pub cancel : String → CancellationToken C → Called C Bool
  cancel reason t = if t.cancelled then record { token = t; answer = false; ran = [] } else record {
    token = record { cancelled = true; reason = given_reason reason; callbacks = [] };
    answer = true;
    ran = call_each t.callbacks (given_reason reason);
  }

  unfoldable pub add_callback : C → CancellationToken C → Called C (Unit {0})
  add_callback callback t =
      if not t.cancelled
      then record {
        token = record t { callbacks = t.callbacks ++ callback ∷ [] };
        answer = tt;
        ran = [];
      }
      else record { token = t; answer = tt; ran = (callback, t.reason) ∷ [] }

  -- The reason of the `TurnCancelledError` that it raises, or `none`.
  unfoldable pub raise_if_cancelled : CancellationToken C → Option String
  raise_if_cancelled t = if t.cancelled then some t.reason else none

  -- What a round of `wait` returns, or `none` when it sleeps and looks again.
  unfoldable pub wait : CancellationToken C → Option String
  wait t = if t.cancelled then some t.reason else none
