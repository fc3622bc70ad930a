-- ===== src/Requests/Queue/Newest.antt =====
-- What the overwriting policy keeps
-- (src/jarvis_brain/requests/queues.py).
use jarvis_brain.Requests.Queue.{
  drop_oldest, BoundedAsyncQueue, left, is_full, count_accepted, put, new_queue,
}
use mathlib.Core.Path.{ap₂}
use mathlib.Core.List.{append_assoc, append-nil}
use jarvis_brain.Requests.Queue.Invariant.{put-IsBounded, IsBounded}
use jarvis_brain.Prelude.{
  ℕ, ◌+◌, ◌-◌, ◌<◌, ◌≡◌, refl, inl, inr, List, [], ◌∷◌, arith, Bool-cases, nat_eq, string_eq,
  pair_eq, length, drop, sym, ap, ◌∙◌, subst, some, ◌++◌, last_n, length-append, length-drop,
  length-last_n, last_n-last_n-append, last_n-short, drop-append, drop_at,
}
use jarvis_brain.Requests.Queue.Cases.{
  new_queue-IsNew, IsBalanced, taken_in, dropping, overflowed, put_cases,
}

module _ {ℓ} {A : Type ℓ} where
  -- Puts one after another, with the time that each waited.
  unfoldable pub put_all : List (A × ℕ) → BoundedAsyncQueue A → BoundedAsyncQueue A
  put_all [] q = q
  put_all ((item, elapsed) ∷ later) q = put_all later (left (put item elapsed q))

  abbrev pub offered : List (A × ℕ) → List A
  offered [] = []
  offered ((item, elapsed) ∷ later) = item ∷ offered later

  -- What the puts before leave of an overwriting queue.
  record IsNewest (q q' : BoundedAsyncQueue A) (new : List A) : Type ℓ where
    kept : q'.items ≡ last_n q.maxsize (q.items ++ new)
    counted : q'.accepted ≡ q.accepted + length new
    lost : q'.dropped + length q'.items ≡ q.dropped + length q.items + length new
    same_size : q'.maxsize ≡ q.maxsize
    same_policy : q'.overflow ≡ drop_oldest
    balanced : IsBalanced q'

  IsNewest-room :
      (item : A) (elapsed : ℕ) (q : BoundedAsyncQueue A)
      → length q.items < q.maxsize
      → IsBalanced q
      → q.overflow ≡ drop_oldest
      → IsNewest q (taken_in item elapsed q) (item ∷ [])
  unfolding count_accepted
  IsNewest-room item elapsed q room u policy =
      let grown = length-append q.items (item ∷ []) in
      record {
        kept = sym (last_n-short q.maxsize (q.items ++ item ∷ []) (omega (arith, grown)));
        counted = refl;
        lost = omega (arith, grown);
        same_size = refl;
        same_policy = policy;
        balanced = omega (arith, grown);
      }

  IsNewest-full :
      (item : A) (elapsed : ℕ) (q : BoundedAsyncQueue A)
      → length q.items ≡ q.maxsize
      → 0 < q.maxsize
      → IsBalanced q
      → q.overflow ≡ drop_oldest
      → IsNewest q
          (taken_in item elapsed
            (dropping (record q { items = drop 1 q.items; unfinished = q.unfinished - 1 })))
          (item ∷ [])
  unfolding count_accepted
  IsNewest-full item elapsed q full pos u policy =
      let grown = length-append q.items (item ∷ []) in
      let moved = length-append (drop 1 q.items) (item ∷ []) in
      let cut = length-drop 1 q.items in
      record {
        kept =
            sym (drop-append 1 q.items (item ∷ []) (omega arith))
            ∙ drop_at 1 (length (q.items ++ item ∷ []) - q.maxsize) (q.items ++ item ∷ [])
                (omega (arith, grown));
        counted = refl;
        lost = omega (arith, grown, moved, cut);
        same_size = refl;
        same_policy = policy;
        balanced = omega (arith, moved, cut);
      }

  put-IsNewest :
      (item : A) (elapsed : ℕ) (q : BoundedAsyncQueue A)
      → IsBounded q
      → IsBalanced q
      → q.overflow ≡ drop_oldest
      → IsNewest q (left (put item elapsed q)) (item ∷ [])
  put-IsNewest item elapsed q b u policy = elim (Bool-cases (is_full q)) [
    | inl full ↦
        rw (put_cases item elapsed q b u, full)
          (subst (λ p. IsNewest q (left (overflowed p item elapsed q)) (item ∷ [])) (sym policy)
            (IsNewest-full item elapsed q (ground arith) b.maxsize_positive u policy))
    | inr room ↦
        rw (put_cases item elapsed q b u, room)
          (IsNewest-room item elapsed q (ground arith) u policy)
  ]

  IsNewest-trans :
      {q q' q'' : BoundedAsyncQueue A} (new newer : List A)
      → IsNewest q q' new
      → IsNewest q' q'' newer
      → IsNewest q q'' (new ++ newer)
  IsNewest-trans {q = q} {q' = q'} {q'' = q''} new newer h k = record {
    kept =
        k.kept
        ∙ ap₂ (λ (n : ℕ) (l : List A). last_n n (l ++ newer)) h.same_size h.kept
        ∙ last_n-last_n-append q.maxsize (q.items ++ new) newer
        ∙ ap (last_n q.maxsize) (append_assoc q.items new newer);
    counted = omega (arith, h.counted, k.counted, length-append new newer);
    lost = omega (arith, h.lost, k.lost, length-append new newer);
    same_size = k.same_size ∙ h.same_size;
    same_policy = k.same_policy;
    balanced = k.balanced;
  }

  put_all-IsNewest :
      (puts : List (A × ℕ)) (q : BoundedAsyncQueue A)
      → IsBounded q
      → IsBalanced q
      → q.overflow ≡ drop_oldest
      → IsNewest q (put_all puts q) (offered puts)
  unfolding put_all
  put_all-IsNewest [] q b u policy = record {
    kept =
        sym (append-nil q.items)
        ∙ sym (
            last_n-short q.maxsize (q.items ++ [])
              (omega (arith, b.fits, length-append q.items [])));
    counted = omega arith;
    lost = omega arith;
    same_size = refl;
    same_policy = policy;
    balanced = u;
  }
  put_all-IsNewest ((item, elapsed) ∷ later) q b u policy =
      let one = put-IsNewest item elapsed q b u policy in
      IsNewest-trans (item ∷ []) (offered later) one (
        put_all-IsNewest later (left (put item elapsed q)) (put-IsBounded item elapsed b)
          one.balanced one.same_policy)

  length-offered : (puts : List (A × ℕ)) → length (offered puts) ≡ length puts
  length-offered [] = refl
  length-offered (put ∷ later) = omega (arith, length-offered later)

  -- A new overwriting queue takes every put, keeps just the newest items in their order, as many as
  -- it has room for, and counts every other item as dropped.
  pub put_all_newest :
      (maxsize : ℕ) (q : BoundedAsyncQueue A) (puts : List (A × ℕ))
      → new_queue maxsize drop_oldest ≡ some q
      → ((put_all puts q).items ≡ last_n maxsize (offered puts))
        × ((put_all puts q).accepted ≡ length puts)
        × ((put_all puts q).dropped ≡ length puts - maxsize)
  put_all_newest maxsize q puts e =
      let new = new_queue-IsNew maxsize drop_oldest q e in
      let n = put_all-IsNewest puts q new.bounded (ground arith) new.policy in
      let kept : (put_all puts q).items ≡ last_n maxsize (offered puts) =
        n.kept ∙ ap₂ (λ (m : ℕ) (l : List A). last_n m (l ++ offered puts)) new.size new.no_items in
      (
        kept,
        omega (arith, n.counted, new.none_accepted, length-offered puts),
        omega (
          arith,
          n.lost,
          new.none_dropped,
          ap length new.no_items,
          ap length kept,
          length-last_n maxsize (offered puts),
          length-offered puts,
        ),
      )
