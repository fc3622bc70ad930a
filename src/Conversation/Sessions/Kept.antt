-- ===== src/Conversation/Sessions/Kept.antt =====
-- Which sessions are kept: the most recently used ones
-- (src/jarvis_brain/conversation/manager.py).
use jarvis_brain.Dict.{get, remove, keys}
use jarvis_brain.Conversation.Sessions.{
  Key, ConversationManager, evict, new_manager, context, existing_or_new,
}
use jarvis_brain.Conversation.Sessions.Recency.{
  without, use_key, Distinct, evict-use_key, evict_long, evict_short, without-Distinct,
  snoc-Distinct, without_self, by_last_use, keys-remove, keys-snoc, keys-evict,
}
use jarvis_brain.Prelude.{
  ℕ, suc, ◌-◌, ◌≡◌, refl, sym, ap, ◌∙◌, subst, inl, inr, ◌||◌, none, some, List, [], ◌∷◌, ◌++◌, map,
  arith, ltb, Bool-cases, Eq, nat_eq, string_eq, pair_eq, length, last_n, last_n-short, drop_at,
  drop-nil, if-elim,
}

evict-last_n {ℓ} : {A : Type ℓ} ⦃e : Eq A⦄ (m : ℕ) (xs : List A) → evict m xs ≡ last_n m xs
unfolding evict
evict-last_n m [] = sym (drop-nil (0 - m))
evict-last_n m (x ∷ xs) = elim (Bool-cases (ltb m (length (x ∷ xs)))) [
  | inl long ↦
      evict_long m x xs long
      ∙ evict-last_n m xs
      ∙ sym (drop_at (length (x ∷ xs) - m) (suc (length xs - m)) (x ∷ xs) (ground (arith, long)))
  | inr short ↦ evict_short m x xs short ∙ sym (last_n-short m (x ∷ xs) (ground (arith, short)))
]

module _ {B : Type 0} where
  -- A history of turns: the session of each, and the brain that a new session would get.
  unfoldable pub use_all : List (Key × B) → ConversationManager B → ConversationManager B
  use_all [] m = m
  use_all ((key, fork) ∷ later) m = use_all later (context key fork m).1

  context-keys :
      (key : Key) (fork : B) (m : ConversationManager B)
      → keys (context key fork m).1.sessions ≡ evict m.max_sessions (use_key key (keys m.sessions))
  unfolding context
  context-keys key fork m =
      keys-evict m.max_sessions _
      ∙ ap (evict m.max_sessions) (
          keys-snoc (remove m.sessions key) key (existing_or_new fork (get m.sessions key))
          ∙ ap (λ r. r ++ key ∷ []) (keys-remove m.sessions key))

  use_all-keys :
      (calls : List (Key × B)) (m : ConversationManager B) (used : List Key)
      → Distinct used
      → keys m.sessions ≡ evict m.max_sessions used
      → keys (use_all calls m).sessions
        ≡ evict m.max_sessions (by_last_use used (map (λ call. call.0) calls))
  unfolding use_all by_last_use context
  use_all-keys [] m used d e = e
  use_all-keys ((key, fork) ∷ later) m used d e =
      use_all-keys later (context key fork m).1 (use_key key used)
        (snoc-Distinct key (without key used) (without_self key used) (without-Distinct key used d))
        (context-keys key fork m
          ∙ ap (λ r. evict m.max_sessions (use_key key r)) e
          ∙ evict-use_key m.max_sessions key used d)

  manager_some-inj : {m n : ConversationManager B} → some m ≡ some n → m ≡ n
  manager_some-inj e = cc

  -- A manager keeps just the sessions that were used last: after any history of turns, of any number of
  -- users and sessions, its sessions are the last `max_sessions` of the distinct ones in the order of
  -- their last turns.
  pub use_all-last_n :
      (max_sessions turns_per_session : ℕ) (m : ConversationManager B) (calls : List (Key × B))
      → new_manager max_sessions turns_per_session ≡ some m
      → keys (use_all calls m).sessions
        ≡ last_n max_sessions (by_last_use [] (map (λ call. call.0) calls))
  unfolding new_manager evict
  use_all-last_n max_sessions turns_per_session m calls made =
      if-elim
        (λ o.
          o ≡ some m
          → keys (use_all calls m).sessions
            ≡ last_n max_sessions (by_last_use [] (map (λ call. call.0) calls)))
        (ltb max_sessions 1 || ltb turns_per_session 2) none _
        (λ few nothing. absurd (ground (arith, nothing)))
        (λ enough it.
          subst
            (λ n.
              keys (use_all calls n).sessions
              ≡ last_n max_sessions (by_last_use [] (map (λ call. call.0) calls)))
            (manager_some-inj it) (use_all-keys calls _ [] tt refl ∙ evict-last_n max_sessions _))
        made
