-- ===== src/Conversation/Sessions/Examples.antt =====
-- The memory's theorem at three turns of two users, with room for one session.
use jarvis_brain.Dict.{keys}
use jarvis_brain.Conversation.Sessions.{
  Key, ConversationManager, ConversationRole, new_turn, new_manager,
}
use jarvis_brain.Conversation.Sessions.Recency.{by_last_use}
use jarvis_brain.Conversation.Sessions.Kept.{use_all, use_all-last_n}
use jarvis_brain.Prelude.{
  ℕ, ◌≡◌, refl, none, some, List, [], ◌∷◌, map, nat_eq, string_eq, pair_eq, last_n,
}

abbrev roomy : ConversationManager ℕ
roomy = record { max_sessions = 1; turns_per_session = 8; sessions = [] }

roomy_made : new_manager 1 8 ≡ some roomy
unfolding new_manager
roomy_made = refl

abbrev calls : List (Key × ℕ)
calls = (("ada", "home"), 1) ∷ (("bob", "car"), 2) ∷ (("ada", "home"), 3) ∷ []

empty_refused : new_turn ConversationRole.user "" ≡ none
unfolding new_turn
empty_refused = refl

use_all-last_n_example :
    keys (use_all calls roomy).sessions ≡ last_n 1 (by_last_use [] (map (λ call. call.0) calls))
use_all-last_n_example = use_all-last_n 1 8 roomy calls roomy_made
