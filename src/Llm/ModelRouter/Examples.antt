-- ===== src/Llm/ModelRouter/Examples.antt =====
-- A search for "bug", where the letters are the characters of words.
use Prim.Native.Char.{Char, code}
use jarvis_brain.Text.{is_in, starts_with}
use jarvis_brain.Llm.ModelRouter.{
  contains_keyword, search_from, matches_word, starts_word, detected, planning,
}
use jarvis_brain.Llm.ModelRouter.Words.{IsWordOf, contains_keyword_iff}
use jarvis_brain.Prelude.{
  ◌≡◌, refl, ◌↔◌, Bool, true, false, ◌&&◌, leb, nat_eq, string_eq, pair_eq, any,
}

abbrev is_letter : Char → Bool
is_letter c = leb 97 (code c) && leb (code c) 122

contains_keyword_iff_example :
    (contains_keyword is_letter "a bug, no debugger" "bug" ≡ true)
    ↔ IsWordOf is_letter false "bug" "a bug, no debugger"
contains_keyword_iff_example = contains_keyword_iff is_letter "a bug, no debugger" "bug"

no_bug : contains_keyword is_letter "a debugger" "bug" ≡ false
unfolding search_from matches_word starts_word
no_bug = refl

a_bug : contains_keyword is_letter "a bug, no debugger" "bug" ≡ true
unfolding search_from matches_word starts_word
a_bug = refl

a_plan : detected is_letter "plan the debugger" ≡ planning
unfolding detected search_from matches_word starts_word is_in starts_with any
a_plan = refl
