-- ===== src/Engine.antt =====
-- The engine (src/jarvis_brain/engine).
pub mod StateMachine
pub mod Planner
pub mod PlanValidator
use jarvis_brain.Prelude.{
  ℕ, zero, suc, ◌+◌, ◌-◌, ◌*◌, ◌/◌, ◌%◌, ◌≤◌, ◌<◌, min, max, String, ◌≡◌, refl, sym, ap, ◌∙◌, subst,
  ◌≢◌, ◌↔◌, ◌⊎◌, inl, inr, Bool, true, false, not, ◌&&◌, ◌||◌, Option, none, some, List, [], ◌∷◌,
  ◌++◌, map, reverse, arith, ltb, leb, nat_beq, if◌then◌else◌, ltb→lt, lt→ltb, le→ltb, leb→le,
  le→leb, nat_beq_iff, Bool-cases, Option-cases, Eq, ◌==◌, nat_eq, string_eq, pair_eq, length, drop,
  last_n, keep, All, any, all, length-append, length-drop, length-last_n, contains, get_or, eq_iff,
  eq_refl, list_cases, last_n-last_n-append, last_n-short, drop-append, drop-drop, drop_at,
  drop-nil, ltb_asym, ltb_mono, dec_beq, dec_beq_iff, discrete_eq, unique, unique_from, is_subset,
  Mem, mem-cons_self, mem-cons_of_mem, all-Mem, contains-Mem, find, find-Mem, all_intro, keep-Mem,
  contains_of_Mem, All-Mem, append-eq-nil, unique-eq-nil, eq-cases, if-elim,
}
