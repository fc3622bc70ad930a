-- ===== src/Text.antt =====
-- Python's `str` methods that the code calls, on texts character by character.
use Prim.Native.Char.{Char, code}
use Prim.Native.String.{◌++◌ as concat, compare}
use text.Mathlib.Text.{is_lt}
use jarvis_brain.Prelude.{
  String, ◌≡◌, refl, Bool, true, false, ◌&&◌, ◌||◌, [], ◌∷◌, leb, nat_beq, if◌then◌else◌, ◌==◌,
  nat_eq, string_eq, pair_eq, contains, List, ℕ, zero, suc,
}

-- str.isspace of one character: the white space of Unicode and the four separators of ASCII
unfoldable pub is_space : Char → Bool
is_space c =
    let n = code c in
    (leb 9 n && leb n 13)
    || (leb 28 n && leb n 32)
    || (leb 8192 n && leb n 8202)
    || contains (133 ∷ 160 ∷ 5760 ∷ 8232 ∷ 8233 ∷ 8239 ∷ 8287 ∷ 12288 ∷ []) n

unfoldable pub lstrip : String → String
lstrip String.[] = String.[]
lstrip (String.◌∷◌ c s) = let rest = lstrip s in if is_space c then rest else String.◌∷◌ c s

unfoldable pub rstrip : String → String
rstrip String.[] = String.[]
rstrip (String.◌∷◌ c s) =
    let rest = rstrip s in if is_space c && rest == "" then "" else String.◌∷◌ c rest

abbrev pub strip : String → String
strip s = rstrip (lstrip s)

-- s.startswith(t)
unfoldable pub starts_with : String → String → Bool
starts_with s String.[] = true
starts_with String.[] (String.◌∷◌ d t) = false
starts_with (String.◌∷◌ c s) (String.◌∷◌ d t) =
    let rest = starts_with s t in nat_beq (code c) (code d) && rest

-- `t in s`
unfoldable pub is_in : String → String → Bool
is_in t String.[] = t == ""
is_in t (String.◌∷◌ c s) = let rest = is_in t s in starts_with (String.◌∷◌ c s) t || rest

-- `value or default` on texts
abbrev pub or_else : String → String → String
or_else value default = if value == "" then default else value

strip_example : strip " \t late reply\n" ≡ "late reply"
unfolding lstrip rstrip is_space contains
strip_example = refl

is_in_example : is_in "bug" "a debugger" ≡ true
unfolding is_in starts_with
is_in_example = refl

-- sep.join(parts)
unfoldable pub join : String → List String → String
join sep [] = ""
join sep (part ∷ []) = part
join sep (part ∷ other ∷ rest) = concat (concat part sep) (join sep (other ∷ rest))

-- sorted(texts), by insertion behind the texts that are not larger
unfoldable pub insert_text : String → List String → List String
insert_text s [] = s ∷ []
insert_text s (t ∷ rest) = if is_lt (compare t s) then t ∷ insert_text s rest else s ∷ t ∷ rest

unfoldable pub sorted_texts : List String → List String
sorted_texts [] = []
sorted_texts (s ∷ rest) = insert_text s (sorted_texts rest)

-- s[:n]
unfoldable pub first_chars : ℕ → String → String
first_chars zero s = ""
first_chars (suc n) String.[] = ""
first_chars (suc n) (String.◌∷◌ c s) = String.◌∷◌ c (first_chars n s)
