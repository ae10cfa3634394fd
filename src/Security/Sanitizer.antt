-- ===== src/Security/Sanitizer.antt =====
-- `InputSanitizer` of librarian/ai_security.py. A pattern is a parameter: its flag, and if it is
-- found in a text.
use Prim.Native.String.{◌++◌}
use text.Mathlib.Text.{find?}
use mathlib.Core.List.{◌++◌ as append}
use Prim.Native.Char.{Char}
use log_librarian.Prelude.{
  ℕ, zero, suc, String, Bool, false, not, ◌||◌, none, some, List, [], ◌∷◌, ltb, length, str_eq,
  if◌then◌else◌,
}
use log_librarian.Prelude.Text.{first_chars, count_chars}

pub record SanitizationResult : Type 0 where
  pub original : String
  pub sanitized : String
  pub was_modified : Bool
  pub flags : List String

abbrev pub max_input_length : ℕ
max_input_length = 10000

abbrev pub max_line_count : ℕ
max_line_count = 100

-- The text of one character.
abbrev pub one_char : Char → String
one_char c = String.◌∷◌ c ""

-- `text.split('\n')`
unfoldable pub split_lines : String → List String
split_lines String.[] = "" ∷ []
split_lines (String.◌∷◌ c s) =
    let rest = split_lines s in
    if str_eq (one_char c) "\n"
    then "" ∷ rest
    else elim rest [ [] ↦ one_char c ∷ [] | line ∷ lines ↦ String.◌∷◌ c line ∷ lines ]

-- `'\n'.join(lines)`
unfoldable pub join_lines : List String → String
join_lines [] = ""
join_lines (line ∷ []) = line
join_lines (line ∷ next ∷ lines) = line ++ "\n" ++ join_lines (next ∷ lines)

-- `lines[:n]`
unfoldable pub first_lines : ℕ → List String → List String
first_lines zero lines = []
first_lines (suc n) [] = []
first_lines (suc n) (line ∷ lines) = line ∷ first_lines n lines

-- `text.replace(char, replacement)`
unfoldable pub replace_char : String → String → String → String
replace_char char replacement String.[] = ""
replace_char char replacement (String.◌∷◌ c s) =
    let rest = replace_char char replacement s in
    if str_eq (one_char c) char then replacement ++ rest else String.◌∷◌ c rest

-- `DANGEROUS_CHARS`
abbrev pub dangerous_chars : List (String × String)
dangerous_chars = ("\0", "") ∷ ("\u{1b}", "") ∷ ("\r", "\n") ∷ []

-- The flags of `is_safe`
abbrev pub dangerous_flags : List String
dangerous_flags =
    "sql_injection" ∷ "command_injection" ∷ "prompt_injection" ∷ "role_override" ∷ "system_prompt"
    ∷ "command_substitution" ∷ "backtick_execution" ∷ "path_traversal" ∷ []

unfoldable pub has_text : String → List String → Bool
has_text text [] = false
has_text text (t ∷ ts) = str_eq t text || has_text text ts

unfoldable pub shares_text : List String → List String → Bool
unfolding has_text
shares_text [] ts = false
shares_text (s ∷ ss) ts = has_text s ts || shares_text ss ts

-- A text with the flags that a step adds.
abbrev pub Flagged : Type 0
Flagged = String × List String

-- The steps 1 and 2
unfoldable pub cut_length : String → Flagged
unfolding first_chars count_chars
cut_length text =
    if ltb max_input_length (count_chars text)
    then (first_chars max_input_length text, "truncated" ∷ [])
    else (text, [])

unfoldable pub cut_lines : Flagged → Flagged
unfolding split_lines join_lines first_lines
cut_lines (text, flags) =
    let lines = split_lines text in
    if ltb max_line_count (length lines)
    then (join_lines (first_lines max_line_count lines), append flags ("lines_truncated" ∷ []))
    else (text, flags)

-- The step 3
unfoldable pub remove_chars : List (String × String) → Flagged → Flagged
unfolding replace_char
remove_chars [] f = f
remove_chars ((char, replacement) ∷ chars) (text, flags) = elim (find? text char) [
  | none ↦ remove_chars chars (text, flags)
  | some _ ↦
      remove_chars chars
        (replace_char char replacement text, append flags ("dangerous_chars_removed" ∷ []))
]

-- `normalize` is the three steps on white space.
module _ (patterns : List ((String → Bool) × String)) (normalize : String → String) where
  -- The step 4: the flags of the patterns that are found.
  unfoldable pub found_flags : List ((String → Bool) × String) → String → List String
  found_flags [] text = []
  found_flags ((search, flag) ∷ rest) text =
      let more = found_flags rest text in if search text then flag ∷ more else more

  unfoldable pub sanitize : String → SanitizationResult
  unfolding cut_length cut_lines remove_chars found_flags
  sanitize String.[] = record { original = ""; sanitized = ""; was_modified = false; flags = [] }
  sanitize (String.◌∷◌ c s) =
      let original = String.◌∷◌ c s in
      let (text, flags) = remove_chars dangerous_chars (cut_lines (cut_length original)) in
      record {
        original = original;
        sanitized = normalize text;
        was_modified = not (str_eq (normalize text) original);
        flags = append flags (found_flags patterns text);
      }

  unfoldable pub is_safe : String → Bool
  unfolding sanitize shares_text
  is_safe text = not (shares_text (sanitize text).flags dangerous_flags)
