-- ===== src/Postmortem/Commands.antt =====
-- Which commands and module paths are accepted (src/kdive/postmortem/crash/commands.py). A text is
-- the list of its code points; `str.lower` is Python's, and a parameter.
use linux_debug_mcp.Base.{
  ℕ, Bool, true, false, ◌&&◌, ◌||◌, Option, none, some, List, [], ◌∷◌, if◌then◌else◌, ltb, leb,
  ◌==◌,
}

abbrev pub is_between : ℕ → ℕ → ℕ → Bool
is_between low high c = leb low c && leb c high

-- The characters that `str.strip` and `str.split` take for white space.
unfoldable pub is_space : ℕ → Bool
is_space c =
    is_between 9 13 c
    || is_between 28 32 c
    || (c == 133)
    || (c == 160)
    || (c == 5760)
    || is_between 8192 8202 c
    || (c == 8232)
    || (c == 8233)
    || (c == 8239)
    || (c == 8287)
    || (c == 12288)

unfoldable pub lstrip : List ℕ → List ℕ
lstrip [] = []
lstrip (c ∷ cs) = let rest = lstrip cs in if is_space c then rest else c ∷ cs

-- `stripped.split()[0]` of a text that does not begin with white space.
unfoldable pub first_word : List ℕ → List ℕ
first_word [] = []
first_word (c ∷ cs) = let rest = first_word cs in if is_space c then [] else c ∷ rest

-- `[\x00-\x1f\x7f]`.
abbrev pub is_control : ℕ → Bool
is_control c = ltb c 32 || (c == 127)

unfoldable pub has_control : List ℕ → Bool
has_control [] = false
has_control (c ∷ cs) = is_control c || has_control cs

-- `token in command`, for the tokens of `_DENY_CHARS`: a character, and `$(`.
unfoldable pub has_char : ℕ → List ℕ → Bool
has_char token [] = false
has_char token (c ∷ cs) = (c == token) || has_char token cs

abbrev pub begins_with : ℕ → List ℕ → Bool
begins_with c [] = false
begins_with c (d ∷ ds) = d == c

unfoldable pub has_substitution : List ℕ → Bool
has_substitution [] = false
has_substitution (c ∷ cs) = ((c == 36) && begins_with 40 cs) || has_substitution cs

pub data Rejection : Type 0 where
  empty_command control_character shell_escape : Rejection
  metacharacter : Rejection
  not_allowed : List ℕ → Rejection

abbrev pub has_metacharacter : List ℕ → Bool
has_metacharacter command =
    has_char 124 command
    || has_char 62 command
    || has_char 60 command
    || has_char 96 command
    || has_substitution command
    || has_char 59 command
    || has_char 38 command

-- The allowlist is its membership test. White space at the end of the command takes no part in
-- the answer.
abbrev pub reject_stripped :
    (List ℕ → List ℕ) → (List ℕ → Bool) → List ℕ → List ℕ → Option Rejection
reject_stripped lower allowlist command [] = some empty_command
reject_stripped lower allowlist command (c ∷ cs) =
    if has_control command
    then some control_character
    else if c == 33
    then some shell_escape
    else if has_metacharacter command
    then some metacharacter
    else if allowlist (lower (first_word (c ∷ cs)))
    then none
    else some (not_allowed (lower (first_word (c ∷ cs))))

unfoldable pub crash_command_rejection_reason :
    (List ℕ → List ℕ) → (List ℕ → Bool) → List ℕ → Option Rejection
crash_command_rejection_reason lower allowlist command =
    reject_stripped lower allowlist command (lstrip command)

-- `[A-Za-z0-9._/-]`.
unfoldable pub is_path_char : ℕ → Bool
is_path_char c = is_between 65 90 c || is_between 97 122 c || is_between 45 57 c || (c == 95)

-- The rest of a match of `+$`: the dollar also matches before a line break at the end.
unfoldable pub path_rest : List ℕ → Bool
path_rest [] = true
path_rest (c ∷ []) = is_path_char c || (c == 10)
path_rest (c ∷ d ∷ cs) = is_path_char c && path_rest (d ∷ cs)

unfoldable pub validate_modules_path : List ℕ → Bool
validate_modules_path [] = false
validate_modules_path (c ∷ cs) = is_path_char c && path_rest cs
