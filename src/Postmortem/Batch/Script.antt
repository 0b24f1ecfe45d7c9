-- ===== src/Postmortem/Batch/Script.antt =====
-- The lines of a batch script, and the names of its output files
-- (src/kdive/postmortem/crash/batch.py with commands.py).
use linux_debug_mcp.Base.{
  ℕ, zero, suc, ◌+◌, ◌-◌, ◌/◌, ◌%◌, ◌≡◌, refl, sym, ap, ◌∙◌, Bool, false, ◌||◌, Option, none, some,
  List, [], ◌∷◌, ◌++◌, append_assoc, append-nil, length, if◌then◌else◌, ◌==◌, arith,
}
use linux_debug_mcp.Postmortem.Commands.{
  lstrip, has_control, has_char, reject_stripped, crash_command_rejection_reason,
}
use linux_debug_mcp.Postmortem.Batch.{
  digits, zeros, four_digits, redirect_filename, mod_load_filename, joined, redirected,
  command_lines, module_lines, script_lines, unlines, build_command_script,
}

-- The lines that a reader of the script takes, each ended by a line break.
unfoldable pub split_lines : List ℕ → List ℕ → List (List ℕ)
split_lines line [] = []
split_lines line (c ∷ cs) =
    let here = split_lines [] cs in
    let longer = split_lines (line ++ c ∷ []) cs in if c == 10 then line ∷ here else longer

has_char-append :
    (c : ℕ) (xs ys : List ℕ) → has_char c (xs ++ ys) ≡ (has_char c xs || has_char c ys)
unfolding has_char
has_char-append c [] ys = refl
has_char-append c (x ∷ xs) ys = ground (arith, has_char-append c xs ys)

split_lines-line :
    (before line rest : List ℕ)
    → has_char 10 line ≡ false
    → split_lines before (line ++ 10 ∷ rest) ≡ (before ++ line) ∷ split_lines [] rest
unfolding split_lines has_char
split_lines-line before [] rest h =
    ap (λ line. line ∷ split_lines [] rest) (sym (append-nil before))
split_lines-line before (c ∷ cs) rest h =
    let later = split_lines-line (before ++ c ∷ []) cs rest in
    let moved = append_assoc before (c ∷ []) cs in ground (arith, h, later, moved)

-- No line has a line break.
abbrev pub AreLines : List (List ℕ) → Type 0
AreLines [] = Unit
AreLines (line ∷ lines) = (has_char 10 line ≡ false) × AreLines lines

split_lines-unlines :
    (lines : List (List ℕ)) → AreLines lines → split_lines [] (unlines lines) ≡ lines
unfolding split_lines unlines
split_lines-unlines [] h = refl
split_lines-unlines (line ∷ lines) h =
    split_lines-line [] line (unlines lines) h.0 ∙ ap (◌∷◌ line) (split_lines-unlines lines h.1)

-- Every command is accepted.
abbrev pub Accepted : (List ℕ → List ℕ) → (List ℕ → Bool) → List (List ℕ) → Type 0
Accepted lower allowlist [] = Unit
Accepted lower allowlist (command ∷ commands) =
    (crash_command_rejection_reason lower allowlist command ≡ none)
    × Accepted lower allowlist commands

control-has_char : (command : List ℕ) → has_control command ≡ false → has_char 10 command ≡ false
unfolding has_control has_char
control-has_char [] h = refl
control-has_char (c ∷ cs) h = ground (arith, h, control-has_char cs)

stripped-has_char :
    (lower : List ℕ → List ℕ) (allowlist : List ℕ → Bool) (command stripped : List ℕ)
    → reject_stripped lower allowlist command stripped ≡ none
    → has_char 10 command ≡ false
stripped-has_char lower allowlist command [] h = cc
stripped-has_char lower allowlist command (c ∷ cs) h = control-has_char command (ground (arith, h))

accepted-has_char :
    (lower : List ℕ → List ℕ) (allowlist : List ℕ → Bool) (command : List ℕ)
    → crash_command_rejection_reason lower allowlist command ≡ none
    → has_char 10 command ≡ false
unfolding crash_command_rejection_reason
accepted-has_char lower allowlist command h =
    stripped-has_char lower allowlist command (lstrip command) h

has_char-digits : (fuel n : ℕ) → has_char 10 (digits fuel n) ≡ false
unfolding has_char digits
has_char-digits zero n = refl
has_char-digits (suc fuel) n = ground (
  arith,
  has_char-digits fuel (n / 10),
  has_char-append 10 (digits fuel (n / 10)) ((48 + n % 10) ∷ []),
)

has_char-zeros : (n : ℕ) → has_char 10 (zeros n) ≡ false
unfolding has_char
has_char-zeros zero = refl
has_char-zeros (suc n) = ground (arith, has_char-zeros n)

has_char-redirect_filename : (index : ℕ) → has_char 10 (redirect_filename index) ≡ false
unfolding has_char redirect_filename
has_char-redirect_filename index = ground (
  arith,
  has_char-append 10 (four_digits index) (46 ∷ 111 ∷ 117 ∷ 116 ∷ []),
  has_char-append 10 (zeros (4 - length (digits (suc index) index))) (digits (suc index) index),
  has_char-zeros (4 - length (digits (suc index) index)),
  has_char-digits (suc index) index,
)

-- A line that redirects a text without line breaks to a file of the directory.
has_char-redirected :
    (command output_dir name : List ℕ)
    → has_char 10 command ≡ false
    → has_char 10 output_dir ≡ false
    → has_char 10 name ≡ false
    → has_char 10 (redirected command (joined output_dir name)) ≡ false
unfolding has_char
has_char-redirected command output_dir name h d n = ground (
  arith,
  h,
  d,
  n,
  has_char-append 10 command (32 ∷ 62 ∷ 32 ∷ joined output_dir name),
  has_char-append 10 output_dir (47 ∷ name),
)

command_lines-AreLines :
    (lower : List ℕ → List ℕ) (allowlist : List ℕ → Bool) (output_dir : List ℕ) (index : ℕ)
    (commands : List (List ℕ))
    → Accepted lower allowlist commands
    → has_char 10 output_dir ≡ false
    → AreLines (command_lines output_dir index commands)
unfolding command_lines
command_lines-AreLines lower allowlist output_dir index [] h d = tt
command_lines-AreLines lower allowlist output_dir index (command ∷ commands) (h, hs) d = (
  has_char-redirected command output_dir (redirect_filename index)
      (accepted-has_char lower allowlist command h) d (has_char-redirect_filename index),
  command_lines-AreLines lower allowlist output_dir (suc index) commands hs d,
)

AreLines-append : (xs ys : List (List ℕ)) → AreLines xs → AreLines ys → AreLines (xs ++ ys)
AreLines-append [] ys hx hy = hy
AreLines-append (x ∷ xs) ys (h, hx) hy = (h, AreLines-append xs ys hx hy)

-- A module path with no line break, or none.
abbrev pub IsOneLine : Option (List ℕ) → Type 0
IsOneLine none = Unit
IsOneLine (some path) = has_char 10 path ≡ false

module_lines-AreLines :
    (output_dir : List ℕ) (modules_path : Option (List ℕ))
    → has_char 10 output_dir ≡ false
    → IsOneLine modules_path
    → AreLines (module_lines output_dir modules_path)
unfolding has_char
module_lines-AreLines output_dir none d h = tt
module_lines-AreLines output_dir (some path) d h = (
  has_char-redirected (109 ∷ 111 ∷ 100 ∷ 32 ∷ 45 ∷ 83 ∷ 32 ∷ path) output_dir mod_load_filename
      (ground (arith, h)) d refl,
  tt,
)

-- Of accepted commands, and a directory and a module path without line breaks, the script has just
-- the lines that it is built from: the load of the modules if there is a path, one line for each
-- command, redirected to that command's own file, and `exit`. No command adds a line of its own.
pub split_lines-build_command_script :
    (lower : List ℕ → List ℕ) (allowlist : List ℕ → Bool) (commands : List (List ℕ))
    (output_dir : List ℕ) (modules_path : Option (List ℕ))
    → Accepted lower allowlist commands
    → has_char 10 output_dir ≡ false
    → IsOneLine modules_path
    → split_lines [] (build_command_script commands output_dir modules_path)
      ≡ script_lines commands output_dir modules_path
unfolding build_command_script has_char
split_lines-build_command_script lower allowlist commands output_dir modules_path accepted d h =
    split_lines-unlines (script_lines commands output_dir modules_path) (
      AreLines-append (module_lines output_dir modules_path) _
        (module_lines-AreLines output_dir modules_path d h)
        (AreLines-append (command_lines output_dir 0 commands) _
          (command_lines-AreLines lower allowlist output_dir 0 commands accepted d) (refl, tt)))
