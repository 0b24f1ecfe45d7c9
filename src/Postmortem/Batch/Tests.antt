-- ===== src/Postmortem/Batch/Tests.antt =====
-- Runs of the crash batch (src/kdive/postmortem/crash/batch.py and commands.py), and the theorems at
-- them.
use linux_debug_mcp.Base.{
  ℕ, zero, suc, ◌≡◌, ◌≤◌, ◌*◌, refl, Bool, true, false, Option, none, some, List, [], ◌∷◌, length,
  take, arith, ◌==◌,
}
use linux_debug_mcp.Postmortem.Commands.{
  lstrip, is_space, first_word, has_control, has_char, has_substitution, metacharacter,
  shell_escape, crash_command_rejection_reason, is_path_char, path_rest, validate_modules_path,
}
use linux_debug_mcp.Postmortem.Batch.{
  command_lines, script_lines, unlines, build_command_script, read_capped, collect_one,
  collect_from, collect_command_outputs,
}
use linux_debug_mcp.Postmortem.Batch.Script.{split_lines, split_lines-build_command_script}
use linux_debug_mcp.Postmortem.Batch.Outputs.{
  Accounts, returned_size, collect_command_outputs-bounded, collect_command_outputs-Accounts,
}

-- "bt", which the list allows, and " !ls", "bt|x", which are refused whatever it allows.
abbrev bt : List ℕ
bt = 98 ∷ 116 ∷ []

abbrev allows_bt : List ℕ → Bool
allows_bt (b ∷ t ∷ []) = b == 98
allows_bt _ = false

accepts_bt : crash_command_rejection_reason (λ word. word) allows_bt bt ≡ none
unfolding crash_command_rejection_reason lstrip is_space first_word has_control has_char
    has_substitution
accepts_bt = refl

refuses_escape :
    crash_command_rejection_reason (λ word. word) (λ word. true) (32 ∷ 33 ∷ 108 ∷ 115 ∷ [])
    ≡ some shell_escape
unfolding crash_command_rejection_reason lstrip is_space first_word has_control has_char
    has_substitution
refuses_escape = refl

refuses_pipe :
    crash_command_rejection_reason (λ word. word) (λ word. true) (98 ∷ 116 ∷ 124 ∷ 120 ∷ [])
    ≡ some metacharacter
unfolding crash_command_rejection_reason lstrip is_space first_word has_control has_char
    has_substitution
refuses_pipe = refl

-- "/d".
abbrev directory : List ℕ
directory = 47 ∷ 100 ∷ []

split_lines-build_command_script_example :
    split_lines [] (build_command_script (bt ∷ bt ∷ []) directory none)
    ≡ script_lines (bt ∷ bt ∷ []) directory none
unfolding has_char
split_lines-build_command_script_example =
    split_lines-build_command_script (λ word. word) allows_bt (bt ∷ bt ∷ []) directory none
      (accepts_bt, (accepts_bt, tt)) refl tt

-- The path "/m" with a line break at its end is accepted, and gives the script a third line.
abbrev broken_path : List ℕ
broken_path = 47 ∷ 109 ∷ 10 ∷ []

accepts_line_break : validate_modules_path broken_path ≡ true
unfolding validate_modules_path path_rest is_path_char
accepts_line_break = refl

adds_line :
    (length (split_lines [] (build_command_script [] directory (some broken_path))) ≡ 3)
    × (length (script_lines [] directory (some broken_path)) ≡ 2)
unfolding split_lines build_command_script unlines command_lines
adds_line = (refl, refl)

-- Bytes that decode to themselves; the second file is missing.
abbrev files : ℕ → Option (List ℕ)
files zero = some (65 ∷ 66 ∷ 67 ∷ [])
files (suc _) = none

abbrev two : List (List ℕ)
two = bt ∷ bt ∷ []

collect_command_outputs-bounded_example :
    returned_size
      (λ bytes. bytes)
      length
      (collect_command_outputs (λ bytes. bytes) length files two 2 8).0
    ≤ 3 * 8
collect_command_outputs-bounded_example =
    collect_command_outputs-bounded (λ bytes. bytes) length (λ bytes. omega arith) files two 2 8

-- Five bytes that are no UTF-8 decode to five replacement characters of three bytes each, so a total
-- cap of five is exceeded.
abbrev replaced_size : List ℕ → ℕ
replaced_size bytes = 3 * length bytes

exceeds_cap :
    returned_size
      (λ bytes. bytes)
      replaced_size
      (collect_command_outputs
        (λ bytes. bytes)
        replaced_size
        (λ index. some (255 ∷ 255 ∷ 255 ∷ 255 ∷ 255 ∷ 255 ∷ []))
        two
        5
        5).0
    ≡ 15
unfolding collect_from collect_one read_capped take
exceeds_cap = refl

collect_command_outputs-Accounts_example :
    Accounts
      (λ bytes. bytes)
      length
      files
      0
      two
      (collect_command_outputs (λ bytes. bytes) length files two 2 8).0
collect_command_outputs-Accounts_example =
    collect_command_outputs-Accounts (λ bytes. bytes) length files two 2 8
