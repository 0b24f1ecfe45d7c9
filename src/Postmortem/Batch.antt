-- ===== src/Postmortem/Batch.antt =====
-- The script of a crash batch and the collection of its outputs
-- (src/kdive/postmortem/crash/batch.py). A text is the list of its code points. A path is its text; the
-- files of the output directory are an argument, each with its bytes.
pub mod Script
pub mod Filenames
pub mod Outputs
mod Tests
use linux_debug_mcp.Base.{
  ℕ, zero, suc, ◌+◌, ◌-◌, ◌*◌, ◌/◌, ◌%◌, Bool, true, false, Option, none, some, List, [], ◌∷◌, ◌++◌,
  length, take, if◌then◌else◌, ltb, leb, ◌||◌,
}

-- The decimal digits; the fuel is the number of them at most.
unfoldable pub digits : ℕ → ℕ → List ℕ
digits zero n = []
digits (suc fuel) n =
    let rest = digits fuel (n / 10) in
    if ltb n 10 then (48 + n) ∷ [] else rest ++ (48 + n % 10) ∷ []

abbrev pub zeros : ℕ → List ℕ
zeros zero = []
zeros (suc n) = 48 ∷ zeros n

-- `f"{index:04d}"`.
abbrev pub four_digits : ℕ → List ℕ
four_digits index = let d = digits (suc index) index in zeros (4 - length d) ++ d

-- "cmd-", ".out".
unfoldable pub redirect_filename : ℕ → List ℕ
redirect_filename index = 99 ∷ 109 ∷ 100 ∷ 45 ∷ four_digits index ++ 46 ∷ 111 ∷ 117 ∷ 116 ∷ []

-- "mod-load.out".
abbrev pub mod_load_filename : List ℕ
mod_load_filename = 109 ∷ 111 ∷ 100 ∷ 45 ∷ 108 ∷ 111 ∷ 97 ∷ 100 ∷ 46 ∷ 111 ∷ 117 ∷ 116 ∷ []

-- `output_dir / name`.
abbrev pub joined : List ℕ → List ℕ → List ℕ
joined output_dir name = output_dir ++ 47 ∷ name

-- " > " before the file.
abbrev pub redirected : List ℕ → List ℕ → List ℕ
redirected command file = command ++ 32 ∷ 62 ∷ 32 ∷ file

unfoldable pub command_lines : List ℕ → ℕ → List (List ℕ) → List (List ℕ)
command_lines output_dir index [] = []
command_lines output_dir index (command ∷ commands) =
    redirected command (joined output_dir (redirect_filename index))
    ∷ command_lines output_dir (suc index) commands

-- "mod -S " before the path.
abbrev pub module_lines : List ℕ → Option (List ℕ) → List (List ℕ)
module_lines output_dir none = []
module_lines output_dir (some path) =
    redirected (109 ∷ 111 ∷ 100 ∷ 32 ∷ 45 ∷ 83 ∷ 32 ∷ path) (joined output_dir mod_load_filename)
    ∷ []

-- "exit".
abbrev pub script_lines : List (List ℕ) → List ℕ → Option (List ℕ) → List (List ℕ)
script_lines commands output_dir modules_path =
    module_lines output_dir modules_path
    ++ (command_lines output_dir 0 commands ++ (101 ∷ 120 ∷ 105 ∷ 116 ∷ []) ∷ [])

-- `"\n".join(lines) + "\n"`, of at least one line.
unfoldable pub unlines : List (List ℕ) → List ℕ
unlines [] = []
unlines (line ∷ lines) = line ++ 10 ∷ unlines lines

unfoldable pub build_command_script : List (List ℕ) → List ℕ → Option (List ℕ) → List ℕ
build_command_script commands output_dir modules_path =
    unlines (script_lines commands output_dir modules_path)

pub data Capture : Type 0 where
  captured not_captured output_truncated : Capture

abbrev pub min : ℕ → ℕ → ℕ
min a b = if leb a b then a else b

abbrev pub capture_of : Bool → Capture
capture_of true = output_truncated
capture_of false = captured

abbrev pub is_truncated : Capture → Bool
is_truncated output_truncated = true
is_truncated _ = false

-- `decode("utf-8", errors="replace")` and `len(text.encode("utf-8"))` are Python's.
module _ {Text : Type 0} (decode : List ℕ → Text) (encoded : Text → ℕ) where
  pub record Segment : Type 0 where
    pub command : List ℕ
    pub raw : Option Text
    pub capture : Capture

  -- What `_read_capped` gives: the text, and whether the cap was hit.
  unfoldable pub read_capped : List ℕ → ℕ → Text × Bool
  read_capped file cap =
      let data_read = take (suc cap) file in
      if ltb cap (length data_read)
      then (decode (take cap data_read), true)
      else (decode data_read, false)

  abbrev pub read_segment : List ℕ → Text × Bool → Segment
  read_segment command (text, hit_cap) = record {
    command = command;
    raw = some text;
    capture = capture_of hit_cap;
  }

  abbrev pub empty_segment : List ℕ → Capture → Segment
  empty_segment command capture = record { command = command; raw = none; capture = capture }

  -- One round: the segment of a command, and what its text adds to the running total.
  unfoldable pub collect_one : ℕ → ℕ → ℕ → List ℕ → Option (List ℕ) → Segment × ℕ
  unfolding read_capped
  collect_one per_cmd_cap total_cap running command none = (empty_segment command not_captured, 0)
  collect_one per_cmd_cap total_cap running command (some file) =
      if leb total_cap running then (empty_segment command output_truncated, 0) else (
        read_segment command (read_capped file (min per_cmd_cap (total_cap - running))),
        encoded (read_capped file (min per_cmd_cap (total_cap - running))).0,
      )

  -- The loop; `files index` is what `cmd-NNNN.out` holds, if it is there.
  unfoldable pub collect_from : (ℕ → Option (List ℕ)) → ℕ → ℕ → ℕ → ℕ → List (List ℕ) → List Segment
  collect_from files per_cmd_cap total_cap index running [] = []
  collect_from files per_cmd_cap total_cap index running (command ∷ commands) =
      let (segment, size) = collect_one per_cmd_cap total_cap running command (files index) in
      segment ∷ collect_from files per_cmd_cap total_cap (suc index) (running + size) commands

  -- The flag is set in the rounds that append a truncated segment.
  unfoldable pub any_truncated : List Segment → Bool
  any_truncated [] = false
  any_truncated (s ∷ segments) = is_truncated s.capture || any_truncated segments

  abbrev pub collect_command_outputs :
      (ℕ → Option (List ℕ)) → List (List ℕ) → ℕ → ℕ → List Segment × Bool
  collect_command_outputs files commands per_cmd_cap total_cap =
      let segments = collect_from files per_cmd_cap total_cap 0 0 commands in
      (segments, any_truncated segments)
