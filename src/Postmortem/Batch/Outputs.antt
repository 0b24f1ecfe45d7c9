-- ===== src/Postmortem/Batch/Outputs.antt =====
-- What the outputs of a batch come to (src/kdive/postmortem/crash/batch.py).
use linux_debug_mcp.Base.{
  ℕ, suc, ◌+◌, ◌-◌, ◌*◌, ◌≡◌, ◌≤◌, ◌<◌, refl, ap, inl, inr, Bool-cases, Option, none, some, List,
  [], ◌∷◌, length, take, length-take-le, length-take-length, take-short, take-take-suc, ◌⊎◌, ltb,
  leb, arith,
}
use linux_debug_mcp.Postmortem.Batch.{
  Segment, Capture, captured, not_captured, output_truncated, min, read_capped, capture_of,
  collect_one, collect_from, collect_command_outputs,
}

module _ {Text : Type 0} (decode : List ℕ → Text) (encoded : Text → ℕ) where
  -- The size of the texts that are returned.
  abbrev pub raw_size : Option Text → ℕ
  raw_size none = 0
  raw_size (some text) = encoded text

  abbrev pub returned_size : List (Segment decode encoded) → ℕ
  returned_size [] = 0
  returned_size (s ∷ segments) = raw_size s.raw + returned_size segments

  module _ (widens : (bytes : List ℕ) → encoded (decode bytes) ≤ 3 * length bytes) where
    read_capped-size :
        (file : List ℕ) (cap : ℕ) → encoded (read_capped decode encoded file cap).0 ≤ 3 * cap
    unfolding read_capped
    read_capped-size file cap = elim (Bool-cases (ltb cap (length (take (suc cap) file)))) [
      | inl over ↦ rw over (
          omega (
            arith,
            widens (take cap (take (suc cap) file)),
            length-take-le cap (take (suc cap) file),
          ))
      | inr under ↦ rw under (ground (arith, under, widens (take (suc cap) file)))
    ]

    -- A round adds the size of its text, and no more than three times what the total leaves.
    collect_one-size :
        (per_cmd_cap total_cap running : ℕ) (command : List ℕ) (file : Option (List ℕ))
        → (let (segment, size) =
              collect_one decode encoded per_cmd_cap total_cap running command file in
            (raw_size segment.raw ≡ size) × (size ≤ 3 * (total_cap - running)))
    unfolding collect_one
    collect_one-size per_cmd_cap total_cap running command none = (refl, omega arith)
    collect_one-size per_cmd_cap total_cap running command (some file) =
        elim (Bool-cases (leb total_cap running)) [
          | inl full ↦ rw full (refl, omega arith)
          | inr free ↦
              rw free (
                refl,
                ground (arith, read_capped-size file (min per_cmd_cap (total_cap - running))),
              )
        ]

    collect_from-size :
        (files : ℕ → Option (List ℕ)) (per_cmd_cap total_cap index running : ℕ)
        (commands : List (List ℕ))
        → running ≤ 3 * total_cap
        → running
            + returned_size
                (collect_from decode encoded files per_cmd_cap total_cap index running commands)
          ≤ 3 * total_cap
    unfolding collect_from
    collect_from-size files per_cmd_cap total_cap index running [] h = omega arith
    collect_from-size files per_cmd_cap total_cap index running (command ∷ commands) h =
        let (same, small) = collect_one-size per_cmd_cap total_cap running command (files index) in
        let size =
          (collect_one decode encoded per_cmd_cap total_cap running command (files index)).1 in
        let later =
          collect_from-size files per_cmd_cap total_cap (suc index) (running + size) commands
            (omega arith) in
        omega (arith, same, later)

    -- Where no text is more than three times as long in UTF-8 as the bytes that it was decoded from,
    -- the returned texts come to three times the total cap at most, however many commands there are
    -- and however large their outputs.
    pub collect_command_outputs-bounded :
        (files : ℕ → Option (List ℕ)) (commands : List (List ℕ)) (per_cmd_cap total_cap : ℕ)
        → returned_size
            (collect_command_outputs decode encoded files commands per_cmd_cap total_cap).0
          ≤ 3 * total_cap
    collect_command_outputs-bounded files commands per_cmd_cap total_cap =
        omega (arith, collect_from-size files per_cmd_cap total_cap 0 0 commands (omega arith))

  -- What a segment says of the file of its command: the whole file was read; there was none; or
  -- only its beginning was read, or nothing of it.
  abbrev pub Tells : Capture → Option (List ℕ) → Option Text → Type 0
  Tells captured file raw = (bytes : List ℕ) × (file ≡ some bytes) × (raw ≡ some (decode bytes))
  Tells not_captured file raw = (file ≡ none) × (raw ≡ none)
  Tells output_truncated file raw =
      (bytes : List ℕ) × (file ≡ some bytes)
      × ((raw ≡ none) ⊎ ((n : ℕ) × (n < length bytes) × (raw ≡ some (decode (take n bytes)))))

  abbrev pub Accounts :
      (ℕ → Option (List ℕ)) → ℕ → List (List ℕ) → List (Segment decode encoded) → Type 0
  Accounts files index [] [] = Unit
  Accounts files index (command ∷ commands) (s ∷ segments) =
      (s.command ≡ command)
      × Tells s.capture (files index) s.raw
      × Accounts files (suc index) commands segments
  Accounts files index [] (s ∷ segments) = ⊥
  Accounts files index (command ∷ commands) [] = ⊥

  read_capped-Tells :
      (file : List ℕ) (cap : ℕ)
      → (let (text, hit_cap) = read_capped decode encoded file cap in
          Tells (capture_of hit_cap) (some file) (some text))
  unfolding read_capped
  read_capped-Tells file cap = elim (Bool-cases (ltb cap (length (take (suc cap) file)))) [
    | inl over ↦ rw over (
      file,
      refl,
      inr (
        cap,
        ground (arith, over, length-take-length (suc cap) file),
        ap (λ bytes. some (decode bytes)) (take-take-suc cap file),
      ),
    )
    | inr under ↦ rw under (
      file,
      refl,
      ap (λ bytes. some (decode bytes)) (take-short cap file (ground (arith, under))),
    )
  ]

  collect_one-Tells :
      (per_cmd_cap total_cap running : ℕ) (command : List ℕ) (file : Option (List ℕ))
      → (let s = (collect_one decode encoded per_cmd_cap total_cap running command file).0 in
          (s.command ≡ command) × Tells s.capture file s.raw)
  unfolding collect_one
  collect_one-Tells per_cmd_cap total_cap running command none = (refl, (refl, refl))
  collect_one-Tells per_cmd_cap total_cap running command (some file) =
      elim (Bool-cases (leb total_cap running)) [
        | inl full ↦ rw full (refl, (file, refl, inl refl))
        | inr free ↦ rw free (refl, read_capped-Tells file (min per_cmd_cap (total_cap - running)))
      ]

  collect_from-Accounts :
      (files : ℕ → Option (List ℕ)) (per_cmd_cap total_cap index running : ℕ)
      (commands : List (List ℕ))
      → Accounts files index commands
          (collect_from decode encoded files per_cmd_cap total_cap index running commands)
  unfolding collect_from
  collect_from-Accounts files per_cmd_cap total_cap index running [] = tt
  collect_from-Accounts files per_cmd_cap total_cap index running (command ∷ commands) =
      let (same, tells) = collect_one-Tells per_cmd_cap total_cap running command (files index) in
      (
        same,
        tells,
        collect_from-Accounts files per_cmd_cap total_cap (suc index)
            (running
              + (collect_one decode encoded per_cmd_cap total_cap running command (files index)).1)
            commands,
      )

  -- The collected segments answer the commands one by one, in their order. A segment says `ok` with
  -- the text of the whole file, `not_captured` just where the file is missing, and
  -- `output_truncated` with the text of a proper beginning of the file, or with no text.
  pub collect_command_outputs-Accounts :
      (files : ℕ → Option (List ℕ)) (commands : List (List ℕ)) (per_cmd_cap total_cap : ℕ)
      → Accounts files 0 commands
          (collect_command_outputs decode encoded files commands per_cmd_cap total_cap).0
  collect_command_outputs-Accounts files commands per_cmd_cap total_cap =
      collect_from-Accounts files per_cmd_cap total_cap 0 0 commands
