-- ===== src/Symbols/BuildId/Tests.antt =====
-- Runs of the build-id parser (src/kdive/symbols/build_id.py), and the theorems at them.
use linux_debug_mcp.Base.{ℕ, ◌≡◌, refl, List, [], ◌∷◌, ◌++◌, take, drop, some, ok, err, arith}
use linux_debug_mcp.Symbols.BuildId.{
  ElfError, Endian, hex, scan, scan_notes, read_note, unpack, read_exact, scan_headers,
  read_program_headers, identify, class_of, endian_of, read_elf_build_id,
}
use linux_debug_mcp.Symbols.BuildId.Bounds.{IsServed, read_elf_build_id-IsServed}
use linux_debug_mcp.Symbols.BuildId.Entries.{IsHexOf, Entry, encode_entry, encode_entries}
use linux_debug_mcp.Symbols.BuildId.RoundTrip.{scan-encode_entries}

-- A note of another kind, whose name and contents need padding.
abbrev abi_tag : Entry
abi_tag = record { name = 71 ∷ 78 ∷ 85 ∷ 0 ∷ []; desc = 1 ∷ 2 ∷ 3 ∷ []; type = 1 }

abbrev gnu_id : Entry
gnu_id = record { name = 71 ∷ 78 ∷ 85 ∷ 0 ∷ []; desc = 171 ∷ 205 ∷ 7 ∷ []; type = 3 }

scan-encode_entries_example :
    (text : List ℕ) × (scan
        (encode_entries Endian.big (abi_tag ∷ []) ++ (encode_entry Endian.big gnu_id ++ 9 ∷ []))
        Endian.big
      ≡ ok (some text))
    × IsHexOf text (171 ∷ 205 ∷ 7 ∷ [])
scan-encode_entries_example =
    scan-encode_entries Endian.big (abi_tag ∷ []) gnu_id (9 ∷ [])
      ((omega arith, omega arith, omega arith), (λ (type, name). ground arith), tt)
      (omega arith, omega arith, omega arith) (refl, (1, refl))
      (omega arith, (omega arith, (omega arith, tt)))

abbrev zeros_16 : List ℕ
zeros_16 = 0 ∷ 0 ∷ 0 ∷ 0 ∷ 0 ∷ 0 ∷ 0 ∷ 0 ∷ 0 ∷ 0 ∷ 0 ∷ 0 ∷ 0 ∷ 0 ∷ 0 ∷ 0 ∷ []

-- A little-endian 64-bit file with one program header, a note segment of this size at byte 120
-- plus 2 ** 56 times `far`.
abbrev elf : ℕ → ℕ → List ℕ → List ℕ
elf far size segment =
    (127 ∷ 69 ∷ 76 ∷ 70 ∷ 2 ∷ 1 ∷ 0 ∷ 0 ∷ 0 ∷ 0 ∷ 0 ∷ 0 ∷ 0 ∷ 0 ∷ 0 ∷ 0 ∷ [])
    ++ (zeros_16
        ++ ((64 ∷ 0 ∷ 0 ∷ 0 ∷ 0 ∷ 0 ∷ 0 ∷ 0 ∷ 0 ∷ 0 ∷ 0 ∷ 0 ∷ 0 ∷ 0 ∷ 0 ∷ 0 ∷ [])
            ++ ((0 ∷ 0 ∷ 0 ∷ 0 ∷ 0 ∷ 0 ∷ 56 ∷ 0 ∷ 1 ∷ 0 ∷ 0 ∷ 0 ∷ 0 ∷ 0 ∷ 0 ∷ 0 ∷ [])
                ++ ((4 ∷ 0 ∷ 0 ∷ 0 ∷ 0 ∷ 0 ∷ 0 ∷ 0 ∷ 120 ∷ 0 ∷ 0 ∷ 0 ∷ 0 ∷ 0 ∷ 0 ∷ far ∷ [])
                    ++ (zeros_16
                        ++ ((size ∷ 0 ∷ 0 ∷ 0 ∷ 0 ∷ 0 ∷ 0 ∷ 0 ∷ 0 ∷ 0 ∷ 0 ∷ 0 ∷ 0 ∷ 0 ∷ 0 ∷ 0 ∷ [])
                            ++ ((0 ∷ 0 ∷ 0 ∷ 0 ∷ 0 ∷ 0 ∷ 0 ∷ 0 ∷ []) ++ segment)))))))

reads_id :
    read_elf_build_id (elf 0 20 (encode_entry Endian.little gnu_id))
    ≡ ok (97 ∷ 98 ∷ 99 ∷ 100 ∷ 48 ∷ 55 ∷ [])
unfolding hex scan_notes read_note unpack read_exact scan_headers read_program_headers identify
    class_of endian_of read_elf_build_id take drop
reads_id = refl

-- A segment past the end of the file, and one at 2 ** 63 or more, which `seek` refuses.
reads_past_end : read_elf_build_id (elf 1 20 []) ≡ err ElfError.truncated
unfolding unpack read_exact scan_headers read_program_headers identify class_of endian_of
    read_elf_build_id take drop
reads_past_end = refl

seeks_too_far : read_elf_build_id (elf 128 20 []) ≡ err ElfError.offset_overflow
unfolding unpack read_exact scan_headers read_program_headers identify class_of endian_of
    read_elf_build_id take drop
seeks_too_far = refl

read_elf_build_id-IsServed_example :
    IsServed (read_elf_build_id (elf 0 20 (encode_entry Endian.little gnu_id)))
read_elf_build_id-IsServed_example =
    read_elf_build_id-IsServed (elf 0 20 (encode_entry Endian.little gnu_id))
