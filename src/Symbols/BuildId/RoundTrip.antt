-- ===== src/Symbols/BuildId/RoundTrip.antt =====
-- The scan of notes that were written (`_scan_notes` of src/kdive/symbols/build_id.py).
use linux_debug_mcp.Base.{
  ℕ, zero, suc, ◌+◌, ◌%◌, ◌≡◌, ◌≤◌, refl, sym, ap, ◌∙◌, true, false, some, List, [], ◌∷◌, ◌++◌,
  length, length-append, append_assoc, ok, arith,
}
use linux_debug_mcp.Symbols.BuildId.{Endian, next_at, read_note, scan_notes, scan, hex}
use linux_debug_mcp.Symbols.BuildId.Entries.{
  Entry, encode_entry, encode_entries, Fits, IsBuildId, IsBuildId-true, IsBuildId-false, AllBytes,
  IsHexOf, hex-IsHexOf, is_build_id, AllOthers, length-entry, note_lem, blob,
}

-- The fuel that one round per entry takes.
abbrev rounds : List Entry → ℕ
rounds [] = 1
rounds (e ∷ es) = suc (rounds es)

length-rounds :
    (endian : Endian) (es : List Entry) → rounds es ≤ length (encode_entries endian es) + 1
length-rounds endian [] = omega arith
length-rounds endian (e ∷ es) = omega (
  arith,
  length-append (encode_entry endian e) (encode_entries endian es),
  length-entry endian e,
  length-rounds endian es,
)

none_left : (es : List Entry) → rounds es ≤ 0 → ⊥
none_left [] h = omega arith
none_left (e ∷ es) h = omega arith

-- A round over an entry that is no build id goes on behind it.
passes :
    (endian : Endian) (done : List ℕ) (e : Entry) (rest : List ℕ)
    → length done % 4 ≡ 0
    → Fits e
    → is_build_id e ≡ false
    → read_note (done ++ (encode_entry endian e ++ rest)) endian (length done)
      ≡ ok (next_at (length (done ++ encode_entry endian e)))
passes endian done e rest aligned fits other =
    rw (note_lem endian done e rest aligned fits, other, length-append done (encode_entry endian e))
      refl

scan_next :
    (endian : Endian) (blob : List ℕ) (fuel off off' : ℕ)
    → read_note blob endian off ≡ ok (next_at off')
    → scan_notes (suc fuel) blob endian off ≡ scan_notes fuel blob endian off'
unfolding scan_notes
scan_next endian blob fuel off off' h = rw h refl

scan_notes_lem :
    (endian : Endian) (done : List ℕ) (before : List Entry) (wanted : Entry) (after : List ℕ)
    (fuel : ℕ)
    → length done % 4 ≡ 0
    → AllOthers before
    → Fits wanted
    → is_build_id wanted ≡ true
    → rounds before ≤ fuel
    → scan_notes fuel
        (done ++ (encode_entries endian before ++ (encode_entry endian wanted ++ after)))
        endian
        (length done)
      ≡ ok (some (hex wanted.desc))
unfolding scan_notes
scan_notes_lem endian done before wanted after zero aligned others fits gnu enough =
    absurd (none_left before enough)
scan_notes_lem endian done [] wanted after (suc fuel) aligned others fits gnu enough =
    rw (note_lem endian done wanted after aligned fits, gnu) refl
scan_notes_lem endian done (e ∷ es) wanted after (suc fuel) aligned (fits_e, other, others) fits gnu
      enough =
    let later = encode_entries endian es ++ (encode_entry endian wanted ++ after) in
    let whole = done ++ (encode_entry endian e ++ later) in
    let front = done ++ encode_entry endian e in
    let further : front ++ later ≡ whole = append_assoc done (encode_entry endian e) later in
    let aligned' : length front % 4 ≡ 0 =
      omega (arith, aligned, length-append done (encode_entry endian e), length-entry endian e) in
    let rest =
      scan_notes_lem endian front es wanted after fuel aligned' others fits gnu (omega arith) in
    let tail = encode_entry endian wanted ++ after in
    let split = append_assoc (encode_entry endian e) (encode_entries endian es) tail in
    ap (λ b. scan_notes (suc fuel) (done ++ b) endian (length done)) split
    ∙ scan_next endian whole fuel (length done) (length front)
        (passes endian done e later aligned fits_e (IsBuildId-false e other))
    ∙ ap (λ b. scan_notes fuel b endian (length front)) (sym further)
    ∙ rest

-- In a note segment that holds entries as the ELF specification lays them out, in either byte
-- order, each with 32-bit sizes and type, the scan passes the entries that are no GNU build id, whose
-- type is not 3 or whose name is not `GNU` with zeros behind it, and returns the description of the
-- first one that is, whose bytes are below 256, in lower-case hexadecimal, whatever follows it.
pub scan-encode_entries :
    (endian : Endian) (before : List Entry) (wanted : Entry) (after : List ℕ)
    → AllOthers before
    → Fits wanted
    → IsBuildId wanted
    → AllBytes wanted.desc
    → (text : List ℕ) × (scan
          (encode_entries endian before ++ (encode_entry endian wanted ++ after))
          endian
        ≡ ok (some text))
      × IsHexOf text wanted.desc
scan-encode_entries endian before wanted after others fits gnu bytes = (
  hex wanted.desc,
  scan_notes_lem endian [] before wanted after
      (length (encode_entries endian before ++ (encode_entry endian wanted ++ after)) + 1) refl
      others fits (IsBuildId-true wanted gnu)
      (omega (
        arith,
        length-rounds endian before,
        length-append (encode_entries endian before) (encode_entry endian wanted ++ after),
      )),
  hex-IsHexOf wanted.desc bytes,
)
