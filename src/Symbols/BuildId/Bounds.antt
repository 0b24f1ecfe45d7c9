-- ===== src/Symbols/BuildId/Bounds.antt =====
-- The buffers and the rounds of the build-id parser (src/kdive/symbols/build_id.py).
use linux_debug_mcp.Base.{
  ℕ, zero, suc, ◌+◌, ◌*◌, ◌≡◌, ◌≤◌, refl, ap, ◌∙◌, inl, inr, Bool-cases, Bool, true, false, Option,
  none, some, List, [], ◌∷◌, length, Result, ok, err, ◌>>=◌, ◌>>◌, raise_if, arith, leb, ltb, ◌==◌,
}
use linux_debug_mcp.Symbols.BuildId.{
  ElfError, Endian, unpack, Note, ended, build_id, next_at, note_body, read_note, scan_notes, scan,
  read_exact, Layout, layout, ElfClass, scan_headers, read_program_headers, identify, class_of,
  endian_of, read_elf_build_id,
}

-- The call returns or raises BuildIdReadError, or what `seek` raises.
abbrev pub IsServed {ℓ} : {A : Type ℓ} → Result ElfError A → Type 0
IsServed (ok a) = Unit {0}
IsServed (err ElfError.struct_error) = ⊥
IsServed (err ElfError.stuck) = ⊥
IsServed (err _) = Unit {0}

bind-IsServed {ℓ κ} :
    {A : Type ℓ} {B : Type κ} (m : Result ElfError A) (f : A → Result ElfError B)
    → IsServed m
    → ((a : A) → m ≡ ok a → IsServed (f a))
    → IsServed (m >>= f)
bind-IsServed (ok a) f h next = next a refl
bind-IsServed (err ElfError.truncated) f h next = tt
bind-IsServed (err ElfError.bad_magic) f h next = tt
bind-IsServed (err ElfError.unsupported) f h next = tt
bind-IsServed (err ElfError.no_headers) f h next = tt
bind-IsServed (err ElfError.implausible) f h next = tt
bind-IsServed (err ElfError.past_eof) f h next = tt
bind-IsServed (err ElfError.no_note) f h next = tt
bind-IsServed (err ElfError.offset_overflow) f h next = tt
bind-IsServed (err ElfError.struct_error) f h next = absurd h
bind-IsServed (err ElfError.stuck) f h next = absurd h

unpack-IsServed :
    (endian : Endian) (width : ℕ) (blob : List ℕ) (off : ℕ)
    → off + width ≤ length blob
    → IsServed (unpack endian width blob off)
unfolding unpack
unpack-IsServed endian width blob off h = ground arith

read_exact-IsServed : (file : List ℕ) (off size : ℕ) → IsServed (read_exact file off size)
unfolding read_exact
read_exact-IsServed file off size = ground arith

length-read_exact :
    (file : List ℕ) (off size : ℕ) (bytes : List ℕ)
    → read_exact file off size ≡ ok bytes
    → length bytes ≡ size
unfolding read_exact
length-read_exact file off size bytes h = ground (arith, h)

read_note-IsServed :
    (endian : Endian) (blob : List ℕ) (off : ℕ) → IsServed (read_note blob endian off)
unfolding read_note
read_note-IsServed endian blob off = elim (Bool-cases (leb (off + 12) (length blob))) [
  | inr done ↦ rw done tt
  | inl more ↦ rw more (
      bind-IsServed (unpack endian 4 blob off) _ (unpack-IsServed endian 4 blob off (ground arith))
        (λ namesz _.
          bind-IsServed (unpack endian 4 blob (off + 4)) _
            (unpack-IsServed endian 4 blob (off + 4) (ground arith))
            (λ descsz _.
              bind-IsServed (unpack endian 4 blob (off + 8)) _
                (unpack-IsServed endian 4 blob (off + 8) (ground arith)) (λ ntype _. tt))))
]

note_body-next :
    (blob : List ℕ) (start namesz descsz ntype off' : ℕ)
    → note_body blob start namesz descsz ntype ≡ next_at off'
    → start ≤ off'
note_body-next blob start namesz descsz ntype off' h = ground (arith, h)

-- A note that begins where another ends, begins twelve bytes on at least.
read_note-next :
    (endian : Endian) (blob : List ℕ) (off off' : ℕ)
    → read_note blob endian off ≡ ok (next_at off')
    → (off + 12 ≤ length blob) × (off + 12 ≤ off')
unfolding read_note unpack
read_note-next endian blob off off' h = grind (arith, h, note_body-next)

-- The rest of a round, `rest` what the later rounds give.
after_note-IsServed :
    (rest : ℕ → Result ElfError (Option (List ℕ))) (note : Note)
    → ((off' : ℕ) → note ≡ next_at off' → IsServed (rest off'))
    → IsServed
        (elim note [ ended ↦ ok none | build_id id ↦ ok (some id) | next_at off' ↦ rest off' ])
after_note-IsServed rest ended h = tt
after_note-IsServed rest (build_id id) h = tt
after_note-IsServed rest (next_at off') h = h off' refl

scan_notes-IsServed :
    (fuel : ℕ) (endian : Endian) (blob : List ℕ) (off : ℕ)
    → 1 ≤ fuel
    → length blob + 1 ≤ fuel + off
    → IsServed (scan_notes fuel blob endian off)
unfolding scan_notes
scan_notes-IsServed zero endian blob off one enough = absurd (omega arith)
scan_notes-IsServed (suc fuel) endian blob off one enough =
    bind-IsServed (read_note blob endian off) _ (read_note-IsServed endian blob off) (λ note e.
      after_note-IsServed (λ off'. scan_notes fuel blob endian off') note
        (λ off' e'.
          let (inside, beyond) = read_note-next endian blob off off' (e ∙ ap ok e') in
          scan_notes-IsServed fuel endian blob off' (omega arith) (omega arith)))

scan-IsServed : (blob : List ℕ) (endian : Endian) → IsServed (scan blob endian)
scan-IsServed blob endian =
    scan_notes-IsServed (length blob + 1) endian blob 0 (omega arith) (omega arith)

-- The fields that the loop reads lie within a program header of the least size.
abbrev Fits : Layout → Type 0
Fits l =
    (4 ≤ l.min_phentsize)
    × (l.offset_at + l.word ≤ l.min_phentsize)
    × (l.filesz_at + l.word ≤ l.min_phentsize)
    × (l.phoff_at + l.word ≤ l.header_size)
    × (l.phentsize_at + 4 ≤ l.header_size)

found_or-IsServed :
    (found : Option (List ℕ)) (rest : Result ElfError (List ℕ))
    → IsServed rest
    → IsServed (elim found [ some id ↦ ok id | none ↦ rest ])
found_or-IsServed (some id) rest h = tt
found_or-IsServed none rest h = h

scan_headers-IsServed :
    (file : List ℕ) (endian : Endian) (l : Layout) (phdrs : List ℕ) (size count ph : ℕ)
    → Fits l
    → l.min_phentsize ≤ size
    → ph + size * count ≤ length phdrs
    → IsServed (scan_headers file endian l phdrs size count ph)
unfolding scan_headers
scan_headers-IsServed file endian l phdrs size zero ph fits big inside = tt
scan_headers-IsServed file endian l phdrs size (suc count) ph fits big inside =
    bind-IsServed (unpack endian 4 phdrs ph) _ (unpack-IsServed endian 4 phdrs ph (ground arith))
      (λ p_type _. elim (Bool-cases (p_type == 4)) [
        | inr other ↦ rw other (
            scan_headers-IsServed file endian l phdrs size count (ph + size) fits big
              (ground arith))
        | inl notes ↦ rw notes (
            bind-IsServed (unpack endian l.word phdrs (ph + l.offset_at)) _
              (unpack-IsServed endian l.word phdrs (ph + l.offset_at) (ground arith))
              (λ p_offset _.
                bind-IsServed (unpack endian l.word phdrs (ph + l.filesz_at)) _
                  (unpack-IsServed endian l.word phdrs (ph + l.filesz_at) (ground arith))
                  (λ p_filesz _.
                    bind-IsServed (read_exact file p_offset p_filesz) _
                      (read_exact-IsServed file p_offset p_filesz)
                      (λ segment _.
                        bind-IsServed (scan segment endian) _ (scan-IsServed segment endian)
                          (λ found _. found_or-IsServed found _ (
                            scan_headers-IsServed file endian l phdrs size count (ph + size) fits
                              big (ground arith)))))))
      ])

layout-Fits : (elf_class : ElfClass) → Fits (layout elf_class)
layout-Fits ElfClass.elf32 = (omega arith, omega arith, omega arith, omega arith, omega arith)
layout-Fits ElfClass.elf64 = (omega arith, omega arith, omega arith, omega arith, omega arith)

raise_if-IsServed :
    (test : Bool) (e : ElfError) → IsServed {A = Unit {0}} (err e) → IsServed (raise_if test e)
raise_if-IsServed true e h = h
raise_if-IsServed false e h = tt

raise_if-passes :
    (test : Bool) (e : ElfError) {u : Unit {0}} → raise_if test e ≡ ok u → test ≡ false
raise_if-passes true e h = cc
raise_if-passes false e h = refl

-- The checks of the program-header table, and the loop over it.
table-IsServed :
    (file : List ℕ) (endian : Endian) (l : Layout) (e_phoff e_phentsize e_phnum : ℕ)
    → Fits l
    → IsServed (do
      raise_if (e_phnum == 0) ElfError.no_headers
      raise_if (ltb e_phentsize l.min_phentsize) ElfError.implausible
      raise_if (ltb (length file) (e_phoff + e_phentsize * e_phnum)) ElfError.past_eof
      phdrs ← read_exact file e_phoff (e_phentsize * e_phnum)
      scan_headers file endian l phdrs e_phentsize e_phnum 0)
table-IsServed file endian l e_phoff e_phentsize e_phnum fits =
    bind-IsServed (raise_if (e_phnum == 0) ElfError.no_headers) _ (raise_if-IsServed _ _ tt) (λ _ _.
      bind-IsServed (raise_if (ltb e_phentsize l.min_phentsize) ElfError.implausible) _
        (raise_if-IsServed _ _ tt)
        (λ _ large.
          bind-IsServed
            (raise_if (ltb (length file) (e_phoff + e_phentsize * e_phnum)) ElfError.past_eof) _
            (raise_if-IsServed _ _ tt)
            (λ _ _.
              bind-IsServed (read_exact file e_phoff (e_phentsize * e_phnum)) _
                (read_exact-IsServed file e_phoff (e_phentsize * e_phnum))
                (λ phdrs e.
                  let full = length-read_exact file e_phoff (e_phentsize * e_phnum) phdrs e in
                  let big =
                    raise_if-passes (ltb e_phentsize l.min_phentsize) ElfError.implausible large in
                  scan_headers-IsServed file endian l phdrs e_phentsize e_phnum 0 fits
                    (ground (arith, big)) (omega (arith, full))))))

read_program_headers-IsServed :
    (file : List ℕ) (endian : Endian) (l : Layout)
    → Fits l
    → IsServed (read_program_headers file endian l)
unfolding read_program_headers
read_program_headers-IsServed file endian l fits =
    bind-IsServed (read_exact file 0 l.header_size) _ (read_exact-IsServed file 0 l.header_size)
      (λ ehdr e.
        let full = length-read_exact file 0 l.header_size ehdr e in
        bind-IsServed (unpack endian l.word ehdr l.phoff_at) _
          (unpack-IsServed endian l.word ehdr l.phoff_at (ground (arith, full)))
          (λ e_phoff _.
            bind-IsServed (unpack endian 2 ehdr l.phentsize_at) _
              (unpack-IsServed endian 2 ehdr l.phentsize_at (ground (arith, full)))
              (λ e_phentsize _.
                bind-IsServed (unpack endian 2 ehdr (l.phentsize_at + 2)) _
                  (unpack-IsServed endian 2 ehdr (l.phentsize_at + 2) (ground (arith, full)))
                  (λ e_phnum _. table-IsServed file endian l e_phoff e_phentsize e_phnum fits))))

identify-IsServed : (ident : List ℕ) → IsServed (identify ident)
unfolding identify class_of endian_of
identify-IsServed [] = tt
identify-IsServed (m ∷ []) = tt
identify-IsServed (m ∷ e ∷ []) = tt
identify-IsServed (m ∷ e ∷ l ∷ []) = tt
identify-IsServed (m ∷ e ∷ l ∷ f ∷ []) = tt
identify-IsServed (m ∷ e ∷ l ∷ f ∷ c ∷ []) = tt
identify-IsServed (m ∷ e ∷ l ∷ f ∷ c ∷ d ∷ rest) = ground arith

-- Whatever the bytes of the file, the read of its build id ends, after at most one round per byte
-- of a note segment, and no field is unpacked from beyond its buffer: the call returns an id or
-- raises BuildIdReadError, or what `seek` and `read` raise for a number of 2 ** 63 or more.
pub read_elf_build_id-IsServed : (file : List ℕ) → IsServed (read_elf_build_id file)
unfolding read_elf_build_id
read_elf_build_id-IsServed file =
    bind-IsServed (read_exact file 0 16) _ (read_exact-IsServed file 0 16) (λ ident _.
      bind-IsServed (identify ident) _ (identify-IsServed ident) (λ (elf_class, endian) _.
        read_program_headers-IsServed file endian (layout elf_class) (layout-Fits elf_class)))
