-- ===== src/Symbols/BuildId.antt =====
-- The GNU build id of an ELF file (src/kdive/symbols/build_id.py). A file is its bytes, a byte a
-- number, and a text the list of its code points.
pub mod Bounds
pub mod Entries
pub mod RoundTrip
mod Tests
use linux_debug_mcp.Base.{
  ℕ, zero, suc, ◌+◌, ◌*◌, ◌-◌, ◌/◌, ◌%◌, ◌^◌, Bool, true, false, not, ◌&&◌, ◌||◌, Option, none,
  some, List, [], ◌∷◌, ◌++◌, reverse, length, take, drop, slice, Result, ok, err, ◌>>=◌, ◌>>◌,
  raise_if, if◌then◌else◌, ltb, leb, ◌==◌,
}

-- The messages of BuildIdReadError; what `struct` and `seek` raise where they cannot serve; and
-- `stuck`, which is nothing of the program's: the fuel of a loop ran out.
pub data ElfError : Type 0 where
  truncated bad_magic unsupported no_headers implausible past_eof no_note : ElfError
  struct_error offset_overflow stuck : ElfError

pub data Endian : Type 0 where
  little big : Endian

abbrev pub little_number : List ℕ → ℕ
little_number [] = 0
little_number (b ∷ bs) = b + 256 * little_number bs

abbrev pub number : Endian → List ℕ → ℕ
number Endian.little bs = little_number bs
number Endian.big bs = little_number (reverse bs)

-- struct.unpack_from of one unsigned field of this many bytes.
unfoldable pub unpack : Endian → ℕ → List ℕ → ℕ → Result ElfError ℕ
unpack endian width blob off =
    if leb (off + width) (length blob)
    then ok (number endian (slice off width blob))
    else err ElfError.struct_error

-- A digit of `bytes.hex()`.
abbrev hex_digit : ℕ → ℕ
hex_digit d = if ltb d 10 then 48 + d else 87 + d

unfoldable pub hex : List ℕ → List ℕ
hex [] = []
hex (b ∷ bs) = hex_digit (b / 16) ∷ hex_digit (b % 16) ∷ hex bs

-- `n + (-n % 4)`.
abbrev pub align : ℕ → ℕ
align n = n + (4 - n % 4) % 4

abbrev pub all_zero : List ℕ → Bool
all_zero [] = true
all_zero (b ∷ bs) = (b == 0) && all_zero bs

-- `name.rstrip(b"\x00") == b"GNU"`.
abbrev pub is_gnu : List ℕ → Bool
is_gnu (g ∷ n ∷ u ∷ rest) = (g == 71) && (n == 78) && (u == 85) && all_zero rest
is_gnu _ = false

-- What a round of the scan finds: the end of the notes, a build id, or where the next note begins.
pub data Note : Type 0 where
  ended : Note
  build_id : List ℕ → Note
  next_at : ℕ → Note

abbrev pub note_body : List ℕ → ℕ → ℕ → ℕ → ℕ → Note
note_body blob name_start namesz descsz ntype =
    let desc_start = align (name_start + namesz) in
    if ltb (length blob) (desc_start + descsz)
    then ended
    else if (ntype == 3) && is_gnu (slice name_start namesz blob)
    then build_id (hex (slice desc_start descsz blob))
    else next_at (align (desc_start + descsz))

unfoldable pub read_note : List ℕ → Endian → ℕ → Result ElfError Note
unfolding unpack
read_note blob endian off =
    if leb (off + 12) (length blob)
    then (do
      namesz ← unpack endian 4 blob off
      descsz ← unpack endian 4 blob (off + 4)
      ntype ← unpack endian 4 blob (off + 8)
      ok (note_body blob (off + 12) namesz descsz ntype))
    else ok ended

unfoldable pub scan_notes : ℕ → List ℕ → Endian → ℕ → Result ElfError (Option (List ℕ))
unfolding read_note
scan_notes zero blob endian off = err ElfError.stuck
scan_notes (suc fuel) blob endian off = do
  note ← read_note blob endian off
  elim note [
    | ended ↦ ok none
    | build_id id ↦ ok (some id)
    | next_at off' ↦ scan_notes fuel blob endian off'
  ]

-- Each round passes twelve bytes at least.
abbrev pub scan : List ℕ → Endian → Result ElfError (Option (List ℕ))
scan blob endian = scan_notes (length blob + 1) blob endian 0

-- `_read_exact`. `seek` and `read` take no number of 2 ** 63 or more; that memory may not hold a
-- smaller size is left out.
unfoldable pub read_exact : List ℕ → ℕ → ℕ → Result ElfError (List ℕ)
read_exact file offset size =
    if leb (2 ^ 63) offset || leb (2 ^ 63) size
    then err ElfError.offset_overflow
    else if length (slice offset size file) == size
    then ok (slice offset size file)
    else err ElfError.truncated

pub data ElfClass : Type 0 where
  elf32 elf64 : ElfClass

pub record Layout : Type 0 where
  pub header_size : ℕ
  pub word : ℕ
  pub phoff_at : ℕ
  pub phentsize_at : ℕ
  pub min_phentsize : ℕ
  pub offset_at : ℕ
  pub filesz_at : ℕ

-- Where the fields of the file header and of a program header stand.
abbrev pub layout : ElfClass → Layout
layout ElfClass.elf64 = record {
  header_size = 64;
  word = 8;
  phoff_at = 32;
  phentsize_at = 54;
  min_phentsize = 56;
  offset_at = 8;
  filesz_at = 32;
}
layout ElfClass.elf32 = record {
  header_size = 52;
  word = 4;
  phoff_at = 28;
  phentsize_at = 42;
  min_phentsize = 32;
  offset_at = 4;
  filesz_at = 16;
}

-- The loop over the program headers: `count` of them are left, and the next begins at `ph`.
unfoldable pub scan_headers :
    List ℕ → Endian → Layout → List ℕ → ℕ → ℕ → ℕ → Result ElfError (List ℕ)
unfolding read_exact unpack
scan_headers file endian l phdrs size zero ph = err ElfError.no_note
scan_headers file endian l phdrs size (suc count) ph = do
  p_type ← unpack endian 4 phdrs ph
  elim (p_type == 4) [
    | false ↦ scan_headers file endian l phdrs size count (ph + size)
    | true ↦ do
      p_offset ← unpack endian l.word phdrs (ph + l.offset_at)
      p_filesz ← unpack endian l.word phdrs (ph + l.filesz_at)
      notes ← read_exact file p_offset p_filesz
      found ← scan notes endian
      elim found [
        | some id ↦ ok id
        | none ↦ scan_headers file endian l phdrs size count (ph + size)
      ]
  ]

-- The header of a file whose class and byte order are known.
unfoldable pub read_program_headers : List ℕ → Endian → Layout → Result ElfError (List ℕ)
unfolding scan_headers read_exact unpack
read_program_headers file endian l = do
  ehdr ← read_exact file 0 l.header_size
  e_phoff ← unpack endian l.word ehdr l.phoff_at
  e_phentsize ← unpack endian 2 ehdr l.phentsize_at
  e_phnum ← unpack endian 2 ehdr (l.phentsize_at + 2)
  raise_if (e_phnum == 0) ElfError.no_headers
  raise_if (ltb e_phentsize l.min_phentsize) ElfError.implausible
  raise_if (ltb (length file) (e_phoff + e_phentsize * e_phnum)) ElfError.past_eof
  phdrs ← read_exact file e_phoff (e_phentsize * e_phnum)
  scan_headers file endian l phdrs e_phentsize e_phnum 0

unfoldable pub class_of : ℕ → Result ElfError ElfClass
class_of ei_class =
    if ei_class == 1
    then ok ElfClass.elf32
    else if ei_class == 2
    then ok ElfClass.elf64
    else err ElfError.unsupported

unfoldable pub endian_of : ℕ → Result ElfError Endian
endian_of ei_data =
    if ei_data == 1
    then ok Endian.little
    else if ei_data == 2
    then ok Endian.big
    else err ElfError.unsupported

-- The identification: the magic number, the class and the byte order.
unfoldable pub identify : List ℕ → Result ElfError (ElfClass × Endian)
unfolding class_of endian_of
identify (m ∷ e ∷ l ∷ f ∷ ei_class ∷ ei_data ∷ rest) =
    if (m == 127) && (e == 69) && (l == 76) && (f == 70)
    then (do elf_class ← class_of ei_class; endian ← endian_of ei_data; ok (elf_class, endian))
    else err ElfError.bad_magic
identify _ = err ElfError.bad_magic

unfoldable pub read_elf_build_id : List ℕ → Result ElfError (List ℕ)
unfolding read_program_headers identify read_exact
read_elf_build_id file = do
  ident ← read_exact file 0 16
  (elf_class, endian) ← identify ident
  read_program_headers file endian (layout elf_class)
