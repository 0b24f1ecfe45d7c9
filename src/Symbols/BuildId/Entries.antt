-- ===== src/Symbols/BuildId/Entries.antt =====
-- Notes as the ELF specification lays them out, and what one round of `_scan_notes` reads of them
-- (src/kdive/symbols/build_id.py).
use linux_debug_mcp.Base.{
  ℕ, zero, suc, ◌*◌, Option, none, some, inl, inr, Bool-cases, ◌+◌, ◌-◌, ◌/◌, ◌%◌, ◌^◌, ◌≡◌, ◌≤◌,
  ◌<◌, refl, sym, ap, Bool, true, false, ◌&&◌, List, [], ◌∷◌, ◌++◌, length, slice, length-append,
  drop-append, append_assoc, take-append, ok, if◌then◌else◌, arith, leb, ltb, ◌==◌,
}
use linux_debug_mcp.Symbols.BuildId.{
  Endian, unpack, align, build_id, next_at, note_body, read_note, all_zero, is_gnu, hex, number,
}

-- A 32-bit word, as it is written.
abbrev pub word : Endian → ℕ → List ℕ
word Endian.little n = n % 256 ∷ n / 256 % 256 ∷ n / 65536 % 256 ∷ n / 16777216 % 256 ∷ []
word Endian.big n = n / 16777216 % 256 ∷ n / 65536 % 256 ∷ n / 256 % 256 ∷ n % 256 ∷ []

abbrev pub zeros : ℕ → List ℕ
zeros zero = []
zeros (suc n) = 0 ∷ zeros n

pub record Entry : Type 0 where
  pub name : List ℕ
  pub desc : List ℕ
  pub type : ℕ

-- The padding after a part of this length.
abbrev pub padding : List ℕ → List ℕ
padding part = zeros ((4 - length part % 4) % 4)

abbrev pub encode_entry : Endian → Entry → List ℕ
encode_entry endian e =
    word endian (length e.name)
    ++ (word endian (length e.desc)
        ++ (word endian e.type ++ (e.name ++ (padding e.name ++ (e.desc ++ padding e.desc)))))

abbrev pub encode_entries : Endian → List Entry → List ℕ
encode_entries endian [] = []
encode_entries endian (e ∷ es) = encode_entry endian e ++ encode_entries endian es

abbrev pub Fits : Entry → Type 0
Fits e = (length e.name < 2 ^ 32) × (length e.desc < 2 ^ 32) × (e.type < 2 ^ 32)

-- A GNU build id: its type is 3, and its name `GNU`, behind which only zeros stand.
abbrev pub IsBuildId : Entry → Type 0
IsBuildId e = (e.type ≡ 3) × ((n : ℕ) × (e.name ≡ 71 ∷ 78 ∷ 85 ∷ zeros n))

abbrev pub AllOthers : List Entry → Type 0
AllOthers [] = Unit
AllOthers (e ∷ es) = Fits e × (¬ IsBuildId e) × AllOthers es

abbrev pub is_build_id : Entry → Bool
is_build_id e = (e.type == 3) && is_gnu e.name

all_zero-zeros : (n : ℕ) → all_zero (zeros n) ≡ true
all_zero-zeros zero = refl
all_zero-zeros (suc n) = all_zero-zeros n

all_zeros : (bs : List ℕ) → all_zero bs ≡ true → (n : ℕ) × (bs ≡ zeros n)
all_zeros [] h = (0, refl)
all_zeros (b ∷ bs) h = let (n, e) = all_zeros bs (ground arith) in (suc n, ground arith)

gnu_name : (name : List ℕ) → is_gnu name ≡ true → (n : ℕ) × (name ≡ 71 ∷ 78 ∷ 85 ∷ zeros n)
gnu_name [] h = cc
gnu_name (g ∷ []) h = cc
gnu_name (g ∷ n ∷ []) h = cc
gnu_name (g ∷ n ∷ u ∷ rest) h = let (m, e) = all_zeros rest (ground arith) in (m, ground arith)

pub IsBuildId-true : (e : Entry) → IsBuildId e → is_build_id e ≡ true
IsBuildId-true e (type, (n, name)) = rw (type, name) (all_zero-zeros n)

pub IsBuildId-false : (e : Entry) → (¬ IsBuildId e) → is_build_id e ≡ false
IsBuildId-false e other = elim (Bool-cases (is_build_id e)) [
  | inl gnu ↦ absurd (other (ground arith, gnu_name e.name (ground arith)))
  | inr none_such ↦ none_such
]

-- The value of a lower-case hexadecimal digit.
abbrev pub from_digit : ℕ → Option ℕ
from_digit c =
    if leb 48 c && ltb c 58
    then some (c - 48)
    else if leb 97 c && ltb c 103
    then some (c - 87)
    else none

-- The text writes the bytes, two lower-case hexadecimal digits for each, the high one first.
abbrev pub IsHexOf : List ℕ → List ℕ → Type 0
IsHexOf [] [] = Unit
IsHexOf (high ∷ low ∷ text) (b ∷ bs) =
    ((x : ℕ) × (y : ℕ) × (from_digit high ≡ some x) × (from_digit low ≡ some y) × (b ≡ 16 * x + y))
    × IsHexOf text bs
IsHexOf _ _ = ⊥

abbrev pub AllBytes : List ℕ → Type 0
AllBytes [] = Unit
AllBytes (b ∷ bs) = (b < 256) × AllBytes bs

pub hex-IsHexOf : (bs : List ℕ) → AllBytes bs → IsHexOf (hex bs) bs
unfolding hex
hex-IsHexOf [] bytes = tt
hex-IsHexOf (b ∷ bs) (small, bytes) =
    ((b / 16, b % 16, ground arith, ground arith, omega arith), hex-IsHexOf bs bytes)

number-word : (endian : Endian) (n : ℕ) → n < 2 ^ 32 → number endian (word endian n) ≡ n
number-word Endian.little n h = omega arith
number-word Endian.big n h = omega arith

-- The part of a buffer that follows what was written before it.
slice-part :
    (before part after : List ℕ) (off size : ℕ)
    → off ≡ length before
    → size ≡ length part
    → slice off size (before ++ (part ++ after)) ≡ part
slice-part before part after off size e f =
    rw (e, f, drop-append before (part ++ after)) (take-append part after)

length-word : (endian : Endian) (n : ℕ) → length (word endian n) ≡ 4
length-word Endian.little n = refl
length-word Endian.big n = refl

length-part :
    (before part after : List ℕ) → length before + length part ≤ length (before ++ (part ++ after))
length-part before part after =
    omega (arith, length-append before (part ++ after), length-append part after)

unpack-word :
    (endian : Endian) (before : List ℕ) (n : ℕ) (after : List ℕ) (off : ℕ)
    → n < 2 ^ 32
    → off ≡ length before
    → unpack endian 4 (before ++ (word endian n ++ after)) off ≡ ok n
unfolding unpack
unpack-word endian before n after off h e =
    rw
      (
        slice-part before (word endian n) after off 4 e (sym (length-word endian n)),
        number-word endian n h,
      )
      (ground (arith, length-part before (word endian n) after, length-word endian n))

length-zeros : (n : ℕ) → length (zeros n) ≡ n
length-zeros zero = refl
length-zeros (suc n) = omega (arith, length-zeros n)

pub length-entry :
    (endian : Endian) (e : Entry)
    → length (encode_entry endian e) ≡ 12 + align (length e.name) + align (length e.desc)
length-entry endian e = omega (
  arith,
  length-append (word endian (length e.name)) (
      word endian (length e.desc)
      ++ (word endian e.type ++ (e.name ++ (padding e.name ++ (e.desc ++ padding e.desc))))),
  length-append (word endian (length e.desc))
      (word endian e.type ++ (e.name ++ (padding e.name ++ (e.desc ++ padding e.desc)))),
  length-append (word endian e.type) (e.name ++ (padding e.name ++ (e.desc ++ padding e.desc))),
  length-append e.name (padding e.name ++ (e.desc ++ padding e.desc)),
  length-append (padding e.name) (e.desc ++ padding e.desc),
  length-append e.desc (padding e.desc),
  length-word endian (length e.name),
  length-word endian (length e.desc),
  length-word endian e.type,
  length-zeros ((4 - length e.name % 4) % 4),
  length-zeros ((4 - length e.desc % 4) % 4),
)

-- What is read of an entry that begins where a buffer's first part ends.
module _ (endian : Endian) (before : List ℕ) (e : Entry) (after : List ℕ)
    (aligned : length before % 4 ≡ 0) (fits : Fits e) where
  abbrev pub blob : List ℕ
  blob = before ++ (encode_entry endian e ++ after)

  abbrev head : List ℕ
  head =
      before ++ (word endian (length e.name) ++ (word endian (length e.desc) ++ word endian e.type))

  blob-name : blob ≡ head ++ (e.name ++ (padding e.name ++ (e.desc ++ (padding e.desc ++ after))))
  blob-name = simp append_assoc

  length-head : length head ≡ length before + 12
  length-head = omega (
    arith,
    length-append before
        (word endian (length e.name) ++ (word endian (length e.desc) ++ word endian e.type)),
    length-append (word endian (length e.name)) (word endian (length e.desc) ++ word endian e.type),
    length-append (word endian (length e.desc)) (word endian e.type),
    length-word endian (length e.name),
    length-word endian (length e.desc),
    length-word endian e.type,
  )

  blob-desc : blob ≡ (head ++ (e.name ++ padding e.name)) ++ (e.desc ++ (padding e.desc ++ after))
  blob-desc = simp append_assoc

  length-blob : length before + length (encode_entry endian e) ≤ length blob
  length-blob = length-part before (encode_entry endian e) after

  slice-name : slice (length before + 12) (length e.name) blob ≡ e.name
  slice-name =
      rw blob-name
        (slice-part head e.name _ (length before + 12) (length e.name) (sym length-head) refl)

  length-before_desc :
      align (length before + 12 + length e.name) ≡ length (head ++ (e.name ++ padding e.name))
  length-before_desc = omega (
    arith,
    aligned,
    length-append head (e.name ++ padding e.name),
    length-append e.name (padding e.name),
    length-head,
    length-zeros ((4 - length e.name % 4) % 4),
  )

  slice-desc : slice (align (length before + 12 + length e.name)) (length e.desc) blob ≡ e.desc
  slice-desc = rw blob-desc (
      slice-part (head ++ (e.name ++ padding e.name)) e.desc _ _ (length e.desc) length-before_desc
        refl)

  desc-fits : ltb (length blob) (align (length before + 12 + length e.name) + length e.desc) ≡ false
  desc-fits = ground (arith, aligned, length-blob, length-entry endian e)

  next_lem :
      align (align (length before + 12 + length e.name) + length e.desc)
      ≡ length before + length (encode_entry endian e)
  next_lem = omega (arith, aligned, length-entry endian e)

  body_lem : note_body blob (length before + 12) (length e.name) (length e.desc) e.type ≡ (
      if is_build_id e
      then build_id (hex e.desc)
      else next_at (length before + length (encode_entry endian e)))
  body_lem = rw (slice-name, slice-desc, desc-fits, next_lem) refl

  -- A word of the entry's head, behind what stands before it.
  word_lem :
      (first : List ℕ) (n : ℕ) (rest : List ℕ) (off : ℕ)
      → n < 2 ^ 32
      → off ≡ length first
      → blob ≡ first ++ (word endian n ++ rest)
      → unpack endian 4 blob off ≡ ok n
  word_lem first n rest off small at_end e' =
      rw (ap (λ b. unpack endian 4 b off) e') (unpack-word endian first n rest off small at_end)

  unpack-namesz : unpack endian 4 blob (length before) ≡ ok (length e.name)
  unpack-namesz =
      word_lem before (length e.name)
        (word endian (length e.desc)
          ++ (word endian e.type
              ++ (e.name ++ (padding e.name ++ (e.desc ++ (padding e.desc ++ after))))))
        (length before) fits.0 refl (simp append_assoc)

  unpack-descsz : unpack endian 4 blob (length before + 4) ≡ ok (length e.desc)
  unpack-descsz =
      word_lem (before ++ word endian (length e.name)) (length e.desc)
        (word endian e.type
          ++ (e.name ++ (padding e.name ++ (e.desc ++ (padding e.desc ++ after)))))
        (length before + 4) fits.1
        (omega (
          arith,
          length-append before (word endian (length e.name)),
          length-word endian (length e.name),
        ))
        (simp append_assoc)

  unpack-type : unpack endian 4 blob (length before + 8) ≡ ok e.type
  unpack-type =
      word_lem (before ++ (word endian (length e.name) ++ word endian (length e.desc))) e.type
        (e.name ++ (padding e.name ++ (e.desc ++ (padding e.desc ++ after)))) (length before + 8)
        fits.2
        (omega (
          arith,
          length-append before (word endian (length e.name) ++ word endian (length e.desc)),
          length-append (word endian (length e.name)) (word endian (length e.desc)),
          length-word endian (length e.name),
          length-word endian (length e.desc),
        ))
        (simp append_assoc)

  head-fits : leb (length before + 12) (length blob) ≡ true
  head-fits = ground (arith, length-blob, length-entry endian e)

  pub note_lem :
      read_note blob endian (length before)
      ≡ ok (
          if is_build_id e
          then build_id (hex e.desc)
          else next_at (length before + length (encode_entry endian e)))
  unfolding read_note
  note_lem = rw (head-fits, unpack-namesz, unpack-descsz, unpack-type) (ap ok body_lem)
