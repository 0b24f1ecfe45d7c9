-- ===== src/Postmortem/Batch/Filenames.antt =====
-- The numbers in the names of the output files (`redirect_filename` of
-- src/kdive/postmortem/crash/batch.py).
use linux_debug_mcp.Base.{
  ℕ, zero, suc, ◌+◌, ◌-◌, ◌*◌, ◌/◌, ◌%◌, ◌≡◌, ◌<◌, refl, sym, ap, ◌∙◌, inl, inr, Bool-cases, ◌&&◌,
  List, [], ◌∷◌, ◌++◌, append_assoc, length, if◌then◌else◌, ltb, leb, arith,
}
use linux_debug_mcp.Postmortem.Batch.{digits, zeros, redirect_filename}

-- The number that the digits at the beginning of a text continue.
unfoldable read_number : ℕ → List ℕ → ℕ
read_number n [] = n
read_number n (c ∷ cs) =
    let further = read_number (n * 10 + (c - 48)) cs in if leb 48 c && leb c 57 then further else n

read_digit :
    (n d : ℕ) (rest : List ℕ)
    → d < 10
    → read_number n ((48 + d) ∷ rest) ≡ read_number (n * 10 + d) rest
unfolding read_number
read_digit n d rest h =
    let value : n * 10 + (48 + d - 48) ≡ n * 10 + d = omega arith in ground (arith, h, value)

read_digits :
    (fuel n : ℕ) (rest : List ℕ)
    → n < fuel
    → read_number 0 (digits fuel n ++ rest) ≡ read_number n rest
unfolding digits
read_digits zero n rest h = absurd (omega arith)
read_digits (suc fuel) n rest h = elim (Bool-cases (ltb n 10)) [
  | inl small ↦
      rw small
        (read_digit 0 n rest (ground (arith, small)) ∙ ap (λ m. read_number m rest) (omega arith))
  | inr large ↦
      rw (large, append_assoc (digits fuel (n / 10)) ((48 + n % 10) ∷ []) rest)
        (read_digits fuel (n / 10) ((48 + n % 10) ∷ rest) (ground (arith, large))
          ∙ read_digit (n / 10) (n % 10) rest (omega arith)
          ∙ ap (λ m. read_number m rest) (omega arith))
]

read_zeros : (k : ℕ) (rest : List ℕ) → read_number 0 (zeros k ++ rest) ≡ read_number 0 rest
unfolding read_number
read_zeros zero rest = refl
read_zeros (suc k) rest = read_zeros k rest

-- What stands between "cmd-" and ".out".
abbrev file_number : List ℕ → ℕ
file_number (c ∷ m ∷ d ∷ dash ∷ rest) = read_number 0 rest
file_number _ = 0

file_number-redirect_filename : (index : ℕ) → file_number (redirect_filename index) ≡ index
unfolding redirect_filename read_number
file_number-redirect_filename index =
    let d = digits (suc index) index in
    let out : List ℕ = 46 ∷ 111 ∷ 117 ∷ 116 ∷ [] in
    ap (read_number 0) (append_assoc (zeros (4 - length d)) d out)
    ∙ read_zeros (4 - length d) (d ++ out)
    ∙ read_digits (suc index) index out (omega arith)

-- The commands of a batch have different output files, whatever their number: also from 10000 on,
-- where four digits do not hold the index.
pub redirect_filename-injective : (i j : ℕ) → redirect_filename i ≡ redirect_filename j → i ≡ j
redirect_filename-injective i j h =
    sym (file_number-redirect_filename i) ∙ ap file_number h ∙ file_number-redirect_filename j
