-- ===== src/Transport/Rsp.antt =====
-- Framing of the remote serial protocol (src/kdive/transport/core/rsp_probe.py) and the search for a
-- stop reply (src/kdive/coordination/exec_probe.py). A byte is a number, a buffer a list of them, and
-- a text the list of its code points. Where the code finds a byte and slices around it, the buffer is
-- split there.
pub mod Framing
pub mod Exchange
mod Tests
use linux_debug_mcp.Base.{
  ℕ, ◌+◌, ◌*◌, ◌-◌, ◌/◌, ◌%◌, Bool, true, false, not, ◌&&◌, ◌||◌, Option, none, some, List, [], ◌∷◌,
  ◌++◌, Result, ok, err, if◌then◌else◌, leb, ltb, ◌==◌,
}

abbrev pub dollar : ℕ
dollar = 36

abbrev pub hash : ℕ
hash = 35

-- The sum of the bytes.
unfoldable pub sum : List ℕ → ℕ
sum [] = 0
sum (b ∷ bs) = b + sum bs

unfoldable pub is_ascii : List ℕ → Bool
is_ascii [] = true
is_ascii (c ∷ cs) = ltb c 128 && is_ascii cs

-- A digit of `02x`.
unfoldable pub hex_digit : ℕ → ℕ
hex_digit d = if ltb d 10 then 48 + d else 87 + d

abbrev pub behind : ℕ → Option (List ℕ × List ℕ) → Option (List ℕ × List ℕ)
behind c none = none
behind c (some (before, after)) = some (c ∷ before, after)

-- The bytes that precede the first `b` and those that follow it.
unfoldable pub split_at : ℕ → List ℕ → Option (List ℕ × List ℕ)
split_at b [] = none
split_at b (c ∷ cs) = let later = split_at b cs in if c == b then some ([], cs) else behind c later

abbrev pub frame_of : List ℕ → List ℕ
frame_of payload =
    dollar ∷ payload
    ++ hash ∷ hex_digit (sum payload % 256 / 16) ∷ hex_digit (sum payload % 256 % 16) ∷ []

pub data EncodeError : Type 0 where
  unicode_encode_error : EncodeError

unfoldable pub rsp_frame : List ℕ → Result EncodeError (List ℕ)
rsp_frame payload = if is_ascii payload then ok (frame_of payload) else err unicode_encode_error

unfoldable pub digit_value : ℕ → Option ℕ
digit_value c =
    if leb 48 c && leb c 57
    then some (c - 48)
    else if leb 97 c && leb c 102
    then some (c - 87)
    else if leb 65 c && leb c 70
    then some (c - 55)
    else none

-- What bytes.isspace accepts.
abbrev pub is_space : ℕ → Bool
is_space c = (c == 32) || leb 9 c && leb c 13

-- `int(bytes, 16)` of two bytes: two digits, or one digit beside a blank or behind a sign. A negative
-- value, which no checksum equals, is `none` as a ValueError is.
unfoldable pub parse_hex : ℕ → ℕ → Option ℕ
parse_hex a b = both (digit_value a) (digit_value b)
  where
    both : Option ℕ → Option ℕ → Option ℕ
    both (some x) (some y) = some (16 * x + y)
    both (some x) none = if is_space b then some x else none
    both none (some y) = if is_space a || (a == 43) || (a == 45) && (y == 0) then some y else none
    both none none = none

abbrev pub matches : List ℕ → Option ℕ → Bool
matches payload none = false
matches payload (some expected) = sum payload % 256 == expected

-- The payload, where it is followed by `#`, two bytes and a checksum that matches.
abbrev pub checked : Option (List ℕ × List ℕ) → Option (List ℕ)
checked (some (payload, a ∷ b ∷ rest)) =
    if matches payload (parse_hex a b) then some payload else none
checked _ = none

abbrev pub behind_dollar : Option (List ℕ × List ℕ) → Option (List ℕ)
behind_dollar none = none
behind_dollar (some (acks, rest)) = checked (split_at hash rest)

-- The part that valid_rsp_frame and _first_stop_reply share.
unfoldable pub first_frame : List ℕ → Option (List ℕ)
first_frame buffer = behind_dollar (split_at dollar buffer)

unfoldable pub valid_rsp_frame : List ℕ → Bool
valid_rsp_frame buffer = elim (first_frame buffer) [ none ↦ false | some payload ↦ true ]

-- `T` or `S`.
unfoldable pub is_stop : List ℕ → Bool
is_stop [] = false
is_stop (c ∷ cs) = (c == 84) || (c == 83)

unfoldable pub first_stop_reply : List ℕ → Option (List ℕ)
first_stop_reply buffer = elim (first_frame buffer) [
  | none ↦ none
  | some payload ↦ if is_stop payload then some payload else none
]
