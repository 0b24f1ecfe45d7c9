-- ===== src/Transport/Rsp/Framing.antt =====
-- A frame is found again in what a peer has sent (src/kdive/transport/core/rsp_probe.py,
-- src/kdive/coordination/exec_probe.py).
use mathlib.Core.List.{append_assoc}
use linux_debug_mcp.Base.{
  ℕ, ◌+◌, ◌/◌, ◌%◌, ◌<◌, ◌≡◌, ◌⊎◌, ◌↔◌, inl, inr, Option-cases, refl, ap, ◌∙◌, true, false, Option,
  none, some, List, [], ◌∷◌, ◌++◌, ok, arith, if◌then◌else◌, ◌==◌, elem, ℕ_discrete,
}
use linux_debug_mcp.Transport.Rsp.{
  dollar, hash, sum, hex_digit, behind, split_at, frame_of, rsp_frame, digit_value, parse_hex,
  first_frame, valid_rsp_frame, is_stop, first_stop_reply, checked, behind_dollar,
}

-- No byte of the list is `b`.
abbrev pub Lacks : ℕ → List ℕ → Type 0
Lacks b bs = elem ℕ_discrete b bs ≡ false

split_at-append :
    (b : ℕ) (before after : List ℕ)
    → Lacks b before
    → split_at b (before ++ b ∷ after) ≡ some (before, after)
unfolding split_at elem
split_at-append b [] after h = ground arith
split_at-append b (c ∷ cs) after h = ground (arith, split_at-append b cs after)

behind_sound :
    (b c : ℕ) (cs : List ℕ) (later : Option (List ℕ × List ℕ)) (before after : List ℕ)
    → ((x y : List ℕ) → later ≡ some (x, y) → (cs ≡ x ++ b ∷ y) × Lacks b x)
    → (if c == b then some ([], cs) else behind c later) ≡ some (before, after)
    → (c ∷ cs ≡ before ++ b ∷ after) × Lacks b before
unfolding elem
behind_sound b c cs none before after ih h = ground arith
behind_sound b c cs (some (x, y)) before after ih h = ground (arith, ih x y refl)

split_at_sound :
    (b : ℕ) (bs before after : List ℕ)
    → split_at b bs ≡ some (before, after)
    → (bs ≡ before ++ b ∷ after) × Lacks b before
unfolding split_at
split_at_sound b [] before after h = ground arith
split_at_sound b (c ∷ cs) before after h =
    behind_sound b c cs (split_at b cs) before after (split_at_sound b cs) h

digit_value-hex_digit : (d : ℕ) → d < 16 → digit_value (hex_digit d) ≡ some d
unfolding digit_value hex_digit
digit_value-hex_digit d h = ground arith

parse_hex-hex_digit :
    (n : ℕ) → n < 256 → parse_hex (hex_digit (n / 16)) (hex_digit (n % 16)) ≡ some n
unfolding parse_hex
parse_hex-hex_digit n h = ground (
  arith,
  digit_value-hex_digit (n / 16) (omega arith),
  digit_value-hex_digit (n % 16) (omega arith),
)

-- What stands behind the first `#`, in the code's order.
checked-frame :
    (payload : List ℕ) (rest : List ℕ)
    → checked (
        some
          (payload, hex_digit (sum payload % 256 / 16) ∷ hex_digit (sum payload % 256 % 16) ∷ rest))
      ≡ some payload
checked-frame payload rest = ground (arith, parse_hex-hex_digit (sum payload % 256) (omega arith))

first_frame-frame :
    (acks payload : List ℕ) (a b : ℕ) (rest : List ℕ)
    → Lacks dollar acks
    → Lacks hash payload
    → first_frame (acks ++ (dollar ∷ (payload ++ (hash ∷ a ∷ b ∷ rest))))
      ≡ checked (some (payload, a ∷ b ∷ rest))
unfolding first_frame
first_frame-frame acks payload a b rest no_dollar no_hash =
    rw (split_at-append dollar acks (payload ++ (hash ∷ a ∷ b ∷ rest)) no_dollar)
      (rw (split_at-append hash payload (a ∷ b ∷ rest) no_hash) refl)

first_frame-append :
    (acks payload rest : List ℕ)
    → Lacks dollar acks
    → Lacks hash payload
    → first_frame (acks ++ (frame_of payload ++ rest)) ≡ some payload
first_frame-append acks payload rest no_dollar no_hash =
    rw append_assoc
      (first_frame-frame acks payload _ _ rest no_dollar no_hash ∙ checked-frame payload rest)

-- The payload begins with `T` (84) or `S` (83).
abbrev pub BeginsStop : List ℕ → Type 0
BeginsStop [] = ⊥
BeginsStop (c ∷ cs) = (c ≡ 84) ⊎ (c ≡ 83)

BeginsStop-iff : (payload : List ℕ) → (is_stop payload ≡ true) ↔ BeginsStop payload
unfolding is_stop
BeginsStop-iff [] = ground arith
BeginsStop-iff (c ∷ cs) = ground arith

-- A frame that `rsp_frame` makes of a payload without `#` is recognised, whatever precedes it
-- without a `$` and whatever follows it, and `_first_stop_reply` returns its payload just if that
-- begins with `T` or `S`. What `_first_stop_reply` makes of a later frame is left open.
pub rsp_frame_recognised :
    (acks payload rest : List ℕ) {frame : List ℕ}
    → rsp_frame payload ≡ ok frame
    → Lacks dollar acks
    → Lacks hash payload
    → (valid_rsp_frame (acks ++ (frame ++ rest)) ≡ true)
      × ((first_stop_reply (acks ++ (frame ++ rest)) ≡ some payload) ↔ BeginsStop payload)
unfolding rsp_frame valid_rsp_frame first_stop_reply
rsp_frame_recognised acks payload rest framed no_dollar no_hash =
    ground (arith, first_frame-append acks payload rest no_dollar no_hash, BeginsStop-iff payload)

-- The bytes' sum, for the checksum of a packet.
abbrev pub total : List ℕ → ℕ
total [] = 0
total (b ∷ bs) = b + total bs

sum-total : (bs : List ℕ) → sum bs ≡ total bs
unfolding sum
sum-total [] = refl
sum-total (b ∷ bs) = ground (arith, sum-total bs)

-- A checksum-valid packet stands in the buffer, behind its first `$` and up to the first `#` there.
pub IsFrameIn : List ℕ → List ℕ → Type 0
IsFrameIn buffer payload =
    (acks : List ℕ) × (a : ℕ) × (b : ℕ) × (rest : List ℕ) × (buffer
      ≡ acks ++ (dollar ∷ (payload ++ (hash ∷ a ∷ b ∷ rest))))
    × Lacks dollar acks
    × Lacks hash payload
    × (parse_hex a b ≡ some (total payload % 256))

checked_sound :
    (found : Option (List ℕ × List ℕ)) (payload : List ℕ)
    → checked found ≡ some payload
    → (a : ℕ) × (b : ℕ) × (rest : List ℕ) × (found ≡ some (payload, a ∷ b ∷ rest))
      × (parse_hex a b ≡ some (total payload % 256))
checked_sound none payload h = cc
checked_sound (some (p, [])) payload h = cc
checked_sound (some (p, a ∷ [])) payload h = cc
checked_sound (some (p, a ∷ b ∷ rest)) payload h =
    (a, b, rest, ground arith, rw (← sum-total payload) (ground arith))

behind_dollar_sound :
    (buffer payload : List ℕ) (found : Option (List ℕ × List ℕ))
    → split_at dollar buffer ≡ found
    → behind_dollar found ≡ some payload
    → IsFrameIn buffer payload
unfolding IsFrameIn
behind_dollar_sound buffer payload none e h = cc
behind_dollar_sound buffer payload (some (acks, after)) e h =
    let (a, b, rest, found, sums) = checked_sound (split_at hash after) payload h in
    let (whole, no_dollar) = split_at_sound dollar buffer acks after e in
    let (inner, no_hash) = split_at_sound hash after payload (a ∷ b ∷ rest) found in
    (acks, a, b, rest, whole ∙ ap (λ xs. acks ++ (dollar ∷ xs)) inner, no_dollar, no_hash, sums)

-- A packet in the buffer is what the search for a frame finds, and nothing else is found.
first_frame_iff :
    (buffer payload : List ℕ) → (first_frame buffer ≡ some payload) ↔ IsFrameIn buffer payload
unfolding IsFrameIn
first_frame_iff buffer payload = (sound, complete)
  where
    sound : first_frame buffer ≡ some payload → IsFrameIn buffer payload
    sound h =
        behind_dollar_sound buffer payload (split_at dollar buffer) refl (unfold first_frame in h)

    complete : IsFrameIn buffer payload → first_frame buffer ≡ some payload
    complete (acks, a, b, rest, whole, no_dollar, no_hash, sums) = rw whole (
        first_frame-frame acks payload a b rest no_dollar no_hash
        ∙ ground (arith, sums, sum-total payload))

-- `valid_rsp_frame` is True just if a checksum-valid packet stands in the buffer, behind its first
-- `$` and up to the first `#` there: for every other buffer it is False.
pub valid_rsp_frame_lem :
    (buffer : List ℕ)
    → (valid_rsp_frame buffer ≡ true) ↔ ((payload : List ℕ) × IsFrameIn buffer payload)
unfolding valid_rsp_frame
valid_rsp_frame_lem buffer = (
  λ h. elim (Option-cases (first_frame buffer)) [
    | inl nothing ↦ ground arith
    | inr (payload, found) ↦ (payload, (first_frame_iff buffer payload).0 found)
  ],
  λ (payload, framed). rw ((first_frame_iff buffer payload).1 framed, valid_rsp_frame),
)

-- `_first_stop_reply` returns a payload just if it is that of the packet that stands so in the
-- buffer and begins with `T` or `S`; for every other buffer it returns None.
pub first_stop_reply_lem :
    (buffer payload : List ℕ)
    → (first_stop_reply buffer ≡ some payload) ↔ (IsFrameIn buffer payload × BeginsStop payload)
unfolding first_stop_reply
first_stop_reply_lem buffer payload = ground (
  arith,
  BeginsStop-iff payload,
  (first_frame_iff buffer payload).0,
  (first_frame_iff buffer payload).1,
)

-- The first packet of the buffer is a stop reply.
abbrev pub FirstIsStopReply : List ℕ → Type 0
FirstIsStopReply buffer = (payload : List ℕ) × IsFrameIn buffer payload × BeginsStop payload

-- A stop reply stands in the buffer, wherever that is: a checksum-valid packet whose payload begins
-- with `T` or `S`.
abbrev pub HoldsStopReply : List ℕ → Type 0
HoldsStopReply buffer =
    (before : List ℕ) × (payload : List ℕ) × (a : ℕ) × (b : ℕ) × (rest : List ℕ) × (buffer
      ≡ before ++ (dollar ∷ (payload ++ (hash ∷ a ∷ b ∷ rest))))
    × (parse_hex a b ≡ some (total payload % 256))
    × BeginsStop payload

pub FirstIsStopReply-holds : (buffer : List ℕ) → FirstIsStopReply buffer → HoldsStopReply buffer
unfolding IsFrameIn
FirstIsStopReply-holds buffer (payload, (acks, a, b, rest, whole, _, _, sums), begins) =
    (acks, payload, a, b, rest, whole, sums, begins)
