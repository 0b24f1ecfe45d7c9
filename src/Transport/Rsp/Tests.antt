-- ===== src/Transport/Rsp/Tests.antt =====
-- The framing and the exchange at concrete bytes.
use linux_debug_mcp.Base.{
  ℕ, ◌≡◌, ◌↔◌, refl, true, false, none, some, List, [], ◌∷◌, ◌++◌, ok, elem, ℕ_discrete,
}
use linux_debug_mcp.Transport.Rsp.{
  sum, is_ascii, hex_digit, split_at, rsp_frame, digit_value, parse_hex, first_frame,
  valid_rsp_frame, is_stop, first_stop_reply,
}
use linux_debug_mcp.Transport.Rsp.Framing.{
  BeginsStop, FirstIsStopReply, HoldsStopReply, rsp_frame_recognised,
}
use linux_debug_mcp.Transport.Rsp.Exchange.{
  chunk, timeout_error, Peer, answers, accumulate, exchange, rsp_reachable, probe_rsp_halted,
}
use linux_debug_mcp.Transport.Rsp.Exchange.Answers.{Reads, probe_rsp_halted_lem}

-- `+`, and `T05` in its frame `$T05#b9`.
abbrev ack : List ℕ
ack = 43 ∷ []

abbrev stop_payload : List ℕ
stop_payload = 84 ∷ 48 ∷ 53 ∷ []

abbrev stop_frame : List ℕ
stop_frame = 36 ∷ 84 ∷ 48 ∷ 53 ∷ 35 ∷ 98 ∷ 57 ∷ []

framed : rsp_frame stop_payload ≡ ok stop_frame
unfolding rsp_frame is_ascii sum hex_digit
framed = refl

-- A wrong checksum, and a frame that is cut short.
corrupted : valid_rsp_frame (36 ∷ 84 ∷ 48 ∷ 53 ∷ 35 ∷ 98 ∷ 56 ∷ []) ≡ false
unfolding valid_rsp_frame first_frame split_at parse_hex digit_value sum
corrupted = refl

cut_short : valid_rsp_frame (36 ∷ 84 ∷ 48 ∷ 53 ∷ 35 ∷ 98 ∷ []) ≡ false
unfolding valid_rsp_frame first_frame split_at parse_hex digit_value sum
cut_short = refl

rsp_frame_recognised_example :
    (valid_rsp_frame (ack ++ (stop_frame ++ [])) ≡ true)
    × ((first_stop_reply (ack ++ (stop_frame ++ [])) ≡ some stop_payload) ↔ BeginsStop stop_payload)
unfolding elem ℕ_discrete
rsp_frame_recognised_example = rsp_frame_recognised ack stop_payload [] framed refl refl

-- A stop reply behind the frame `$OK#9a`.
hides_stop_reply : first_stop_reply ((36 ∷ 79 ∷ 75 ∷ 35 ∷ 57 ∷ 97 ∷ []) ++ stop_frame) ≡ none
unfolding first_stop_reply first_frame split_at parse_hex digit_value sum is_stop
hides_stop_reply = refl

-- The acknowledgement comes alone, then nothing for a while, then the frame.
abbrev halted_stub : Peer
halted_stub = answers (chunk ack ∷ timeout_error ∷ chunk stop_frame ∷ [])

stub_reachable : rsp_reachable halted_stub ≡ true
unfolding rsp_reachable exchange accumulate valid_rsp_frame first_frame split_at parse_hex
    digit_value sum
stub_reachable = refl

probe_rsp_halted_lem_example :
    (probe_rsp_halted true halted_stub ≡ true → Reads HoldsStopReply true halted_stub)
    × (Reads FirstIsStopReply true halted_stub → probe_rsp_halted true halted_stub ≡ true)
probe_rsp_halted_lem_example = probe_rsp_halted_lem true halted_stub
