-- ===== src/Transport/Rsp/Exchange.antt =====
-- The bounded exchange of one query (rsp_reachable in src/kdive/transport/core/rsp_probe.py,
-- probe_rsp_halted in src/kdive/coordination/exec_probe.py). What the socket and the clock do is a
-- value: whether the connection and the query succeed, and what each `recv` before the deadline or
-- the cancellation gives.
pub mod Answers
use mathlib.Core.List.{append_assoc, append-nil}
use linux_debug_mcp.Base.{
  ℕ, ◌+◌, ◌≤◌, ◌≡◌, ◌≢◌, ◌↔◌, refl, ap, ◌∙◌, inl, inr, Bool-cases, Bool, true, false, Option, none,
  some, List, [], ◌∷◌, ◌++◌, arith, if◌then◌else◌, ltb, length,
}
use linux_debug_mcp.Transport.Rsp.{valid_rsp_frame, first_stop_reply}

-- An empty chunk is the end of the stream.
pub data Recv : Type 0 where
  chunk : List ℕ → Recv
  timeout_error os_error : Recv

pub data Peer : Type 0 where
  unreachable send_failed : Peer
  answers : List Recv → Peer

abbrev pub rsp_max_accumulate_bytes : ℕ
rsp_max_accumulate_bytes = 4096

module _ (recognised : List ℕ → Bool) where
  -- The loop, from the bytes that are buffered.
  unfoldable pub accumulate : List ℕ → List Recv → Bool
  accumulate buffer [] = false
  accumulate buffer (timeout_error ∷ events) = accumulate buffer events
  accumulate buffer (os_error ∷ events) = false
  accumulate buffer (chunk [] ∷ events) = false
  accumulate buffer (chunk (b ∷ bs) ∷ events) =
      let buffer' = buffer ++ (b ∷ bs) in
      let later = accumulate buffer' events in
      if recognised buffer'
      then true
      else if ltb rsp_max_accumulate_bytes (length buffer')
      then false
      else later

  unfoldable pub exchange : Peer → Bool
  exchange unreachable = false
  exchange send_failed = false
  exchange (answers events) = accumulate [] events

unfoldable pub rsp_reachable : Peer → Bool
rsp_reachable = exchange valid_rsp_frame

unfoldable pub has_stop_reply : List ℕ → Bool
has_stop_reply buffer = elim (first_stop_reply buffer) [ none ↦ false | some reply ↦ true ]

-- `tcp` says that the session's RSP endpoint is a TcpEndpoint.
unfoldable pub probe_rsp_halted : Bool → Peer → Bool
unfolding has_stop_reply
probe_rsp_halted tcp peer = if tcp then exchange has_stop_reply peer else false

-- The bytes that the events have brought.
abbrev pub received : List Recv → List ℕ
received [] = []
received (chunk bytes ∷ events) = bytes ++ received events
received (_ ∷ events) = received events

-- Neither the stream nor the connection has ended.
abbrev pub GoesOn : List Recv → Type 0
GoesOn [] = Unit {0}
GoesOn (chunk bytes ∷ events) = (bytes ≢ []) × GoesOn events
GoesOn (timeout_error ∷ events) = GoesOn events
GoesOn (os_error ∷ events) = ⊥

-- A chunk arrives with which the received bytes meet the condition, while at most 4096 bytes came
-- before it and nothing has ended.
pub record Recognition (Accepts : List ℕ → Type 0) (buffer : List ℕ) (events : List Recv)
    : Type 0 where
  pub before : List Recv
  pub bytes : List ℕ
  pub after : List Recv
  pub parts : events ≡ before ++ (chunk bytes ∷ after)
  pub open_before : GoesOn before
  pub some_bytes : bytes ≢ []
  pub bounded : length (buffer ++ received before) ≤ rsp_max_accumulate_bytes
  pub accepted : Accepts ((buffer ++ received before) ++ bytes)
