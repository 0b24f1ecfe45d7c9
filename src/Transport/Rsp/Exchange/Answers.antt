-- ===== src/Transport/Rsp/Exchange/Answers.antt =====
-- When an exchange answers True (rsp_reachable in src/kdive/transport/core/rsp_probe.py,
-- probe_rsp_halted in src/kdive/coordination/exec_probe.py).
use mathlib.Core.List.{append_assoc, append-nil}
use linux_debug_mcp.Base.{
  ℕ, ◌+◌, ◌≤◌, ◌≡◌, ◌≢◌, ◌↔◌, refl, ap, inl, inr, Bool-cases, Option-cases, Bool, true, false, List,
  [], ◌∷◌, ◌++◌, arith, length,
}
use linux_debug_mcp.Transport.Rsp.{valid_rsp_frame, first_stop_reply}
use linux_debug_mcp.Transport.Rsp.Framing.{
  FirstIsStopReply, HoldsStopReply, FirstIsStopReply-holds, first_stop_reply_lem,
}
use linux_debug_mcp.Transport.Rsp.Exchange.{
  Recv, chunk, timeout_error, os_error, Peer, unreachable, send_failed, answers,
  rsp_max_accumulate_bytes, accumulate, exchange, rsp_reachable, has_stop_reply, probe_rsp_halted,
  received, GoesOn, Recognition,
}

length-append : (xs ys : List ℕ) → length (xs ++ ys) ≡ length xs + length ys
length-append [] ys = omega arith
length-append (x ∷ xs) ys = omega (arith, length-append xs ys)

module _ (recognised : List ℕ → Bool) where
  accumulate_complete :
      (before : List Recv) (buffer bytes : List ℕ) (after : List Recv)
      → GoesOn before
      → bytes ≢ []
      → length (buffer ++ received before) ≤ rsp_max_accumulate_bytes
      → recognised ((buffer ++ received before) ++ bytes) ≡ true
      → accumulate recognised buffer (before ++ (chunk bytes ∷ after)) ≡ true
  unfolding accumulate
  accumulate_complete [] buffer [] after open_before nonempty bounded accepted =
      absurd (nonempty refl)
  accumulate_complete [] buffer (b ∷ bs) after open_before nonempty bounded accepted =
      let kept : recognised (buffer ++ (b ∷ bs)) ≡ true = rw append-nil at accepted in rw kept
  accumulate_complete (timeout_error ∷ before) buffer bytes after open_before nonempty bounded
        accepted =
      accumulate_complete before buffer bytes after open_before nonempty bounded accepted
  accumulate_complete (os_error ∷ before) buffer bytes after open_before nonempty bounded accepted =
      absurd open_before
  accumulate_complete (chunk [] ∷ before) buffer bytes after open_before nonempty bounded accepted =
      absurd (open_before.0 refl)
  accumulate_complete (chunk (b ∷ bs) ∷ before) buffer bytes after open_before nonempty bounded
        accepted =
      let grouped : (buffer ++ (b ∷ bs)) ++ received before
          ≡ buffer ++ ((b ∷ bs) ++ received before) =
        append_assoc buffer (b ∷ bs) (received before) in
      let short : length ((buffer ++ (b ∷ bs)) ++ received before) ≤ rsp_max_accumulate_bytes =
        rw grouped bounded in
      ground (
        arith,
        accumulate_complete before (buffer ++ (b ∷ bs)) bytes after open_before.1 nonempty short
            (rw grouped accepted),
        length-append (buffer ++ (b ∷ bs)) (received before),
        short,
      )

  abbrev Found : List ℕ → List Recv → Type 0
  Found buffer events = Recognition (λ bytes. recognised bytes ≡ true) buffer events

  later-Found :
      (buffer : List ℕ) (b : ℕ) (bs : List ℕ) (events : List Recv)
      → Found (buffer ++ (b ∷ bs)) events
      → Found buffer (chunk (b ∷ bs) ∷ events)
  later-Found buffer b bs events r =
      let grouped : (buffer ++ (b ∷ bs)) ++ received r.before
          ≡ buffer ++ ((b ∷ bs) ++ received r.before) =
        append_assoc buffer (b ∷ bs) (received r.before) in
      record {
        before = chunk (b ∷ bs) ∷ r.before;
        bytes = r.bytes;
        after = r.after;
        parts = ap (λ es. chunk (b ∷ bs) ∷ es) r.parts;
        open_before = (λ e. cc, r.open_before);
        some_bytes = r.some_bytes;
        bounded = rw (← grouped) r.bounded;
        accepted = rw (← grouped) r.accepted;
      }

  accumulate_sound :
      (buffer : List ℕ) (events : List Recv)
      → length buffer ≤ rsp_max_accumulate_bytes
      → accumulate recognised buffer events ≡ true
      → Found buffer events
  unfolding accumulate
  accumulate_sound buffer [] short h = cc
  accumulate_sound buffer (os_error ∷ events) short h = cc
  accumulate_sound buffer (chunk [] ∷ events) short h = cc
  accumulate_sound buffer (timeout_error ∷ events) short h =
      let r = accumulate_sound buffer events short h in
      record {
        before = timeout_error ∷ r.before;
        bytes = r.bytes;
        after = r.after;
        parts = ap (λ es. timeout_error ∷ es) r.parts;
        open_before = r.open_before;
        some_bytes = r.some_bytes;
        bounded = r.bounded;
        accepted = r.accepted;
      }
  accumulate_sound buffer (chunk (b ∷ bs) ∷ events) short h =
      elim (Bool-cases (recognised (buffer ++ (b ∷ bs)))) [
        | inl found ↦ record {
          before = [];
          bytes = b ∷ bs;
          after = events;
          parts = refl;
          open_before = tt;
          some_bytes = λ e. cc;
          bounded = rw append-nil short;
          accepted = rw append-nil found;
        }
        | inr more ↦
            later-Found buffer b bs events
              (accumulate_sound (buffer ++ (b ∷ bs)) events (ground arith) (ground arith))
      ]

  accumulate-Found : (events : List Recv) → Found [] events → accumulate recognised [] events ≡ true
  accumulate-Found events r = rw r.parts (
      accumulate_complete r.before [] r.bytes r.after r.open_before r.some_bytes r.bounded
        r.accepted)

  exchange_iff :
      (peer : Peer)
      → (exchange recognised peer ≡ true)
        ↔ ((events : List Recv) × (peer ≡ answers events) × Found [] events)
  unfolding exchange
  exchange_iff unreachable = (λ h. cc, λ (events, h, r). cc)
  exchange_iff send_failed = (λ h. cc, λ (events, h, r). cc)
  exchange_iff (answers events) = (
    λ h. (events, refl, accumulate_sound [] events (omega arith) h),
    λ (es, h, r). let same : events ≡ es = cc in rw same (accumulate-Found es r),
  )

-- `rsp_reachable` is True just if the connection and the query succeed and, before the deadline, a
-- nonempty chunk arrives that completes a checksum-valid packet in what was received, while at most
-- 4096 bytes came before that chunk and neither the stream nor the connection had ended.
pub rsp_reachable_lem :
    (peer : Peer)
    → (rsp_reachable peer ≡ true) ↔ (
        (events : List Recv) × (peer ≡ answers events)
        × Recognition (λ bytes. valid_rsp_frame bytes ≡ true) [] events)
unfolding rsp_reachable
rsp_reachable_lem = exchange_iff valid_rsp_frame

Recognition-imp :
    {P Q : List ℕ → Type 0} {buffer : List ℕ} {events : List Recv}
    → ((bytes : List ℕ) → P bytes → Q bytes)
    → Recognition P buffer events
    → Recognition Q buffer events
Recognition-imp implies r = record {
  before = r.before;
  bytes = r.bytes;
  after = r.after;
  parts = r.parts;
  open_before = r.open_before;
  some_bytes = r.some_bytes;
  bounded = r.bounded;
  accepted = implies _ r.accepted;
}

has_stop_reply_iff : (bytes : List ℕ) → (has_stop_reply bytes ≡ true) ↔ FirstIsStopReply bytes
unfolding has_stop_reply
has_stop_reply_iff bytes = (
  λ h. elim (Option-cases (first_stop_reply bytes)) [
    | inl nothing ↦ ground arith
    | inr (payload, found) ↦
        let (framed, begins) = (first_stop_reply_lem bytes payload).0 found in
        (payload, framed, begins)
  ],
  λ (payload, framed, begins).
      rw ((first_stop_reply_lem bytes payload).1 (framed, begins), has_stop_reply) refl,
)

-- What an answer of True says, and what makes the answer True. The RSP endpoint is a TCP endpoint,
-- the connection and the query succeed and, before the deadline, a nonempty chunk arrives with which
-- what was received meets the condition, while at most 4096 bytes came before that chunk and neither
-- the stream nor the connection had ended.
abbrev pub Reads : (List ℕ → Type 0) → Bool → Peer → Type 0
Reads Accepts tcp peer =
    (tcp ≡ true) × ((events : List Recv) × (peer ≡ answers events) × Recognition Accepts [] events)

-- Where `probe_rsp_halted` is True, the RSP endpoint is a TCP endpoint, the connection and the query
-- succeeded and, before the deadline, a nonempty chunk arrived with which a stop reply stands in what
-- was received: a checksum-valid packet whose payload begins with `T` or `S`; at most 4096 bytes came
-- before that chunk, and neither the stream nor the connection had ended. It is True where all this
-- is so and that packet is the first of what was received. A stop reply behind another packet is
-- left open.
pub probe_rsp_halted_lem :
    (tcp : Bool) (peer : Peer)
    → (probe_rsp_halted tcp peer ≡ true → Reads HoldsStopReply tcp peer)
      × (Reads FirstIsStopReply tcp peer → probe_rsp_halted tcp peer ≡ true)
unfolding probe_rsp_halted
probe_rsp_halted_lem true peer = (
  λ h.
      let (events, answered, r) = (exchange_iff has_stop_reply peer).0 h in
      (
        refl,
        (
          events,
          answered,
          Recognition-imp
              (λ bytes found. FirstIsStopReply-holds bytes ((has_stop_reply_iff bytes).0 found)) r,
        ),
      ),
  λ (_, (events, answered, r)).
      (exchange_iff has_stop_reply peer).1
        (events, answered, Recognition-imp (λ bytes first. (has_stop_reply_iff bytes).1 first) r),
)
probe_rsp_halted_lem false peer = (λ h. cc, λ h. cc h.0)
