-- ===== src/Coordination/Transaction/Commits.antt =====
-- The stages of an open from its first record on keep account of what the call holds
-- (src/kdive/coordination/transaction.py).
use linux_debug_mcp.Base.{
  ℕ, ◌≡◌, ◌≢◌, refl, sym, subst, ap, ◌∙◌, String, true, Option, none, some, arith, inr,
}
use linux_debug_mcp.Seams.Target.{TargetKey}
use linux_debug_mcp.Seams.TransportState.{TransportSession, OpenRequest}
use linux_debug_mcp.Seams.Guard.{GuardToken}
use linux_debug_mcp.Coordination.Selection.{Selection}
use linux_debug_mcp.Coordination.Admission.{found}
use linux_debug_mcp.Coordination.Registry.{
  SessionRegistry, read_record, read_tombstone, write_record,
}
use linux_debug_mcp.Coordination.Registry.Store.{read_record-write_record}
use linux_debug_mcp.Coordination.Transaction.{OpenState, TransportTransaction}
use linux_debug_mcp.Coordination.Transaction.Open.{
  Progress, M, Surroundings, set_tx, refused, write_opening_record, opening_record, written,
  keep_token,
}
use linux_debug_mcp.Coordination.Transaction.Owed.{
  Ensures, bind-Ensures, RecordOwed, DictOwed, SubscribersOwed,
}
use linux_debug_mcp.Coordination.Transaction.Stages.{
  writes, Accounts, At, Unrecorded, Recorded, lift-Goes,
}

read_tombstone-write_record :
    (reg : SessionRegistry) (session : TransportSession) (j : TargetKey)
    → read_tombstone (write_record reg session) j ≡ read_tombstone reg j
unfolding read_tombstone write_record
read_tombstone-write_record reg session j = refl

module _ (env : Surroundings) (request : OpenRequest) (handle : ℕ)
    (before : TransportTransaction) where
  abbrev k : TargetKey
  k = request.target_key

  abbrev id : String
  id = env.session_id

  -- But for the session's own entries, the durable and the session dicts are those of `before`.
  pub record Others (p : Progress) : Type 0 where
    pub records :
        (j : TargetKey) → k ≢ j → read_record p.tx.registry j ≡ read_record before.registry j
    pub handle_dict : (i : String) → id ≢ i → p.tx.handles i ≡ before.handles i
    pub subscribers :
        SubscribersOwed k id (writes env) before.subscribers p.tx.subscribers (some id)

  Unrecorded-Others :
      (p : Progress)
      → At env request handle before (Unrecorded env request handle before) p
      → Others p
  Unrecorded-Others p (o, none_yet) = record {
    records = λ j other.
        subst (λ (s : Option String). RecordOwed k id (writes env) before.registry p.tx.registry s)
          none_yet o.record_owed j;
    handle_dict = λ i other.
        subst (λ (s : Option String). DictOwed k id (writes env) before.handles p.tx.handles s)
          none_yet o.handles_owed i;
    subscribers =
        let all =
          subst
            (λ (s : Option String).
              SubscribersOwed k id (writes env) before.subscribers p.tx.subscribers s)
            none_yet o.subscribers_owed in
        (λ j i other. all j i, λ i other. all k i);
  }

  pub Recorded-Others :
      (p : Progress)
      → At env request handle before (Recorded env request handle before) p
      → Others p
  Recorded-Others p (o, own) = record {
    records =
        (subst (λ (s : Option String). RecordOwed k id (writes env) before.registry p.tx.registry s)
          own o.record_owed).0;
    handle_dict =
        subst (λ (s : Option String). DictOwed k id (writes env) before.handles p.tx.handles s) own
          o.handles_owed;
    subscribers =
        subst
          (λ (s : Option String).
            SubscribersOwed k id (writes env) before.subscribers p.tx.subscribers s)
          own o.subscribers_owed;
  }

  -- What a write of the session's record leaves.
  abbrev pub after_write :
      Progress → (String → Option GuardToken) → OpenState → TransportSession → Progress
  after_write p tokens held session = record {
    tx = record p.tx { tokens = tokens; registry = write_record p.tx.registry session };
    held = record held { session_id = some session.session_id };
  }

  pub account_written :
      (p : Progress) (tokens : String → Option GuardToken) (held : OpenState)
      (session : TransportSession)
      → Accounts env request handle before p
      → Others p
      → held.guard_token ≡ p.held.guard_token
      → held.lease_token ≡ p.held.lease_token
      → session.target_key ≡ k
      → session.session_id ≡ id
      → ((i : String) → id ≢ i → tokens i ≡ before.tokens i)
      → At env request handle before
          (Recorded env request handle before)
          (after_write p tokens held session)
  account_written p tokens held session o others guard_same lease_same named owned token_dict = (
    record {
      guard_owed = rw guard_same o.guard_owed;
      lease_owed = rw lease_same o.lease_owed;
      record_owed = (
        λ j other.
            read_record-write_record p.tx.registry session j ∙ ground (arith, others.records j),
        (session, read_record-write_record p.tx.registry session k ∙ ground arith, refl),
      );
      tombs_kept = λ j. read_tombstone-write_record p.tx.registry session j ∙ o.tombs_kept j;
      tokens_owed = token_dict;
      token_owed = λ w.
          subst (λ (s : String). DictOwed k id (writes env) before.tokens tokens (some s))
            (sym owned) token_dict;
      handles_owed =
          subst (λ (s : String). DictOwed k id (writes env) before.handles p.tx.handles (some s))
            (sym owned) others.handle_dict;
      subscribers_owed =
          subst
            (λ (s : String).
              SubscribersOwed k id (writes env) before.subscribers p.tx.subscribers (some s))
            (sym owned) others.subscribers;
      own_session = inr (ap (λ (s : String). some s) owned);
    },
    ap (λ (s : String). some s) owned,
  )

  -- The session is the one that this call opens.
  abbrev pub Own : TransportSession → Type 0
  Own session = (session.target_key ≡ k) × (session.session_id ≡ id)

  -- A stage that may raise leaves the account, and the record that it returns is the session's.
  abbrev pub Records : M TransportSession → Progress → Type 0
  Records m p =
      Ensures (Accounts env request handle before)
        (λ session q.
          At env request handle before (Recorded env request handle before) q × Own session)
        m p

  -- `token_dict` speaks of the token that is kept although its record could not be written.
  refused_write :
      (e : String) (p : Progress) (tokens : String → Option GuardToken)
      → env.opening_write_raises ≡ some e
      → Accounts env request handle before p
      → ((i : String) → id ≢ i → tokens i ≡ before.tokens i)
      → Accounts env request handle before (set_tx p (record p.tx { tokens = tokens }))
  refused_write e p tokens fails o token_dict = record {
    guard_owed = o.guard_owed;
    lease_owed = o.lease_owed;
    record_owed = o.record_owed;
    tombs_kept = o.tombs_kept;
    tokens_owed = token_dict;
    token_owed = λ w. token_dict_for w;
    handles_owed = o.handles_owed;
    subscribers_owed = o.subscribers_owed;
    own_session = o.own_session;
  }
    where
      token_dict_for :
          writes env ≡ true → DictOwed k id (writes env) before.tokens tokens p.held.session_id
      token_dict_for w = ground (arith, fails, w)

  kept_token :
      (p : Progress) (token : GuardToken)
      → Accounts env request handle before p
      → (i : String) → id ≢ i
      → (keep_token env request handle p token).tx.tokens i ≡ before.tokens i
  kept_token p token o i other = ground (arith, o.tokens_owed i)

  pub written-Records :
      (text : Option String) (session : TransportSession) (p : Progress)
      → ((e : String) → text ≡ some e → Accounts env request handle before p)
      → At env request handle before
          (Recorded env request handle before)
          (after_write p p.tx.tokens p.held session)
      → Own session
      → Records (written env request handle text session) p
  unfolding written
  written-Records none session p refusal done own = record { ensured = (done, own) }
  written-Records (some e) session p refusal done own = record { ensured = refusal e refl }

  opened-Records :
      (session : TransportSession) (token : GuardToken) (p : Progress)
      → At env request handle before (Unrecorded env request handle before) p
      → Own session
      → Records
          (λ q.
            written env request handle env.opening_write_raises session
              (keep_token env request handle q token))
          p
  opened-Records session token p (o, x) own = record {
    ensured =
        (written-Records env.opening_write_raises session (keep_token env request handle p token)
          (λ e fails.
            refused_write e p (keep_token env request handle p token).tx.tokens fails o
              (kept_token p token o))
          (account_written p (keep_token env request handle p token).tx.tokens p.held session o
            (Unrecorded-Others p (o, x)) refl refl own.0 own.1 (kept_token p token o))
          own).ensured;
  }

  pub write_opening_record-Records :
      (selection : Selection) (token : GuardToken) (lease : Option String) (p : Progress)
      → At env request handle before (Unrecorded env request handle before) p
      → Records (write_opening_record env request handle selection token lease) p
  unfolding write_opening_record opening_record
  write_opening_record-Records selection token lease p h =
      let chain =
        bind-Ensures
          (lift-Goes env request handle before (Unrecorded env request handle before) refused
            (found (p.tx.admission.heap handle)) p h)
          (λ owner q hq.
            opened-Records
              (opening_record env request handle selection token lease owner.admit_epoch) token q hq
              (refl, refl)) in
      record { ensured = chain.ensured }
