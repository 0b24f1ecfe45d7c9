-- ===== src/Lib.antt =====
-- Verification of the coordination core of KDIVE, a server that lets several clients boot, break
-- into and debug Linux kernels. Sources stand under src/kdive.
--
-- A target is a machine that somebody provisions; its owner publishes snapshots of it (generation,
-- channels, platform, state, lease). A client that wants a debug transport or ssh work asks the
-- admission service for a handle. The open transaction then selects a channel and a way to break
-- into the kernel, takes the stop-capable guard of the target and its console lease, writes a durable
-- record, attaches the backend, and promotes the handle; where a stage raises, it rolls back. Ssh work
-- shows a proof that the kernel executes, which is read from the durable record. A debugger runs the
-- session guard and relaxes the lockup watchdogs. A reboot or a crash closes admission, cancels what
-- is in flight and waits until each promoted session is reaped; a restarted server reconciles the
-- records that it finds. A transition of a target is emitted to its subscribers, which tear down what
-- they own before a deadline or are dropped by force. Secrets that an open resolves are registered, and
-- masked in logs and answers. Beside these stand two parsers of what comes from outside: the build id
-- of a kernel image, and the commands of a crash batch.
--
-- Files
--   Base: the names all modules share, Boolean tests on native numbers, lists without duplicates,
--     association lists, and results with `raise_if`.
--   Seams/Target, Seams/Routing, Seams/TransportState (seams/target.py, seams/transport_state.py):
--     the vocabulary. `target_ref` and `opts` are JSON values with Python's `==`.
--   Coordination/Admission (coordination/admission.py): the class AdmissionService as a record of
--     its dicts beside a heap of handles, one function for each method. Gate and SshTier are the
--     admissions; Bindings what becomes of a handle; Lifecycle close, reopen and the tombstone;
--     Calls the histories of calls. Conditions and Admits say when an admission succeeds, Returns
--     what a method that returns has done, Invariant what each state satisfies, Evolution how two
--     states of a history compare, Closing what a close holds back.
--   Coordination/Lease (coordination/lease.py): ConsoleLease and ConsoleLeaseManager.
--   Coordination/Selection (coordination/selection.py): the channel that an open is given.
--   Coordination/Registry (coordination/registry.py): the durable records and tombstones. Store says
--     what a read gives after a write, Reconcile is the start of a server, Gates what the admission
--     cache holds back, Converges what a reconciliation leaves.
--   Coordination/ExecProbe (coordination/exec_probe.py): the proof that the ssh gate asks for.
--   Coordination/EndpointSafety (coordination/endpoint_safety.py): which endpoints may be handed out.
--   Coordination/Transaction (coordination/transaction.py): the coordinated state and the rollback.
--     Open is the call: Attempt its state, its errors and its surroundings, Acquires and Records its
--     stages. Owed says what a running open owes to the state that it began in; Stages, Commits,
--     Attaches and Promotes show it of each stage, Rollback that it is given back, Unwound what a
--     failing open leaves; Gives and Opened show what one that returns has recorded. Close
--     is close and force_release, Drop the lifecycle subscriber; Disposed, Frees, TearsDown, Closed, Parks
--     and Dropped say what they release, park and leave alone.
--   Seams/BreakPolicy (seams/break_policy.py): ReferenceBreakPolicy.
--   Seams/Guard, Seams/SessionGuard (seams/guard.py): InProcessStopCapableGuard, SessionGuard.
--   Seams/Lifecycle (seams/lifecycle.py): InProcessLifecycleDispatcher as actions on its dicts and on the
--     threads that it starts for `invalidate`. Emission is the result of `emit`; Slots the lists of workers, Invariant,
--     Starts and Joins the actions one by one, Flights their histories, Errors and Results the entries
--     of the result.
--   Seams/Secrets (seams/secrets.py, safety/secrets.py): SecretsStore and its backends;
--     Resolution follows `resolve`, Index the constructor.
--   Seams/Watchdog (seams/watchdog.py): WatchdogPolicy and WatchdogRestoreStep.
--     Undoing, Restored and Calls follow a knob through relax and restore.
--   Transport/Rsp (transport/core/rsp_probe.py, coordination/exec_probe.py): framing of the remote
--     serial protocol, its recognition in what a peer has sent, and in Exchange the two probes over
--     the events of a socket.
--   Safety/SecretRegistry (safety/secret_registry.py): SecretRegistry. Scopes holds its specification, a
--     list of registrations by scope, Refines the same by the keys of the code's dict, and Versions what
--     the version tells.
--   Safety/Redaction (safety/redaction.py): Redactor in Values, over values of any kind, with what it
--     leaves in Masked, and the redactor that SecretRedactionFilter caches, which Cache compares with
--     the registry.
--   Symbols/BuildId (symbols/build_id.py): the build id of an ELF file, read from the file's bytes.
--     Entries writes notes as the ELF specification does, and RoundTrip reads them back.
--   Postmortem/Commands, Postmortem/Batch (postmortem/crash): which crash commands are accepted, and the
--     script of a batch, its files and its outputs.
--
-- Conventions
--   A method runs under the lock of its target, so it is one step, and an interleaving of callers is
--   a list of calls. A shared handle is a reference into the heap of the service. A dict is a
--   function, or an association list where its order is read; a set of caps is a list. A raised
--   error is `err`, with the error's category and code. Values of uuid4 and the clock are arguments;
--   times count microseconds, and an expiry before the epoch of the clock is left out. Callbacks,
--   the break policy where it is open, and the control channel of the watchdogs are parameters.
--   A loop recurses on its list, except two. The scan of ELF notes has one round of fuel per byte and
--   one more, since each round passes twelve bytes at least. The decimal digits of an index have one
--   round per unit of it and one more.
--
-- Not modelled: locks inside one method, logging but for its cached redactor, threads that wait on a
-- handle, the validators of the wire models, the files behind the durable records, break injection,
-- path checks, which ask the file system, and the layers around this core (the transports, the debuggers,
-- the providers and the tools), which read and write the outside world. Parameters are what stands
-- outside the repository: the address check of `ipaddress`, the regular expressions and `str.replace`
-- of the redaction, `str.lower` and the UTF-8 codec of the crash batch, the environment, the keyring
-- and the resolver command of the secrets.
mod Base
pub mod Seams
pub mod Transport
pub mod Coordination
pub mod Safety
pub mod Symbols
pub mod Postmortem
