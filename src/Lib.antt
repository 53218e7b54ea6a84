-- ===== src/Lib.antt =====
-- The agentic fintech ecosystem, modelled and verified: the execution motor of zone B, which
-- places orders, with its Alpaca broker; the SHARP promotion gate of zone C, which decides which changes of a rubric go
-- live; the check of zone C's audit log; and the HITL backend of zone C, through which operators
-- decide the orders that Aegis holds.
--
-- The motor receives orders that the risk engine Aegis has signed, checks each of them against its
-- own caps, windows, claims and kill switch, and calls a broker at most once for each. It is
-- Python under agent-core/zone-b/execution-motor/execution_motor, called EM below. The gate takes
-- proposals through six stages of approval by distinct people, each transition written first to
-- the audit log and then to the store; it is agent-core/zone-c/sharp-gate/afe_sharp, called SG
-- below. The HITL backend authenticates an operator, writes the attempt to the audit log, asks
-- Aegis to resolve the hold, and relays a release to the motor; it is
-- agent-core/zone-c/hitl-backend/hitl_backend, called HB below.
--
-- Files and sources:
--   Prelude: names and lemmas that the other files share; texts as code points.
--   Money: decimal.Decimal with the default precision of 28 digits; _usable_price of EM/limits.py.
--   Motor/Models: EM/models.py and the value types of EM/broker.py.
--   Motor/Config: MotorConfig of EM/config.py.
--   Motor/Attestation: EM/attestation.py.
--   Motor/Halt: KillSwitch of EM/halt.py; Halt/Sticky is about sequences of its calls.
--   Motor/Limits: EM/limits.py, with Claims, Durable, Notional and Ledger for what is proved of it.
--   Motor/Router: EM/sor.py and filter_window of EM/toxicity.py, with Choice and Limit.
--   Motor/World: what ExecutionMotor of EM/motor.py holds, and what the world answers in one call.
--   Motor/Reports, Motor/Pipeline, Motor/Execute: the methods of ExecutionMotor: _rejected, _unknown
--     and _from_broker; _precheck and _submit; _claim_and_reserve, _run and execute.
--   Motor/Cleared, Gate, Send, Keeps, Room, Settled, Ready: lemmas on the steps of _run.
--   Motor/Session, Answers, Verdicts: execute as a whole, and sequences of its calls.
--   Motor/Watch: EM/kill_watch.py, with Unknown, Accounted and Sweeps for what is proved of it.
--   Motor/Service: reached_broker of EM/service.py.
--   Motor/Canonical: EM/canonical.py; Injective is about it. Motor/Proto: EM/proto_adapter.py; Covered
--     is about it.
--   Motor/Compliance: EM/compliance.py, its configuration in Config.
--   Motor/Handle: handle_decision and handle_request of EM/service.py; Permitted and Promoted are about
--     them, the latter with the model of SG.
--   Motor/Validators: the validators of EM/models.py and EM/toxicity.py, and the checks at start-up of
--     EM/motor.py and EM/limits.py.
--   Motor/Tests: runs at concrete inputs.
--   Alpaca/Endpoint, Client: EM/alpaca.py; Bounded and Contract are about Client. Alpaca/Parse:
--     EM/alpaca_parse.py. Alpaca/Tests: answers at concrete values.
--   Sharp/Json: the values of json.loads, and the functions of Python that SG relies on.
--   Sharp/Models, Stored, Fold: SG/models.py; Reached, Promotion and Backed are about fold.
--   Sharp/Gate: _commit of SG/gate.py, and SG/memory_store.py; Commit and Rows are about it.
--   Sharp/Roles: StaticRoleAuthorizer of SG/ports.py.
--   Sharp/Requests: the commands of SG/gate.py; Guards is about approve, and Closed about
--     sequences of commands.
--   Sharp/Tests: a whole promotion at concrete values.
--   Audit: verifier.py of agent-core/zone-c/audit-logger/afe_audit; Audit/Linked is about it, and
--     Audit/Tests has a chain of two rows.
--   Hitl/Python: what HB relies on of Python, gRPC and protobuf, and ApiError of HB/service.py.
--   Hitl/Holds: HB/holds.py; Approvers is about the number of approvals.
--   Hitl/Body, Decide, Service: HB/service.py: the request, the parts of a decision, and decide, get
--     and list_pending. Orderly, Asks, Session, Completes, Unscored, Replay and Keys are about them.
--   Hitl/Auth: HB/auth.py; Verified is about it.
--   Hitl/Startup, FromEnv: HB/config.py; Hardened is about it. Hitl/Main: build of HB/__main__.py.
--   Hitl/Tests: runs at concrete inputs.
--
-- State and effects. The gate's state is the audit log and the stored transitions; the answers of
-- the log, the store, the authorizer and the clock are fields of Ports. A motor is its switch, its
-- claims, its reserved notional and the calls of the broker so far. Each method takes the state
-- and returns it with its result. Every answer from outside (the clock, the halt source, the
-- success of a write to disk, the quote, the venue statistics, the release check, the broker) is a
-- field of World, so that a theorem about all worlds covers all failures. An exception is the
-- outcome `raises`, which execute turns into a report. The backend's state is its book of final
-- decisions and replies; the trail lists, the latest first, each audit record and each call of
-- Aegis and the motor. A request holds the lock, so that a session is a sequence of requests.
--
-- Numbers. Quantities and prices are natural numbers of nanos, and notionals of 10^-18, which the
-- signed orders cannot be finer than; sums and products are rounded half-even to 28 digits. Values
-- of unknown origin, such as quotes, are Decimal with infinities and not-a-number. The reference
-- price of a call of execute is finite or missing (Finite): of an infinite one or of a NaN pydantic
-- makes no report, so that execute raises. Times are natural numbers of nanoseconds, and integers in
-- what the venue sends. After a write of a claim that failed it is not known what the file holds, so
-- its lines are missing from then on. The search for the last digit kept takes the number itself as
-- its fuel, which exceeds its number of digits.
--
-- Not modelled: logging, locks (a call of execute is one step), the score of a venue (an argument
-- of the router), SHA-256, signatures and the encoding of texts (parameters), the building of a
-- manifest (its writer is an argument), threads, the mock broker and the servers, the positions
-- and the account of a broker; of the audit log, writing it and the canonical form of a record; of
-- the gate, the parsing of JSON and the canonical form of a name (parameters), the database, and
-- failures of the store in the first and the last read of a command; of the backend, HTTP, the
-- decoding of tokens and the parsing of numbers (parameters), doubles (their comparisons are
-- parameters), and failures of its calls that are not gRPC errors; nor the other programs of the
-- repository yet.
pub mod Prelude
pub mod Money
pub mod Motor
pub mod Sharp
pub mod Audit
pub mod Hitl
pub mod Alpaca
