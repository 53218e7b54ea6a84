-- ===== src/Motor/Watch.antt =====
-- kill_watch.py: the mirror of Aegis's kill level, the sweep of open orders, and the watcher that
-- feeds both. What the stream, the brokers and the probe answer is an argument.
pub mod Unknown
pub mod Sweeps
pub mod Accounted
use mathlib.Core.List.{◌++◌ as append}
use agentic_fintech_ecosyste.Prelude.{
  ℕ, suc, ◌+◌, ◌*◌, String, Bool, true, false, not, Option, none, some, List, [], ◌∷◌, leb, ltb,
  ◌==◌, min, length, if◌then◌else◌, ◌&&◌,
}
use agentic_fintech_ecosyste.Motor.Halt.{KillSwitch, Signal, reports, start}

abbrev pub kill_level_hard : ℕ
kill_level_hard = 4

abbrev pub kill_level_max : ℕ
kill_level_max = 5

-- LOGIC
abbrev pub cancel_threshold : ℕ
cancel_threshold = 2

-- `KillLevelMirror`
pub record Mirror : Type 0 where
  pub level : ℕ
  pub known : Bool

abbrev pub new_mirror : Mirror
new_mirror = record { level = kill_level_hard; known = false }

-- A level that Aegis reports, as the integer of the message.
pub data Reported : Type 0 where
  natural : ℕ → Reported
  below_zero : ℕ → Reported

abbrev pub safe_level : Reported → ℕ
safe_level (natural n) = if leb n kill_level_max then n else kill_level_hard
safe_level (below_zero n) = kill_level_hard

unfoldable pub apply : Reported → Mirror → ℕ × Mirror
apply reported m = (m.level, record { level = safe_level reported; known = true })

unfoldable pub mark_unknown : Mirror → ℕ × Mirror
mark_unknown m = (m.level, record { level = kill_level_hard; known = false })

-- `list_open_orders` of a venue: the ids of the orders, or an exception.
pub data Listing : Type 0 where
  open_orders : List String → Listing
  unreadable : Listing

pub record SweepResult : Type 0 where
  pub listed : ℕ
  pub cancelled : List String
  pub failed : List String
  pub unreadable_venues : List String

abbrev is_empty : List String → Bool
is_empty [] = true
is_empty (_ ∷ _) = false

abbrev pub complete : SweepResult → Bool
complete r = is_empty r.failed && is_empty r.unreadable_venues

-- The record of one attempt to cancel.
abbrev pub note : Bool → String → SweepResult → SweepResult
note true id r = record r { cancelled = append r.cancelled (id ∷ []) }
note false id r = record r { failed = append r.failed (id ∷ []) }

module _ (cancels : String → String → Bool) where
  -- The loop of `_sweep_venue`; `cancels` says whether the venue cancels the order.
  unfoldable pub cancel_all : String → List String → SweepResult → SweepResult
  cancel_all venue [] r = r
  cancel_all venue (id ∷ ids) r = cancel_all venue ids (note (cancels venue id) id r)

  -- One venue of `sweep`.
  unfoldable pub sweep_venue : String → Listing → SweepResult → SweepResult
  sweep_venue venue unreadable r = record r {
    unreadable_venues = append r.unreadable_venues (venue ∷ []);
  }
  sweep_venue venue (open_orders ids) r =
      let r' = cancel_all venue ids r in record r' { listed = r'.listed + length ids }

  unfoldable pub sweep_from : List (String × Listing) → SweepResult → SweepResult
  sweep_from [] r = r
  sweep_from ((venue, listing) ∷ rest) r = sweep_from rest (sweep_venue venue listing r)

  -- `OpenOrderCanceller.sweep`, over the venues and what they list.
  unfoldable pub sweep : List (String × Listing) → SweepResult
  sweep venues =
      sweep_from venues (record { listed = 0; cancelled = []; failed = []; unreadable_venues = [] })

-- Why a sweep is made, with the values of its text.
pub data Reason : Type 0 where
  at_level : ℕ → ℕ → Reason
  unknown_state : String → Reason
  again_at : ℕ → Reason

-- `KillSwitchWatcher`: `swept` are the reasons of the sweeps made so far, latest first.
pub record Watcher : Type 0 where
  pub mirror : Mirror
  pub last_seq : Option ℕ
  pub sweeper_active : Bool
  pub pending : Option Reason
  pub swept : List Reason

pub record State : Type 0 where
  pub state_seq : ℕ
  pub effective_level : Reported

unfoldable pub begin_stream : Watcher → Watcher
begin_stream w = record w { last_seq = none }

unfoldable pub request_sweep : Reason → Watcher → Watcher
request_sweep why w =
    if w.sweeper_active then record w { pending = some why } else record w { swept = why ∷ w.swept }

abbrev pub is_older : ℕ → Option ℕ → Bool
is_older seq none = false
is_older seq (some last) = ltb seq last

-- The part of `handle_state` that follows the order check.
unfoldable pub accept_state : State → Watcher → Watcher
accept_state s w =
    let m = (apply s.effective_level w.mirror).1 in
    let w' = record w { mirror = m; last_seq = some s.state_seq } in
    if leb cancel_threshold m.level then request_sweep (at_level m.level s.state_seq) w' else w'

unfoldable pub handle_state : State → Watcher → Watcher
handle_state s w = if is_older s.state_seq w.last_seq then w else accept_state s w

unfoldable pub handle_stream_down : String → Watcher → Watcher
handle_stream_down why w =
    request_sweep (unknown_state why) (record w { mirror = (mark_unknown w.mirror).1 })

-- What the iteration of a stream meets: a state, with whether the stop flag is set when it arrives;
-- and its end, which is an exception by name or none.
unfoldable pub take_states : List (Bool × State) → Watcher → ℕ × Bool × Watcher
take_states [] w = (0, false, w)
take_states ((stopped, s) ∷ rest) w =
    let (n, broke, w') = take_states rest (handle_state s w) in
    if stopped then (0, true, w) else (suc n, broke, w')

-- The reason with which a stream is down.
abbrev pub down_reason : Option String → String
down_reason none = "stream ended"
down_reason (some name) = name

-- The end of `consume`; `stopping` is the stop flag there.
unfoldable pub end_stream : Bool → Option String → Watcher → Watcher
end_stream stopping failure w =
    if stopping
    then record w { mirror = (mark_unknown w.mirror).1 }
    else handle_stream_down (down_reason failure) w

-- The stop flag stays set, so a stream that was left for it ends with it.
unfoldable pub consume : List (Bool × State) → Option String → Bool → Watcher → ℕ × Watcher
consume states failure stopping w =
    let (n, broke, w') = take_states states w in
    (n, end_stream (if broke then true else stopping) failure w')

-- `sweep_if_elevated`
unfoldable pub sweep_if_elevated : Watcher → Watcher
sweep_if_elevated w =
    if ltb w.mirror.level cancel_threshold
    then w
    else record w { swept = again_at w.mirror.level ∷ w.swept }

pub data Probe : Type 0 where
  no_probe alive : Probe
  dead : String → Probe

-- `check_liveness`; that the current call is cancelled is seen as the end of its stream.
unfoldable pub check_liveness : Probe → Watcher → Bool × Watcher
check_liveness no_probe w = (true, w)
check_liveness alive w = (true, w)
check_liveness (dead name) w =
    if w.mirror.known then (false, handle_stream_down name w) else (true, w)

-- One pass of `_sweep_loop` after its wait.
unfoldable pub sweep_pass : Probe → Watcher → Watcher
sweep_pass probe w = elim w.pending [
  | some why ↦ (check_liveness probe (record w { pending = none; swept = why ∷ w.swept })).1
  | none ↦ (check_liveness probe (sweep_if_elevated w)).1
]

-- What a subscription gives: an exception, or a stream with its states, its end and the stop flag.
pub data Subscription : Type 0 where
  fails : String → Subscription
  streams : List (Bool × State) → Option String → Bool → Subscription

-- One round of `_stream_loop`, with the backoff that follows it.
unfoldable pub stream_round : ℕ → ℕ → Subscription → ℕ → Watcher → ℕ × Watcher
stream_round base max_backoff (fails name) backoff w =
    (min (backoff * 2) max_backoff, handle_stream_down name (begin_stream w))
stream_round base max_backoff (streams states failure stopping) backoff w =
    let (n, w') = consume states failure stopping (begin_stream w) in
    (min ((if n == 0 then backoff else base) * 2) max_backoff, w')

-- `KillStateHaltSource` over the mirror.
abbrev pub signal_of : Mirror → Signal
signal_of m = reports (not (m.level == 0))

-- The switch of `build_kill_guard`.
abbrev pub guard_switch : KillSwitch
guard_switch = start false false

-- `build_kill_guard`: the switch, and a watcher that has heard nothing and does not run yet.
abbrev pub build_kill_guard : KillSwitch × Watcher
build_kill_guard = (
  guard_switch,
  record {
    mirror = new_mirror;
    last_seq = none;
    sweeper_active = false;
    pending = none;
    swept = [];
  },
)
