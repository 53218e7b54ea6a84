-- ===== src/Motor/Tests/Watching.antt =====
-- The kill watcher at concrete inputs.
use agentic_fintech_ecosyste.Prelude.{
  All, ◌+◌, ◌≤◌, String, Bool, true, false, none, some, List, [], ◌∷◌, ◌≡◌, str_eq, length,
}
use agentic_fintech_ecosyste.Motor.Halt.{is_halted}
use agentic_fintech_ecosyste.Motor.Watch.{
  Mirror, Watcher, State, Reason, natural, new_mirror, open_orders, unreadable, sweep, consume,
  handle_state, is_older, safe_level, signal_of, guard_switch, kill_level_hard, cancel_threshold,
}
use agentic_fintech_ecosyste.Motor.Watch.Unknown.{consume_halts}
use agentic_fintech_ecosyste.Motor.Watch.Sweeps.{sweep_accounts}
use agentic_fintech_ecosyste.Motor.Watch.Accounted.{IsHandled}

abbrev watcher : Watcher
watcher = record {
  mirror = new_mirror;
  last_seq = none;
  sweeper_active = true;
  pending = none;
  swept = [];
}

abbrev normal : State
normal = record { state_seq = 7; effective_level = natural 0 }

-- A stream that reports NORMAL and then breaks.
consume_halts_example :
    let m = (consume ((false, normal) ∷ []) (some "RpcError") false watcher).1.mirror in
    (m.level ≡ kill_level_hard)
    × (m.known ≡ false)
    × ((is_halted (signal_of m) guard_switch).0 ≡ true)
consume_halts_example = consume_halts ((false, normal) ∷ []) (some "RpcError") false watcher

abbrev logic : State
logic = record { state_seq = 8; effective_level = natural 2 }

abbrev cancels : String → String → Bool
cancels venue id = str_eq id "a"

abbrev venues : List (String × agentic_fintech_ecosyste.Motor.Watch.Listing)
venues = ("iex", open_orders ("a" ∷ "b" ∷ [])) ∷ ("nyse", unreadable) ∷ []

sweep_accounts_example :
    All (IsHandled cancels (sweep cancels venues)) venues
    × (length (sweep cancels venues).cancelled + length (sweep cancels venues).failed
        ≡ (sweep cancels venues).listed)
    × (length (sweep cancels venues).unreadable_venues ≤ 2)
sweep_accounts_example = sweep_accounts cancels venues
