-- ===== src/Motor/Watch/Unknown.antt =====
-- kill_watch.py: without a trustworthy state the level is HARD, and the guard halts.
use agentic_fintech_ecosyste.Prelude.{
  ◌≤◌, String, Bool, true, false, Option, some, List, ◌∷◌, ◌≡◌, ◌⊎◌, inl, inr, refl, arith, ap, not,
  ◌∙◌, ◌==◌, if◌then◌else◌, leb, Bool-cases,
}
use agentic_fintech_ecosyste.Motor.Halt.{is_halted, reports}
use agentic_fintech_ecosyste.Motor.Watch.{
  Mirror, State, Watcher, Reason, apply, mark_unknown, signal_of, guard_switch, kill_level_hard,
  kill_level_max, cancel_threshold, request_sweep, accept_state, handle_state, handle_stream_down,
  take_states, end_stream, consume, is_older, safe_level,
}

-- The level is one of Aegis's, and an unknown one is HARD.
pub record IsSafe (m : Mirror) : Type 0 where
  pub in_range : m.level ≤ kill_level_max
  pub unknown_hard : (m.known ≡ true) ⊎ (m.level ≡ kill_level_hard)

guard_reports : (b : Bool) → (is_halted (reports b) guard_switch).0 ≡ b
unfolding is_halted
guard_reports true = refl
guard_reports false = refl

-- The guard halts exactly when the mirrored level is above NORMAL, and a check leaves its switch
-- as it was.
pub guard_iff :
    (m : Mirror)
    → ((m.level ≡ 0) × ((is_halted (signal_of m) guard_switch).0 ≡ false))
      ⊎ ((1 ≤ m.level) × ((is_halted (signal_of m) guard_switch).0 ≡ true))
guard_iff m = ground (arith, guard_reports (not (m.level == 0)))

end_stream_unknown :
    (stopping : Bool) (failure : Option String) (w : Watcher)
    → let m = (end_stream stopping failure w).mirror in
      (m.level ≡ kill_level_hard) × (m.known ≡ false)
unfolding end_stream handle_stream_down request_sweep mark_unknown
end_stream_unknown stopping failure w = (ground arith, ground arith)

-- However a stream ends, and whatever it brought, the state is then unknown and HARD, so the guard
-- refuses every order until Aegis is heard again.
pub consume_halts :
    (states : List (Bool × State)) (failure : Option String) (stopping : Bool) (w : Watcher)
    → let m = (consume states failure stopping w).1.mirror in
      (m.level ≡ kill_level_hard)
      × (m.known ≡ false)
      × ((is_halted (signal_of m) guard_switch).0 ≡ true)
unfolding consume
consume_halts states failure stopping w =
    let (n, broke, w') = take_states states w in
    let (hard, unknown) = end_stream_unknown (if broke then true else stopping) failure w' in
    (hard, unknown, guard_reports _ ∙ ap (λ n. not (n == 0)) hard)

-- A state of an older sequence number is ignored; any other is mirrored, and at LOGIC or above it
-- asks for a sweep: at once, or of the sweeper thread when that runs.
pub handle_state_cases :
    (s : State) (w : Watcher)
    → ((is_older s.state_seq w.last_seq ≡ true) × (handle_state s w ≡ w))
      ⊎ (((handle_state s w).mirror.level ≡ safe_level s.effective_level)
          × ((handle_state s w).mirror.known ≡ true)
          × ((handle_state s w).last_seq ≡ some s.state_seq)
          × ((leb cancel_threshold (safe_level s.effective_level) ≡ false)
              ⊎ ((handle_state s w).pending
                  ≡ some (Reason.at_level (safe_level s.effective_level) s.state_seq))
              ⊎ ((handle_state s w).swept
                  ≡ Reason.at_level (safe_level s.effective_level) s.state_seq ∷ w.swept)))
unfolding handle_state accept_state apply request_sweep
handle_state_cases s w = elim (Bool-cases (is_older s.state_seq w.last_seq)) [
  | inl older ↦ inl (older, rw older refl)
  | inr newer ↦ ground arith
]
