-- ===== src/Motor/Tests/Runs.antt =====
-- `execute` at concrete inputs.
use agentic_fintech_ecosyste.Prelude.{
  ℕ, String, ◌*◌, ◌^◌, ◌≤◌, true, none, some, [], ◌∷◌, ◌≡◌, ◌⊎◌, inl, refl, arith, contains,
}
use agentic_fintech_ecosyste.Money.{usable, mul, round, add}
use agentic_fintech_ecosyste.Motor.Attestation.{evaluate_attestation}
use agentic_fintech_ecosyste.Motor.Limits.{compute_notional, try_reserve, claim}
use agentic_fintech_ecosyste.Motor.Router.{
  route, threshold_of, assess, filter_window, choose, eligible_of,
}
use agentic_fintech_ecosyste.Motor.Reports.{
  fills_of, broker_report, request_of, rejected, unknown_report,
}
use agentic_fintech_ecosyste.Motor.Pipeline.{
  submit, on_reply, from_broker, accept, unknown, precheck, check_order, check_notional,
  timing_reason, trusted_quote_price,
}
use agentic_fintech_ecosyste.Motor.Ready.{IsReady, at_call}
use agentic_fintech_ecosyste.Motor.Answers.{Answered, execute_answers}
use agentic_fintech_ecosyste.Motor.Models.{
  ExecutionStatus, RejectReason, check_reason_matches_status,
}
use agentic_fintech_ecosyste.Motor.World.{ambiguous, Motor, World}
use agentic_fintech_ecosyste.Motor.Halt.{halt, is_halted}
use agentic_fintech_ecosyste.Motor.Execute.{
  signal_key, order_key, reserve, claim_order, claim_and_reserve, release_and_submit, after_gate,
  at_venue, route_and_send, after_precheck, run, conclude, execute,
}
use agentic_fintech_ecosyste.Motor.Send.{Sends, unchecked, call, execute-Sends}
use agentic_fintech_ecosyste.Motor.Session.{
  session, sends_of, session_single_shot, session_under_cap, session_halted,
}
use agentic_fintech_ecosyste.Motor.Verdicts.{
  execute_valid, execute_uncertain_halts, execute_rejection_unsent,
}
use agentic_fintech_ecosyste.Motor.Tests.Sample.{
  limits, parts, attested, open_world, idle, filled_reply, call_filled,
}

abbrev halted_motor : Motor
halted_motor = record idle {
  kill = record { halted = true; reason = "drill"; latch_external = true };
}

filled_reserves :
    let (r, m) = execute parts (open_world filled_reply) attested none idle in
    (r.status ≡ ExecutionStatus.filled) × (r.venue ≡ some "iex") × (m.reserved ≡ 205 * 10 ^ 18)
unfolding execute run after_precheck route_and_send at_venue after_gate release_and_submit submit
    on_reply from_broker accept conclude claim_and_reserve claim_order reserve precheck check_order
    check_notional evaluate_attestation timing_reason trusted_quote_price compute_notional usable
    mul round add try_reserve claim contains signal_key order_key route threshold_of assess
    filter_window choose eligible_of fills_of broker_report request_of is_halted
filled_reserves = (refl, refl, refl)

-- What an order that reached the broker has passed, at the run above.
execute-Sends_example :
    let w = open_world filled_reply in
    ((execute parts w attested none idle).1.sent ≡ [])
    ⊎ ((venue : String) × (n : ℕ) × ((execute parts w attested none idle).1.sent
          ≡ call parts w attested none venue ∷ [])
        × Sends parts w attested none idle venue n)
execute-Sends_example = execute-Sends parts (open_world filled_reply) attested none idle

abbrev ready : IsReady parts (open_world filled_reply) attested none idle "iex" (205 * 10 ^ 18)
unfolding evaluate_attestation timing_reason trusted_quote_price compute_notional usable mul round
    add try_reserve contains signal_key order_key route threshold_of assess filter_window choose
    eligible_of
ready = record {
  not_halted = refl;
  first_clear = refl;
  last_clear = refl;
  id_signed = refl;
  attestation = refl;
  short_permitted = inl refl;
  timing = refl;
  algo = refl;
  notional = refl;
  under_cap = omega arith;
  stats = λ venue. [];
  stats_known = refl;
  routed = refl;
  new_signal = refl;
  new_order = refl;
  signal_durable = refl;
  order_durable = refl;
  granted = refl;
  released = unchecked;
}

execute_answers_example :
    let w = open_world filled_reply in
    ((execute parts w attested none idle).1.sent ≡ call parts w attested none "iex" ∷ [])
    × Answered
        (at_call parts w attested none idle "iex" (205 * 10 ^ 18))
        (205 * 10 ^ 18)
        w
        "iex"
        filled_reply
        (execute parts w attested none idle)
execute_answers_example =
    execute_answers parts (open_world filled_reply) attested none idle "iex" (205 * 10 ^ 18) ready

execute_valid_example :
    let r = (execute parts (open_world filled_reply) attested none idle).0 in
    check_reason_matches_status r.status r.reject_reason ≡ true
execute_valid_example = execute_valid parts (open_world filled_reply) attested none idle

-- A broker that times out.
abbrev timeout : World
timeout = open_world (ambiguous "timeout")

timeout-unknown : (execute parts timeout attested none idle).0.status ≡ ExecutionStatus.unknown
unfolding execute run after_precheck route_and_send at_venue after_gate release_and_submit submit
    on_reply unknown conclude claim_and_reserve claim_order reserve precheck check_order
    check_notional evaluate_attestation timing_reason trusted_quote_price compute_notional usable
    mul round add try_reserve claim contains signal_key order_key route threshold_of assess
    filter_window choose eligible_of unknown_report request_of is_halted halt
timeout-unknown = refl

execute_uncertain_halts_example : (execute parts timeout attested none idle).1.kill.halted ≡ true
execute_uncertain_halts_example =
    execute_uncertain_halts parts timeout attested none idle (inl timeout-unknown)

-- A halted motor, whose rejection is not the broker's.
halted_rejects :
    let r = (execute parts timeout attested none halted_motor).0 in
    (r.status ≡ ExecutionStatus.rejected) × (r.reject_reason ≡ some RejectReason.halted)
unfolding execute run after_precheck precheck is_halted conclude rejected
halted_rejects = (refl, refl)

execute_rejection_unsent_example : (execute parts timeout attested none halted_motor).1.sent ≡ []
execute_rejection_unsent_example =
    execute_rejection_unsent parts timeout attested none halted_motor halted_rejects.0
      (λ e. cc (halted_rejects.1, e)) (λ e. cc (halted_rejects.1, e))

session_single_shot_example :
    sends_of "s1" (session parts (call_filled ∷ call_filled ∷ []) idle).sent ≤ 1
session_single_shot_example =
    session_single_shot parts (call_filled ∷ call_filled ∷ []) idle "s1" refl

session_under_cap_example :
    (session parts (call_filled ∷ call_filled ∷ []) idle).reserved ≤ limits.max_session_notional
session_under_cap_example =
    session_under_cap parts (call_filled ∷ call_filled ∷ []) idle (omega arith) (omega arith)

session_halted_example : (session parts (call_filled ∷ []) halted_motor).sent ≡ []
session_halted_example = session_halted parts (call_filled ∷ []) halted_motor refl
