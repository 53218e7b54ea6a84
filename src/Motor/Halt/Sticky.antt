-- ===== src/Motor/Halt/Sticky.antt =====
-- halt.py: what keeps the kill switch halted, and what clears it.
use agentic_fintech_ecosyste.Prelude.{
  String, Bool, true, false, List, [], ◌∷◌, ◌≡◌, ◌↔◌, refl, arith, is_blank, All, not, ◌&&◌,
}
use agentic_fintech_ecosyste.Motor.Halt.{
  KillSwitch, Signal, absent, reports, raises, halt, resume, is_halted,
}

-- The calls that change the switch.
pub data KillOp : Type 0 where
  halts : String → KillOp
  checks : Signal → KillOp
  resumes : String → Signal → KillOp

unfoldable pub apply : KillOp → KillSwitch → KillSwitch
unfolding halt is_halted resume
apply (halts why) k = halt why k
apply (checks signal) k = (is_halted signal k).1
apply (resumes operator signal) k = resume operator signal k

unfoldable pub run : List KillOp → KillSwitch → KillSwitch
run [] k = k
run (op ∷ ops) k = run ops (apply op k)

-- The source reports a halt or raises.
abbrev pub demands : Signal → Bool
demands absent = false
demands (reports b) = b
demands (raises _) = true

-- A call that may clear the switch: a named operator, and a source that demands no halt.
abbrev pub clears : KillOp → Bool
clears (halts _) = false
clears (checks _) = false
clears (resumes operator signal) = not (is_blank operator) && not (demands signal)

apply_keeps :
    (op : KillOp) (k : KillSwitch)
    → clears op ≡ false
    → k.halted ≡ true
    → (apply op k).halted ≡ true
unfolding apply
apply_keeps (halts why) k c h = refl
apply_keeps (checks absent) k c h = h
apply_keeps (checks (reports b)) k c h = ground arith
apply_keeps (checks (raises name)) k c h = ground arith
apply_keeps (resumes operator absent) k c h = ground arith
apply_keeps (resumes operator (reports b)) k c h = ground arith
apply_keeps (resumes operator (raises name)) k c h = ground arith

-- A halted switch stays halted through any calls, unless one of them is a resume by a named
-- operator while the source neither reports a halt nor raises.
pub run_stays_halted :
    (ops : List KillOp) (k : KillSwitch)
    → All (λ op. clears op ≡ false) ops
    → k.halted ≡ true
    → (run ops k).halted ≡ true
unfolding run
run_stays_halted [] k c h = h
run_stays_halted (op ∷ ops) k c h = run_stays_halted ops (apply op k) c.1 (apply_keeps op k c.0 h)

-- A check lets a submission through exactly when the source demands no halt and the switch is
-- not halted.
pub is_halted_iff :
    (signal : Signal) (k : KillSwitch)
    → ((is_halted signal k).0 ≡ false) ↔ ((demands signal ≡ false) × (k.halted ≡ false))
unfolding is_halted
is_halted_iff absent k = (λ h. (refl, h), λ h. h.1)
is_halted_iff (reports true) k = (λ h. ground arith, λ h. ground arith)
is_halted_iff (reports false) k = (λ h. (refl, h), λ h. h.1)
is_halted_iff (raises name) k = (λ h. ground arith, λ h. ground arith)

-- A switch that latches is halted after any check at which the source demanded a halt; one that
-- mirrors is left by every check exactly as it was.
pub external_latch :
    (signal : Signal) (k : KillSwitch)
    → (k.latch_external ≡ true → demands signal ≡ true → (is_halted signal k).1.halted ≡ true)
      × (k.latch_external ≡ false → (is_halted signal k).1 ≡ k)
unfolding is_halted
external_latch absent k = (λ l d. ground arith, λ l. refl)
external_latch (reports true) k = (λ l d. ground arith, λ l. ground arith)
external_latch (reports false) k = (λ l d. ground arith, λ l. refl)
external_latch (raises name) k = (λ l d. ground arith, λ l. ground arith)
