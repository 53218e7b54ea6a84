-- ===== src/Motor/Halt.antt =====
-- halt.py: the in-process kill switch. What the external source answers at a call, or that it
-- raises, is an argument of the call.
pub mod Sticky
use agentic_fintech_ecosyste.Prelude.{String, Bool, true, false, is_blank, if◌then◌else◌}
use Prim.Native.String.{◌++◌}

pub record KillSwitch : Type 0 where
  pub halted : Bool
  pub reason : String
  pub latch_external : Bool

-- The source at one call: there is none, it reports, or it raises an exception with this name.
pub data Signal : Type 0 where
  absent : Signal
  reports : Bool → Signal
  raises : String → Signal

abbrev pub start : Bool → Bool → KillSwitch
start start_halted latch = record {
  halted = start_halted;
  reason = if start_halted then "initial state: halted until explicit resume" else "";
  latch_external = latch;
}

unfoldable pub halt : String → KillSwitch → KillSwitch
halt why k = record k { halted = true; reason = why }

unfoldable pub external_halted : Signal → KillSwitch → Bool × KillSwitch
unfolding halt
external_halted absent k = (false, k)
external_halted (raises name) k =
    (true, if k.latch_external then halt ("signal source error: " ++ name) k else k)
external_halted (reports true) k =
    (true, if k.latch_external then halt "external halt signal" k else k)
external_halted (reports false) k = (false, k)

unfoldable pub resume : String → Signal → KillSwitch → KillSwitch
unfolding external_halted
resume operator signal k =
    let (demanded, k') = external_halted signal k in
    if is_blank operator
    then k
    else if demanded
    then k'
    else record k' { halted = false; reason = "" }

unfoldable pub is_halted : Signal → KillSwitch → Bool × KillSwitch
unfolding external_halted
is_halted signal k =
    let (demanded, k') = external_halted signal k in (if demanded then true else k'.halted, k')
