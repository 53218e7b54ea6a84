-- ===== src/Motor/Tests.antt =====
-- Runs of the motor at concrete inputs, and its theorems at inputs that exercise the code.
mod Sample
mod Runs
mod Gates
mod Watching
mod Starting
mod Handling
use agentic_fintech_ecosyste.Prelude.{◌≡◌, refl, none, true}
use agentic_fintech_ecosyste.Motor.Models.{check_type_consistency}
use agentic_fintech_ecosyste.Motor.Config.{check_config}
use Sample.{limits, order}

limits_pass : check_config limits ≡ none
unfolding check_config
limits_pass = refl

order_consistent : check_type_consistency order ≡ true
unfolding check_type_consistency
order_consistent = refl
