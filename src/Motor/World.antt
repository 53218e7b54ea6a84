-- ===== src/Motor/World.antt =====
-- What `ExecutionMotor` is built from, what it keeps, and what the world answers during one call
-- of `execute`: readings of the clock, the halt source, the disk, the quote feed, the statistics,
-- the release check and the broker. Nothing is assumed of the answers.
use agentic_fintech_ecosyste.Prelude.{ℕ, String, Bool, Option, List}
use agentic_fintech_ecosyste.Money.{Decimal}
use agentic_fintech_ecosyste.Motor.Models.{ExecutionReport, BrokerOrderRequest, BrokerOrder}
use agentic_fintech_ecosyste.Motor.Config.{MotorConfig}
use agentic_fintech_ecosyste.Motor.Attestation.{Verifier}
use agentic_fintech_ecosyste.Motor.Halt.{KillSwitch, Signal}
use agentic_fintech_ecosyste.Motor.Limits.{Store}
use agentic_fintech_ecosyste.Motor.Router.{RouterConfig, VenueObservation}

-- The parts that do not change; `venues` are the names of the brokers, sorted.
pub record Parts : Type 0 where
  pub config : MotorConfig
  pub router : RouterConfig
  pub scorer : List VenueObservation → Option ℕ
  pub verifier : Verifier
  pub venues : List String

-- The state: the switch, the claims, the ledger, and every `submit_order` call, latest first.
pub record Motor : Type 0 where
  pub kill : KillSwitch
  pub store : Store
  pub reserved : ℕ
  pub sent : List (String × BrokerOrderRequest)

pub data QuoteReply : Type 0 where
  no_source missing broken : QuoteReply
  quoted : Decimal → ℕ → QuoteReply

pub data StatsReply : Type 0 where
  known : (String → List VenueObservation) → StatsReply
  fails : String → StatsReply

pub data ReleaseReply : Type 0 where
  not_given passes : ReleaseReply
  refuses : String → ReleaseReply
  breaks : String → ReleaseReply

-- The broker's truth, a definite reject, an ambiguous outcome, or any other exception by its name.
pub data BrokerReply : Type 0 where
  placed : BrokerOrder → BrokerReply
  refused : String → BrokerReply
  ambiguous : String → BrokerReply
  crashed : String → BrokerReply

pub record World : Type 0 where
  pub received : ℕ
  pub submitted : ℕ
  pub updated : ℕ
  pub failed : ℕ
  pub first_signal : Signal
  pub last_signal : Signal
  pub durable : String → Bool
  pub quote : QuoteReply
  pub stats : StatsReply
  pub release_check : ReleaseReply
  pub broker : String → BrokerOrderRequest → BrokerReply

-- How `_run` ends: with a report, or with an exception of this name.
pub data Outcome : Type 0 where
  returns : ExecutionReport → Outcome
  raises : String → Outcome
