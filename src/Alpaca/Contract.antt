-- ===== src/Alpaca/Contract.antt =====
-- alpaca.py: what a submit returns, against the contract of `Broker.submit_order`.
use agentic_fintech_ecosyste.Prelude.{ℕ, ◌≤◌, ◌<◌, String, false, Option, none, some, ◌≡◌}
use agentic_fintech_ecosyste.Motor.Models.{BrokerOrderRequest, BrokerOrder}
use agentic_fintech_ecosyste.Motor.World.{BrokerReply, placed, refused, ambiguous, crashed}
use agentic_fintech_ecosyste.Alpaca.Parse.{Readers}
use agentic_fintech_ecosyste.Alpaca.Client.{
  Http, response, transport, Read, reads, read_fails, is_retryable,
}

-- The venue's answer says that no order was created: an error of 4xx other than 408 and 429.
abbrev pub IsRefusal : Http → Type 0
IsRefusal (transport name) = ⊥
IsRefusal (response status body) = (400 ≤ status) × (status < 500) × (is_retryable status ≡ false)

-- An order that is returned is that of the request, and a reject is the venue's.
abbrev pub IsTruth : BrokerOrderRequest → Http → BrokerReply → Type 0
IsTruth request answer (placed o) = o.client_order_id ≡ request.client_order_id
IsTruth request answer (refused words) = IsRefusal answer
IsTruth request answer (ambiguous words) = Unit
IsTruth request answer (crashed name) = ⊥

module _ (r : Readers) (int_text : ℕ → String) (request : BrokerOrderRequest) where
  abbrev OfClient : Read (Option BrokerOrder) → Type 0
  OfClient (reads (some o)) = o.client_order_id ≡ request.client_order_id
  OfClient (reads none) = Unit
  OfClient (read_fails why) = Unit
