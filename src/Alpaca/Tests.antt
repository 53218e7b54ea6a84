-- ===== src/Alpaca/Tests.antt =====
-- The broker at concrete answers, and the witnesses of its properties.
use agentic_fintech_ecosyste.Prelude.{
  ℕ, zero, suc, ◌+◌, String, false, Option, none, some, refl, str_eq, is_blank, strip,
  if◌then◌else◌,
}
use agentic_fintech_ecosyste.Money.{positive}
use agentic_fintech_ecosyste.Sharp.Json.{text, object, Members, no_members, member}
use agentic_fintech_ecosyste.Motor.Models.{BrokerOrderRequest, buy, market}
use agentic_fintech_ecosyste.Alpaca.Endpoint.{
  live_base_url, live_confirm_value, drop_slashes, is_authorised, resolve_url, resolve_base_url,
  any_part, check_credentials, alpaca_broker_from_env, IsGuarded, alpaca_broker_from_env-IsGuarded,
}
use agentic_fintech_ecosyste.Alpaca.Parse.{Readers}
use agentic_fintech_ecosyste.Alpaca.Client.{Http, response, transport, read, submit_order}
use agentic_fintech_ecosyste.Alpaca.Bounded.{
  IsReading, read-IsReading, IsSingle, submit_order-IsSingle,
}

abbrev order_json : Members
order_json = member "status" (text "filled") (
    member "id" (text "b1") (
      member "client_order_id" (text "s1")
        (member "symbol" (text "SPY") (member "qty" (text "1") no_members))))

abbrev readers : Readers
readers = record {
  loads = λ s. if str_eq s "order" then some (object order_json) else none;
  decimal_of = λ v. some (positive 1_000_000_000);
  stamp_of = λ s. none;
  digits = λ s. 0;
  show = λ v. "";
}

abbrev int_text : ℕ → String
int_text n = "5"

abbrev request : BrokerOrderRequest
request = record {
  client_order_id = "s1";
  symbol = "SPY";
  side = buy;
  order_type = market;
  quantity = 1_000_000_000;
  limit_price = none;
  stop_price = none;
  time_in_force = "day";
}

-- The venue fails once, and then shows the order.
abbrev answers : ℕ → Http
answers zero = response 503 ""
answers (suc n) = response 200 "order"

read-IsReading_example : IsReading (3 + 1) (read readers int_text 3 "/v2/orders" answers).1
read-IsReading_example = read-IsReading readers int_text 3 "/v2/orders" answers

submit_order-IsSingle_example :
    IsSingle readers int_text 3
      (submit_order readers int_text 3 request (transport "ReadTimeout") answers)
submit_order-IsSingle_example =
    submit_order-IsSingle readers int_text 3 request (transport "ReadTimeout") answers

-- The environment asks for the live endpoint with both opt-ins.
abbrev environ : String → Option String
environ name =
    if str_eq name "AFE_ENABLE_LIVE_TRADING"
    then some "true"
    else if str_eq name "AFE_LIVE_TRADING_CONFIRM"
    then some live_confirm_value
    else if str_eq name "ALPACA_BASE_URL"
    then some "https://api.alpaca.markets/"
    else some "key"

alpaca_broker_from_env-IsGuarded_example : IsGuarded environ live_base_url
unfolding alpaca_broker_from_env check_credentials any_part resolve_base_url resolve_url
    is_authorised drop_slashes strip is_blank
alpaca_broker_from_env-IsGuarded_example =
    alpaca_broker_from_env-IsGuarded (λ s. s) (λ f s. false) environ live_base_url refl
