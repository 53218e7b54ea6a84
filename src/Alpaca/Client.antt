-- ===== src/Alpaca/Client.antt =====
-- alpaca.py: the reads with their retries, the single submit with its reconciliation, and the cancel.
-- The answers of the venue are arguments, and the words of an error are shortened; the steps list what was called, in order.
use Prim.Native.String.{◌++◌}
use agentic_fintech_ecosyste.Prelude.{
  ℕ, zero, suc, ◌+◌, ◌^◌, min, String, Bool, true, not, Option, none, some, List, [], ◌∷◌,
  ◌++◌ as append, ltb, leb, ◌==◌, ◌&&◌, ◌||◌, str_eq, codes, length, truncate, if◌then◌else◌,
}
use agentic_fintech_ecosyste.Sharp.Json.{Json, object, get}
use agentic_fintech_ecosyste.Motor.Models.{BrokerOrderRequest, BrokerOrder}
use agentic_fintech_ecosyste.Motor.World.{BrokerReply, placed, refused, ambiguous}
use agentic_fintech_ecosyste.Alpaca.Parse.{Readers, parse_order, parse_orders}

-- A response with its status and text, or an `httpx.HTTPError` by its name.
pub data Http : Type 0 where
  response : ℕ → String → Http
  transport : String → Http

-- What the client did; a sleep by its longest time, in tenths of a second.
pub data Step : Type 0 where
  posts : BrokerOrderRequest → Step
  gets : String → Step
  deletes : String → Step
  sleeps : ℕ → Step

-- What a read comes to; `read_fails` is `BrokerReadError`.
pub data Read {ℓ} (A : Type ℓ) : Type ℓ where
  reads : A → Read A
  read_fails : String → Read A

abbrev pub is_retryable : ℕ → Bool
is_retryable code = code == 408 || code == 429

-- `min(_BACKOFF_CAP_S, _BACKOFF_BASE_S * 2**attempt)`, in tenths of a second.
unfoldable pub cap : ℕ → ℕ
cap attempt = min 20 (2 ^ attempt)

-- The words of a status code.
abbrev http_words : (ℕ → String) → ℕ → String
http_words int_text code = "HTTP " ++ int_text code

module _ (r : Readers) (int_text : ℕ → String) where
  -- The pause after a failed attempt, unless it was the last.
  abbrev pause : ℕ → ℕ → List Step
  pause zero attempt = []
  pause (suc left) attempt = sleeps (cap attempt) ∷ []

  -- An attempt that is tried again, with the rest of the loop.
  unfoldable pub again :
      String → ℕ → ℕ → Read (ℕ × String) × List Step → Read (ℕ × String) × List Step
  again path left attempt (result, steps) = (result, gets path ∷ append (pause left attempt) steps)

  -- One attempt; `retry` is the rest of the loop from the words of what failed.
  unfoldable pub on_answer :
      String
      → ℕ
      → ℕ
      → (String → Read (ℕ × String) × List Step)
      → Http
      → Read (ℕ × String) × List Step
  on_answer path left attempt retry (transport name) = again path left attempt (retry name)
  on_answer path left attempt retry (response code body) =
      if ltb code 400 || code == 404
      then (reads (code, body), gets path ∷ [])
      else if not (is_retryable code) && ltb code 500
      then (read_fails ("read failed: " ++ http_words int_text code), gets path ∷ [])
      else again path left attempt (retry (http_words int_text code))

  -- The loop of `_read`, with the attempts that are left.
  unfoldable pub read_loop : String → (ℕ → Http) → ℕ → ℕ → String → Read (ℕ × String) × List Step
  read_loop path answers zero attempt last =
      (read_fails ("read failed after retries: " ++ last), [])
  read_loop path answers (suc left) attempt last =
      on_answer path left attempt (read_loop path answers left (suc attempt)) (answers attempt)

  -- `_read`
  unfoldable pub read : ℕ → String → (ℕ → Http) → Read (ℕ × String) × List Step
  read retries path answers = read_loop path answers (retries + 1) 0 "unknown"

  parsed_by : {A : Type 0} → (Json → Option A) → Option Json → Read A
  parsed_by f none = read_fails "malformed response"
  parsed_by f (some v) = elim (f v) [ none ↦ read_fails "malformed response" | some x ↦ reads x ]

  -- `_parsed`
  unfoldable pub parsed : {A : Type 0} → (Json → Option A) → ℕ × String → Read A
  unfolding parsed_by
  parsed f (code, body) =
      if leb 400 code
      then read_fails ("read failed: " ++ http_words int_text code)
      else parsed_by f (r.loads body)

  -- The order that was read is the one that was asked for.
  unfoldable pub of_client : String → Read BrokerOrder → Read (Option BrokerOrder)
  of_client id (read_fails why) = read_fails why
  of_client id (reads o) =
      if str_eq o.client_order_id id
      then reads (some o)
      else read_fails "broker returned a different client_order_id"

  unfoldable pub on_read : String → Read (ℕ × String) → Read (Option BrokerOrder)
  on_read id (read_fails why) = read_fails why
  on_read id (reads (code, body)) =
      if code == 404 then reads none else of_client id (parsed (parse_order r) (code, body))

  abbrev pub by_id : String → String
  by_id id = "/v2/orders:by_client_order_id?client_order_id=" ++ id

  -- `get_order_by_client_id`
  unfoldable pub get_order_by_client_id :
      ℕ → String → (ℕ → Http) → Read (Option BrokerOrder) × List Step
  get_order_by_client_id retries id answers =
      let (result, steps) = read retries (by_id id) answers in (on_read id result, steps)

  on_list : Read (ℕ × String) → Read (List BrokerOrder)
  on_list (read_fails why) = read_fails why
  on_list (reads answer) = parsed (parse_orders r) answer

  -- `list_open_orders`
  unfoldable pub list_open_orders : ℕ → (ℕ → Http) → Read (List BrokerOrder) × List Step
  unfolding on_list
  list_open_orders retries answers =
      let (result, steps) = read retries "/v2/orders?status=open&limit=500&direction=asc" answers in
      (on_list result, steps)

  -- The end of `_reconcile`, by what was found.
  unfoldable pub reconciled : String → Read (Option BrokerOrder) → BrokerReply
  reconciled cause (read_fails why) =
      ambiguous ("submit outcome unknown (" ++ cause ++ "); reconciliation failed")
  reconciled cause (reads none) =
      ambiguous
        ("submit outcome unknown (" ++ cause ++ "); not found at broker, may still be in flight")
  reconciled cause (reads (some o)) = placed o

  -- `_reconcile`
  unfoldable pub reconcile : ℕ → BrokerOrderRequest → (ℕ → Http) → String → BrokerReply × List Step
  reconcile retries request answers cause =
      let (found, steps) = get_order_by_client_id retries request.client_order_id answers in
      (reconciled cause found, posts request ∷ steps)

  abbrev pub loaded_order : String → Option BrokerOrder
  loaded_order body = elim (r.loads body) [ none ↦ none | some v ↦ parse_order r v ]

  -- A response of 2xx, by the order that its text is.
  unfoldable pub on_success :
      ℕ → BrokerOrderRequest → (ℕ → Http) → Option BrokerOrder → BrokerReply × List Step
  on_success retries request answers none = reconcile retries request answers "malformed_2xx"
  on_success retries request answers (some o) =
      if not (str_eq o.client_order_id request.client_order_id)
        || not (str_eq o.symbol request.symbol)
      then reconcile retries request answers "mismatched_2xx"
      else (placed o, posts request ∷ [])

  message_in : Option Json → String
  message_in none = ""
  message_in (some v) = truncate 200 (r.show v)

  message_of : Option Json → String
  unfolding message_in
  message_of (some (object ms)) = message_in (get "message" ms)
  message_of _ = ""

  -- `_error_message`
  unfoldable pub error_message : String → String
  unfolding message_of
  error_message body = message_of (r.loads body)

  -- What the venue answered to the POST.
  unfoldable pub on_post : ℕ → BrokerOrderRequest → (ℕ → Http) → Http → BrokerReply × List Step
  on_post retries request answers (transport name) =
      reconcile retries request answers ("transport:" ++ name)
  on_post retries request answers (response status body) =
      if leb 200 status && ltb status 300
      then on_success retries request answers (loaded_order body)
      else if leb 400 status && ltb status 500 && not (is_retryable status)
      then (
        refused ("broker rejected order (HTTP " ++ int_text status ++ "): " ++ error_message body),
        posts request ∷ [],
      )
      else reconcile retries request answers ("http_" ++ int_text status)

  -- `submit_order`: one POST, and the reads that reconcile it.
  unfoldable pub submit_order : ℕ → BrokerOrderRequest → Http → (ℕ → Http) → BrokerReply × List Step
  submit_order retries request answer answers = on_post retries request answers answer

  is_id_code : ℕ → Bool
  is_id_code c =
      (leb 48 c && leb c 57) || (leb 65 c && leb c 90) || (leb 97 c && leb c 122) || c == 45

  all_id_codes : List ℕ → Bool
  unfolding is_id_code
  all_id_codes [] = true
  all_id_codes (c ∷ cs) = is_id_code c && all_id_codes cs

  -- `cancel_order`: the words of the `BrokerError`, if any.
  unfoldable pub on_delete : Http → Option String
  on_delete (transport name) = some ("cancel failed: " ++ name)
  on_delete (response code body) =
      if leb 200 code && ltb code 300
      then none
      else some ("cancel failed: " ++ http_words int_text code)

  unfoldable pub cancel_order : String → Http → Option String × List Step
  unfolding all_id_codes
  cancel_order id answer =
      if leb 1 (length (codes id)) && leb (length (codes id)) 64 && all_id_codes (codes id)
      then (on_delete answer, deletes ("/v2/orders/" ++ id) ∷ [])
      else (some "invalid broker order id", [])
