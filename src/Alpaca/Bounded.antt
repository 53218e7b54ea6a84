-- ===== src/Alpaca/Bounded.antt =====
-- alpaca.py: how often a submit and a read call the venue, and what a submit returns.
use Prim.Native.String.{◌++◌}
use agentic_fintech_ecosyste.Prelude.{
  ℕ, zero, suc, ◌+◌, ◌≤◌, String, not, Option, none, some, List, [], ◌∷◌, ◌≡◌, refl, ap, arith, ltb,
  leb, ◌==◌, ◌&&◌, ◌||◌, str_eq, All, if-of,
}
use agentic_fintech_ecosyste.Motor.Models.{BrokerOrderRequest, BrokerOrder}
use agentic_fintech_ecosyste.Motor.World.{BrokerReply, placed, refused}
use agentic_fintech_ecosyste.Alpaca.Parse.{Readers}
use agentic_fintech_ecosyste.Alpaca.Client.{
  Http, response, transport, Step, posts, gets, deletes, sleeps, Read, is_retryable, cap, again,
  on_answer, read_loop, read, by_id, get_order_by_client_id, reconcile, loaded_order, on_success,
  on_post, submit_order, error_message,
}

-- How often the venue got an order, and how often it was read.
unfoldable pub posts_of : List Step → ℕ
posts_of [] = 0
posts_of (posts request ∷ rest) = suc (posts_of rest)
posts_of (gets path ∷ rest) = posts_of rest
posts_of (deletes path ∷ rest) = posts_of rest
posts_of (sleeps n ∷ rest) = posts_of rest

unfoldable pub gets_of : List Step → ℕ
gets_of [] = 0
gets_of (posts request ∷ rest) = gets_of rest
gets_of (gets path ∷ rest) = suc (gets_of rest)
gets_of (deletes path ∷ rest) = gets_of rest
gets_of (sleeps n ∷ rest) = gets_of rest

-- A sleep of at most two seconds.
abbrev pub IsShort : Step → Type 0
IsShort (sleeps n) = n ≤ 20
IsShort _ = Unit

-- At most this many reads, with short sleeps, and no order.
abbrev pub IsReading : ℕ → List Step → Type 0
IsReading n steps = (posts_of steps ≡ 0) × (gets_of steps ≤ n) × All IsShort steps

cap-le : (attempt : ℕ) → cap attempt ≤ 20
unfolding cap
cap-le attempt = omega arith

module _ (r : Readers) (int_text : ℕ → String) where
  again-IsReading :
      (path : String) (left attempt : ℕ) (rest : Read (ℕ × String) × List Step)
      → IsReading left rest.1
      → IsReading (suc left) (again r int_text path left attempt rest).1
  unfolding again posts_of gets_of
  again-IsReading path zero attempt (result, steps) (none_sent, few, short) =
      (none_sent, omega (arith, few), (tt, short))
  again-IsReading path (suc left) attempt (result, steps) (none_sent, few, short) =
      (none_sent, omega (arith, few), (tt, (cap-le attempt, short)))

  single-IsReading : (path : String) (left : ℕ) → IsReading (suc left) (gets path ∷ [])
  unfolding posts_of gets_of
  single-IsReading path left = (refl, omega arith, (tt, tt))

  on_answer-IsReading :
      (path : String) (left attempt : ℕ) (retry : String → Read (ℕ × String) × List Step)
      (answer : Http)
      → ((last : String) → IsReading left (retry last).1)
      → IsReading (suc left) (on_answer r int_text path left attempt retry answer).1
  unfolding on_answer
  on_answer-IsReading path left attempt retry (transport name) rest =
      again-IsReading path left attempt (retry name) (rest name)
  on_answer-IsReading path left attempt retry (response code body) rest =
      if-of (λ (x : Read (ℕ × String) × List Step). IsReading (suc left) x.1)
        (ltb code 400 || code == 404) (single-IsReading path left)
        (if-of (λ (x : Read (ℕ × String) × List Step). IsReading (suc left) x.1)
          (not (is_retryable code) && ltb code 500) (single-IsReading path left)
          (again-IsReading path left attempt (retry _) (rest _)))

  read_loop-IsReading :
      (path : String) (answers : ℕ → Http) (left attempt : ℕ) (last : String)
      → IsReading left (read_loop r int_text path answers left attempt last).1
  unfolding read_loop posts_of gets_of
  read_loop-IsReading path answers zero attempt last = (refl, omega arith, tt)
  read_loop-IsReading path answers (suc left) attempt last =
      on_answer-IsReading path left attempt _ (answers attempt)
        (λ words. read_loop-IsReading path answers left (suc attempt) words)

  -- A read calls the venue at most once more than the configured retries, whatever it answers, posts
  -- nothing, and sleeps at most two seconds at a time.
  pub read-IsReading :
      (retries : ℕ) (path : String) (answers : ℕ → Http)
      → IsReading (retries + 1) (read r int_text retries path answers).1
  unfolding read
  read-IsReading retries path answers = read_loop-IsReading path answers (retries + 1) 0 "unknown"

  -- One order was sent, with at most these reads.
  abbrev pub IsSingle : ℕ → BrokerReply × List Step → Type 0
  IsSingle retries x = (posts_of x.1 ≡ 1) × (gets_of x.1 ≤ retries + 1)

  reconcile-IsSingle :
      (retries : ℕ) (request : BrokerOrderRequest) (answers : ℕ → Http) (cause : String)
      → IsSingle retries (reconcile r int_text retries request answers cause)
  unfolding reconcile get_order_by_client_id posts_of gets_of
  reconcile-IsSingle retries request answers cause =
      let (none_sent, few, short) =
        read-IsReading retries (by_id r int_text request.client_order_id) answers in
      (ap suc none_sent, few)

  sent-IsSingle :
      (retries : ℕ) (reply : BrokerReply) (request : BrokerOrderRequest)
      → IsSingle retries (reply, posts request ∷ [])
  unfolding posts_of gets_of
  sent-IsSingle retries reply request = (refl, omega arith)

  on_success-IsSingle :
      (retries : ℕ) (request : BrokerOrderRequest) (answers : ℕ → Http) (found : Option BrokerOrder)
      → IsSingle retries (on_success r int_text retries request answers found)
  unfolding on_success
  on_success-IsSingle retries request answers none = reconcile-IsSingle retries request answers _
  on_success-IsSingle retries request answers (some o) =
      if-of (IsSingle retries)
        (not (str_eq o.client_order_id request.client_order_id)
          || not (str_eq o.symbol request.symbol))
        (reconcile-IsSingle retries request answers _) (sent-IsSingle retries (placed o) request)

  -- A submit posts the order exactly once, whatever the venue answers, and reads at most once more
  -- than the configured retries.
  pub submit_order-IsSingle :
      (retries : ℕ) (request : BrokerOrderRequest) (answer : Http) (answers : ℕ → Http)
      → IsSingle retries (submit_order r int_text retries request answer answers)
  unfolding submit_order on_post
  submit_order-IsSingle retries request (transport name) answers =
      reconcile-IsSingle retries request answers _
  submit_order-IsSingle retries request (response status body) answers =
      if-of (IsSingle retries) (leb 200 status && ltb status 300)
        (on_success-IsSingle retries request answers (loaded_order r int_text body))
        (if-of (IsSingle retries) (leb 400 status && ltb status 500 && not (is_retryable status))
          (sent-IsSingle retries
            (refused (
              "broker rejected order (HTTP "
              ++ int_text status
              ++ "): "
              ++ error_message r int_text body))
            request)
          (reconcile-IsSingle retries request answers _))
