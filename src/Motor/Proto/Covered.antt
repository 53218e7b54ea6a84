-- ===== src/Motor/Proto/Covered.antt =====
-- proto_adapter.py: the text of an attested order is of that order.
use mathlib.Core.Path.{subst}
use agentic_fintech_ecosyste.Prelude.{
  ℕ, ℤ, pos, String, Bool, true, false, Option, none, some, List, [], ◌∷◌, ◌≡◌, ◌⊎◌, inl, inr, refl,
  sym, arith, Option-cases, All, if-of,
}
use agentic_fintech_ecosyste.Money.{Decimal, usable}
use agentic_fintech_ecosyste.Motor.Models.{
  Side, buy, sell, OrderType, market, limit, stop, stop_limit, ExecAlgo, direct, iceberg, pov,
  Bytes, Order, AttestedOrder,
}
use agentic_fintech_ecosyste.Motor.Attestation.{compare_digest}
use agentic_fintech_ecosyste.Motor.Canonical.{Fields, build_canonical_text, candidate_side_names}
use agentic_fintech_ecosyste.Motor.Validators.{make_order, assemble, finite_non_negative}
use agentic_fintech_ecosyste.Motor.Proto.{
  OrderMessage, AttestationMessage, Codec, from_nanos, side_of, type_of, algo_of, order_of,
  build_order, fields_of, canonical_attestation_text, encoded, pick, select, select_signed_text,
  or_first, attested_with, attested_order_from_proto,
}

-- The numbers of the enums in a message.
abbrev pub side_number : Side → ℕ
side_number buy = 1
side_number sell = 2

abbrev pub type_number : OrderType → ℕ
type_number market = 1
type_number limit = 2
type_number stop = 3
type_number stop_limit = 4

abbrev pub algo_number : ExecAlgo → ℕ
algo_number direct = 1
algo_number iceberg = 2
algo_number pov = 3

-- The word of an order type in the signed text.
abbrev pub type_word : OrderType → String
type_word market = "MARKET"
type_word limit = "LIMIT"
type_word stop = "STOP"
type_word stop_limit = "STOP_LIMIT"

-- The order has the numbers and the names of the message.
pub record IsOf (o : OrderMessage) (order : Order) : Type 0 where
  pub order_id : order.order_id ≡ o.order_id
  pub signal_id : order.signal_id ≡ o.signal_id
  pub symbol : order.symbol ≡ o.symbol
  pub quantity : o.quantity_nanos ≡ pos order.quantity
  pub limit_price : o.limit_price_nanos ≡ pos order.limit_price
  pub stop_price : o.stop_price_nanos ≡ pos order.stop_price
  pub side : o.side ≡ side_number order.side
  pub order_type : o.order_type ≡ type_number order.order_type
  pub algo : o.algo ≡ algo_number order.algo
  pub preferred_venue : order.preferred_venue ≡ o.preferred_venue

order_of-some :
    (one : ℕ) (o : OrderMessage) (side : Option Side) (type : Option (String × OrderType))
    (algo : Option ExecAlgo) (q l s : Option ℕ) (toxicity rate size : Option Decimal)
    (order : Order)
    → order_of one o side type algo q l s toxicity rate size ≡ some order
    → (order.order_id ≡ o.order_id)
      × (order.signal_id ≡ o.signal_id)
      × (order.symbol ≡ o.symbol)
      × (side ≡ some order.side)
      × ((word : String) × (type ≡ some (word, order.order_type)))
      × (algo ≡ some order.algo)
      × (order.preferred_venue ≡ o.preferred_venue)
      × (q ≡ some order.quantity)
      × (l ≡ some order.limit_price)
      × (s ≡ some order.stop_price)
unfolding order_of make_order assemble usable finite_non_negative
order_of-some one o side none algo q l s toxicity rate size order h = absurd (ground arith)
order_of-some one o side (some (word, type)) algo q l s toxicity rate size order h = (
  ground arith,
  ground arith,
  ground arith,
  ground arith,
  (word, ground arith),
  ground arith,
  ground arith,
  ground arith,
  ground arith,
  ground arith,
)

side_of-some : (n : ℕ) (side : Side) → side_of n ≡ some side → n ≡ side_number side
unfolding side_of
side_of-some n buy h = ground arith
side_of-some n sell h = ground arith

algo_of-some : (n : ℕ) (algo : ExecAlgo) → algo_of n ≡ some algo → n ≡ algo_number algo
unfolding algo_of
algo_of-some n direct h = ground arith
algo_of-some n iceberg h = ground arith
algo_of-some n pov h = ground arith

type_of-some :
    (n : ℕ) (word : String) (type : OrderType)
    → type_of n ≡ some (word, type)
    → n ≡ type_number type
unfolding type_of
type_of-some n word market h = ground arith
type_of-some n word limit h = ground arith
type_of-some n word stop h = ground arith
type_of-some n word stop_limit h = ground arith

type_of_number :
    (t s : OrderType) (word : String)
    → type_of (type_number t) ≡ some (word, s)
    → word ≡ type_word t
unfolding type_of
type_of_number market s word h = ground arith
type_of_number limit s word h = ground arith
type_of_number stop s word h = ground arith
type_of_number stop_limit s word h = ground arith

from_nanos-some : (z : ℤ) (n : ℕ) → from_nanos z ≡ some n → z ≡ pos n
unfolding from_nanos
from_nanos-some z n h = ground arith

-- A built order has the message's signed values.
build_order-IsOf :
    (one : ℕ) (o : OrderMessage) (order : Order) → build_order one o ≡ some order → IsOf o order
unfolding build_order
build_order-IsOf one o order h =
    let (id, signal, symbol, side, (word, type), algo, venue, q, l, s) =
      order_of-some one o _ _ _ _ _ _ _ _ _ order h in
    record {
      order_id = id;
      signal_id = signal;
      symbol = symbol;
      quantity = from_nanos-some o.quantity_nanos _ q;
      limit_price = from_nanos-some o.limit_price_nanos _ l;
      stop_price = from_nanos-some o.stop_price_nanos _ s;
      side = side_of-some o.side order.side side;
      order_type = type_of-some o.order_type word order.order_type type;
      algo = algo_of-some o.algo order.algo algo;
      preferred_venue = venue;
    }

-- The names that a side may have in the signed text.
abbrev pub Fits : Side → String → Type 0
Fits buy name = name ≡ "BUY"
Fits sell name = (name ≡ "SELL") ⊎ (name ≡ "SELL_SHORT")

-- The signed payload is the canonical text of this order and of the times of this attestation.
pub record Covers (k : Codec) (x : AttestedOrder) : Type 0 where
  pub fields : Fields
  pub words : String
  pub built : build_canonical_text k.int_text fields ≡ some words
  pub payload : x.attestation.signed_payload ≡ k.utf8 words
  pub signal_id : fields.signal_id ≡ x.order.signal_id
  pub symbol : fields.symbol ≡ x.order.symbol
  pub order_type : fields.order_type ≡ type_word x.order.order_type
  pub quantity : fields.qty_nanos ≡ pos x.order.quantity
  pub limit_price : fields.limit_price_nanos ≡ pos x.order.limit_price
  pub stop_price : fields.stop_price_nanos ≡ pos x.order.stop_price
  pub side : fields.side ≡ x.attestation.attested_side
  pub side_fits : Fits x.order.side x.attestation.attested_side
  pub decided : fields.decided_at_ns ≡ pos x.attestation.decided_at_ns
  pub expires : fields.expires_at_ns ≡ pos x.attestation.expires_at_ns
  pub key_id : fields.key_id ≡ x.attestation.key_id

candidates-Fits :
    (n : ℕ) (allow_short : Bool) (side : Side) (names : List String)
    → n ≡ side_number side
    → candidate_side_names n allow_short ≡ some names
    → All (Fits side) names
unfolding candidate_side_names
candidates-Fits n allow_short buy names e h =
    let single : names ≡ "BUY" ∷ [] = ground arith in subst (All (Fits buy)) (sym single) (refl, tt)
candidates-Fits n true sell names e h =
    let both : names ≡ "SELL" ∷ "SELL_SHORT" ∷ [] = ground arith in
    subst (All (Fits sell)) (sym both) (inl refl, (inr refl, tt))
candidates-Fits n false sell names e h =
    let single : names ≡ "SELL" ∷ [] = ground arith in
    subst (All (Fits sell)) (sym single) (inl refl, tt)

module _ (k : Codec) (o : OrderMessage) (a : AttestationMessage) where
  -- A text with the name of its side, and what holds of the name.
  IsText : (String → Type 0) → Bytes × String → Type 0
  IsText P (t, name) = (canonical_attestation_text k o a name ≡ some t) × P name

  IsFirst : (String → Type 0) → Option (Bytes × String) → Type 0
  IsFirst P none = Unit
  IsFirst P (some c) = IsText P c

  or_first-IsFirst :
      (P : String → Type 0) (first : Option (Bytes × String)) (c : Bytes × String)
      → IsFirst P first
      → IsText P c
      → IsFirst P (or_first first c)
  unfolding IsFirst
  or_first-IsFirst P none c f t = t
  or_first-IsFirst P (some d) c f t = f

  pick-IsFirst :
      (P : String → Type 0) (name : String) (later : Bytes → Option (Bytes × String))
      (made : Option Bytes)
      → canonical_attestation_text k o a name ≡ made
      → P name
      → ((t : Bytes) → IsText P (t, name) → IsFirst P (later t))
      → IsFirst P (pick k a name later made)
  unfolding pick IsFirst IsText
  pick-IsFirst P name later none same p rest = tt
  pick-IsFirst P name later (some t) same p rest =
      if-of (IsFirst P) (compare_digest (k.sha256 t) a.payload_sha256) (same, p) (rest t (same, p))

  select-IsFirst :
      (P : String → Type 0) (names : List String) (first : Option (Bytes × String))
      → All P names
      → IsFirst P first
      → IsFirst P (select k o a names first)
  unfolding select
  select-IsFirst P [] first all f = f
  select-IsFirst P (name ∷ rest) first (p, all) f =
      pick-IsFirst P name _ _ refl p
        (λ t made. select-IsFirst P rest _ all (or_first-IsFirst P first (t, name) f made))

  text-fields :
      (name : String) (t : Bytes)
      → canonical_attestation_text k o a name ≡ some t
      → (word : String) × (type : OrderType) × (words : String) × (type_of o.order_type
          ≡ some (word, type))
        × (build_canonical_text k.int_text (fields_of o a word name) ≡ some words)
        × (t ≡ k.utf8 words)
  unfolding canonical_attestation_text encoded
  text-fields name t h = elim (Option-cases (type_of o.order_type)) [
    | inl none_such ↦ absurd (ground arith)
    | inr ((word, type), known) ↦
        elim (Option-cases (build_canonical_text k.int_text (fields_of o a word name))) [
          | inl forbidden ↦ absurd (ground arith)
          | inr (words, built) ↦ (word, type, words, known, built, ground arith)
        ]
  ]

  Covers-of :
      (order : Order) (t : Bytes) (name : String)
      → IsOf o order
      → IsText (Fits order.side) (t, name)
      → Covers k (attested_with k order a (t, name))
  unfolding IsText fields_of
  Covers-of order t name of (made, fits) =
      let (word, type, words, known, built, payload) = text-fields name t made in
      record {
        fields = fields_of o a word name;
        words = words;
        built = built;
        payload = payload;
        signal_id = sym of.signal_id;
        symbol = sym of.symbol;
        order_type =
            type_of_number order.order_type type word
              (subst (λ n. type_of n ≡ some (word, type)) of.order_type known);
        quantity = of.quantity;
        limit_price = of.limit_price;
        stop_price = of.stop_price;
        side = refl;
        side_fits = fits;
        decided = refl;
        expires = refl;
        key_id = refl;
      }

  chosen-Covers :
      (order : Order) (names : List String) (chosen : Bytes × String)
      → IsOf o order
      → All (Fits order.side) names
      → select k o a names none ≡ some chosen
      → Covers k (attested_with k order a chosen)
  unfolding IsFirst
  chosen-Covers order names (t, name) of all e =
      Covers-of order t name of
        (subst (IsFirst (Fits order.side)) e (select-IsFirst (Fits order.side) names none all tt))

  -- An order that the adapter accepts has the identifiers, the symbol, the side, the order type, the
  -- algorithm, the quantity and the prices of the message, and its signed payload is the canonical
  -- text of its signal, symbol, side, order type, quantity and prices, and of the times and the key
  -- of its attestation.
  pub attested_order_from_proto-Covers :
      (allow_short : Bool) (x : AttestedOrder)
      → attested_order_from_proto k o a allow_short ≡ some x
      → IsOf o x.order × Covers k x
  unfolding attested_order_from_proto select_signed_text
  attested_order_from_proto-Covers allow_short x h = elim (Option-cases (build_order k.one o)) [
    | inl invalid ↦ absurd (ground arith)
    | inr (order, built) ↦ elim (Option-cases (candidate_side_names o.side allow_short)) [
      | inl no_side ↦ absurd (ground arith)
      | inr (names, candidates) ↦ elim (Option-cases (select k o a names none)) [
        | inl no_text ↦ absurd (ground arith)
        | inr (chosen, selected) ↦
            let of = build_order-IsOf k.one o order built in
            let all = candidates-Fits o.side allow_short order.side names of.side candidates in
            let covers = chosen-Covers order names chosen of all selected in
            let same : attested_with k order a chosen ≡ x = ground arith in
            subst (λ y. IsOf o y.order × Covers k y) same (of, covers)
      ]
    ]
  ]
