-- ===== src/Motor/Proto.antt =====
-- proto_adapter.py: from the messages of Aegis to an attested order. An enum is its number.
pub mod Covered
use agentic_fintech_ecosyste.Prelude.{
  ℕ, ℤ, pos, negsuc, String, Bool, true, false, not, Option, none, some, List, [], ◌∷◌, ◌==◌, ◌&&◌,
  ◌||◌, str_eq, if◌then◌else◌,
}
use agentic_fintech_ecosyste.Money.{Decimal, positive, negative, infinite, nan}
use agentic_fintech_ecosyste.Motor.Models.{
  Side, buy, sell, OrderType, market, limit, stop, stop_limit, ExecAlgo, direct, iceberg, pov,
  Bytes, Order, Attestation, AttestedOrder,
}
use agentic_fintech_ecosyste.Motor.Attestation.{compare_digest}
use agentic_fintech_ecosyste.Motor.Canonical.{
  Fields, canonical_version, build_canonical_text, candidate_side_names,
}
use agentic_fintech_ecosyste.Motor.Validators.{RawOrder, make_order}

-- `OrderRequest`; a double is the decimal of its text.
pub record OrderMessage : Type 0 where
  pub order_id : String
  pub signal_id : String
  pub symbol : String
  pub created_at_ns : ℤ
  pub side : ℕ
  pub order_type : ℕ
  pub quantity_nanos : ℤ
  pub limit_price_nanos : ℤ
  pub stop_price_nanos : ℤ
  pub preferred_venue : String
  pub max_venue_toxicity : Decimal
  pub algo : ℕ
  pub pov_target_rate : Decimal
  pub iceberg_display_size : Decimal
  pub status : ℕ
  pub hsm_signature : Bytes
  pub hsm_key_id : String
  pub attestation_expires_at_ns : ℕ

-- `Attestation`
pub record AttestationMessage : Type 0 where
  pub signature : Bytes
  pub key_id : String
  pub payload_sha256 : Bytes
  pub decided_at_ns : ℕ
  pub expires_at_ns : ℕ
  pub aegis_state_seq : ℕ
  pub limits_config_sha256 : String
  pub canonical_version : String

-- `str` of an integer, the encoding of a text and SHA-256; `one` is the number of units of a double
-- of 1.
pub record Codec : Type 0 where
  pub int_text : ℤ → String
  pub utf8 : String → Bytes
  pub sha256 : Bytes → Bytes
  pub one : ℕ

-- `from_nanos`; `none` is the `OrderValidationError`, here and below.
unfoldable pub from_nanos : ℤ → Option ℕ
from_nanos (pos n) = some n
from_nanos (negsuc n) = none

-- `_double_hint`
unfoldable pub double_hint : Decimal → Option Decimal
double_hint (infinite b) = none
double_hint nan = none
double_hint d = some d

-- `_lookup` in `_SIDES`, `_TYPES` and `_ALGOS`.
unfoldable pub side_of : ℕ → Option Side
side_of n = if n == 1 then some buy else if n == 2 then some sell else none

unfoldable pub type_of : ℕ → Option (String × OrderType)
type_of n =
    if n == 1
    then some ("MARKET", market)
    else if n == 2
    then some ("LIMIT", limit)
    else if n == 3
    then some ("STOP", stop)
    else if n == 4
    then some ("STOP_LIMIT", stop_limit)
    else none

unfoldable pub algo_of : ℕ → Option ExecAlgo
algo_of n =
    if n == 1
    then some direct
    else if n == 2
    then some iceberg
    else if n == 3
    then some pov
    else none

-- `_check_consistency`
unfoldable pub is_consistent : OrderMessage → AttestationMessage → Bool
is_consistent o a =
    o.status == 0
    && str_eq a.canonical_version canonical_version
    && str_eq o.order_id o.signal_id
    && compare_digest o.hsm_signature a.signature
    && str_eq o.hsm_key_id a.key_id
    && o.attestation_expires_at_ns == a.expires_at_ns

abbrev natural : ℤ → Option ℕ
natural (pos n) = some n
natural (negsuc n) = none

-- `_build_order`, from the values that were looked up.
unfoldable pub order_of :
    ℕ
    → OrderMessage
    → Option Side
    → Option (String × OrderType)
    → Option ExecAlgo
    → Option ℕ
    → Option ℕ
    → Option ℕ
    → Option Decimal
    → Option Decimal
    → Option Decimal
    → Option Order
order_of one o (some side) (some (name, type)) (some algo) (some q) (some l) (some s)
      (some toxicity) (some rate) (some size) =
    make_order one (record {
      order_id = o.order_id;
      signal_id = o.signal_id;
      symbol = o.symbol;
      created_at_ns = natural o.created_at_ns;
      side = side;
      order_type = type;
      quantity = positive q;
      limit_price = positive l;
      stop_price = positive s;
      preferred_venue = o.preferred_venue;
      max_venue_toxicity = toxicity;
      algo = algo;
      pov_target_rate = rate;
      iceberg_display_size = size;
    })
order_of one o _ _ _ _ _ _ _ _ _ = none

-- `_build_order`
unfoldable pub build_order : ℕ → OrderMessage → Option Order
build_order one o =
    order_of one o (side_of o.side) (type_of o.order_type) (algo_of o.algo)
      (from_nanos o.quantity_nanos) (from_nanos o.limit_price_nanos) (from_nanos o.stop_price_nanos)
      (double_hint o.max_venue_toxicity) (double_hint o.pov_target_rate)
      (double_hint o.iceberg_display_size)

-- The fields of the signed text, by the word of the order type and the side.
unfoldable pub fields_of : OrderMessage → AttestationMessage → String → String → Fields
fields_of o a type side = record {
  signal_id = o.signal_id;
  symbol = o.symbol;
  side = side;
  order_type = type;
  qty_nanos = o.quantity_nanos;
  limit_price_nanos = o.limit_price_nanos;
  stop_price_nanos = o.stop_price_nanos;
  decided_at_ns = pos a.decided_at_ns;
  expires_at_ns = pos a.expires_at_ns;
  aegis_state_seq = pos a.aegis_state_seq;
  limits_config_sha256 = a.limits_config_sha256;
  key_id = a.key_id;
}

-- `first or (text, name)`
abbrev pub or_first : Option (Bytes × String) → Bytes × String → Option (Bytes × String)
or_first none chosen = some chosen
or_first (some c) chosen = some c

module _ (k : Codec) where
  unfoldable pub encoded : Option String → Option Bytes
  encoded none = none
  encoded (some t) = some (k.utf8 t)

  -- `canonical_attestation_text`, for a given side.
  unfoldable pub canonical_attestation_text :
      OrderMessage → AttestationMessage → String → Option Bytes
  unfolding encoded
  canonical_attestation_text o a side = elim (type_of o.order_type) [
    | none ↦ none
    | some (word, type) ↦ encoded (build_canonical_text k.int_text (fields_of o a word side))
  ]

  -- One candidate: its text is chosen when it has the digest; `later` is the rest of the loop.
  unfoldable pub pick :
      AttestationMessage
      → String
      → (Bytes → Option (Bytes × String))
      → Option Bytes
      → Option (Bytes × String)
  pick a name later none = none
  pick a name later (some t) =
      if compare_digest (k.sha256 t) a.payload_sha256 then some (t, name) else later t

  -- The loop over the candidates: the first whose text has the digest, else the first of all.
  unfoldable pub select :
      OrderMessage
      → AttestationMessage
      → List String
      → Option (Bytes × String)
      → Option (Bytes × String)
  select o a [] first = first
  select o a (name ∷ rest) first =
      pick a name (λ t. select o a rest (or_first first (t, name)))
        (canonical_attestation_text o a name)

  -- `_select_signed_text`
  unfoldable pub select_signed_text :
      OrderMessage → AttestationMessage → Bool → Option (Bytes × String)
  select_signed_text o a allow_short = elim (candidate_side_names o.side allow_short) [
    | none ↦ none
    | some names ↦ select o a names none
  ]

  abbrev pub attested_with : Order → AttestationMessage → Bytes × String → AttestedOrder
  attested_with order a (t, side) = record {
    order = order;
    attestation = record {
      signature = a.signature;
      key_id = a.key_id;
      signed_payload = t;
      payload_sha256 = a.payload_sha256;
      decided_at_ns = a.decided_at_ns;
      expires_at_ns = a.expires_at_ns;
      attested_side = side;
    };
  }

  -- `attested_order_from_proto`
  unfoldable pub attested_order_from_proto :
      OrderMessage → AttestationMessage → Bool → Option AttestedOrder
  attested_order_from_proto o a allow_short =
      if is_consistent o a
      then elim (build_order k.one o) [
        | none ↦ none
        | some order ↦ elim (select_signed_text o a allow_short) [
          | none ↦ none
          | some chosen ↦ some (attested_with order a chosen)
        ]
      ]
      else none
