-- ===== src/Motor/Limits.antt =====
-- limits.py: the single-use claims, the worst-case notional and the session's notional ledger.
pub mod Claims
pub mod Durable
pub mod Ledger
pub mod Notional
use agentic_fintech_ecosyste.Prelude.{
  ℕ, String, Bool, true, false, Option, none, some, List, [], ◌∷◌, ◌++◌, ltb, ◌==◌, max, contains,
  str_eq, if◌then◌else◌,
}
use agentic_fintech_ecosyste.Money.{Decimal, positive, usable, add, sub_clipped, mul}
use agentic_fintech_ecosyste.Motor.Models.{Order}

-- `FileIdempotencyStore`: the keys known in memory, and the keys of the lines that are on disk. A
-- write that fails may leave a part of its line in the file or in the buffer, so from then on it is
-- not known what the file holds, and `lines` is missing.
pub record Store : Type 0 where
  pub seen : List String
  pub lines : Option (List String)

-- The lines of the file, one more at the end.
abbrev pub one_more : Option (List String) → String → Option (List String)
one_more none key = none
one_more (some keys) key = some (keys ++ key ∷ [])

-- The reply of `claim`; the last is `IdempotencyStoreError`.
pub data Claim : Type 0 where
  fresh duplicate not_persisted : Claim

-- `durable` says whether the write and the fsync of this call succeed.
unfoldable pub claim : Bool → String → Store → Claim × Store
claim durable key s =
    if contains key s.seen
    then (duplicate, s)
    else if durable
    then (fresh, record { seen = key ∷ s.seen; lines = one_more s.lines key })
    else (not_persisted, record { seen = key ∷ s.seen; lines = none })

-- The key of a line of the file; `none` is a line that is no JSON object with a text under `key`.
load_from : List (Option String) → List String → Option (List String)
load_from [] seen = some seen
load_from (none ∷ rest) seen = none
load_from (some key ∷ rest) seen =
    let more = load_from rest (key ∷ seen) in if str_eq key "" then none else more

keys : List (Option String) → List String
keys [] = []
keys (none ∷ rest) = keys rest
keys (some key ∷ rest) = key ∷ keys rest

-- `_load`: `none` is the `ConfigError` of a corrupt file.
unfoldable pub load : List (Option String) → Option Store
unfolding load_from keys
load lines = elim (load_from lines []) [
  | none ↦ none
  | some seen ↦ some (record { seen = seen; lines = some (keys lines) })
]

-- The greater of two prices, either of which may be missing.
higher : Option ℕ → Option ℕ → Option ℕ
higher none q = q
higher (some p) none = some p
higher (some p) (some q) = some (max p q)

-- `compute_notional`: quantity times the highest usable price.
unfoldable pub compute_notional : Order → Option Decimal → Option ℕ
unfolding higher
compute_notional order trusted_price =
    elim (higher
      (higher (usable (some (positive order.limit_price)))
        (usable (some (positive order.stop_price))))
      (usable trusted_price)) [ none ↦ none | some p ↦ some (mul order.quantity p) ]

-- `NotionalLedger`, whose cap is the configuration's; the state is what is reserved.
unfoldable pub try_reserve : ℕ → ℕ → ℕ → Bool × ℕ
try_reserve cap amount reserved =
    if amount == 0
    then (false, reserved)
    else if ltb cap (add reserved amount)
    then (false, reserved)
    else (true, add reserved amount)

unfoldable pub release : ℕ → ℕ → ℕ
release amount reserved = sub_clipped reserved amount

-- `NotionalLedger.__init__`: what is reserved at first; `none` is the `ValueError`.
unfoldable pub new_ledger : Decimal → Option ℕ
new_ledger cap = elim (usable (some cap)) [ none ↦ none | some _ ↦ some 0 ]
