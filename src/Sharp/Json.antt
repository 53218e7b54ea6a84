-- ===== src/Sharp/Json.antt =====
-- The values of `json.loads`, and what afe_sharp reads of them. Parsing, printing, equality of
-- parsed values and the canonical form of a name are Python's, and fields of `Library`.

use agentic_fintech_ecosyste.Prelude.{
  ℕ, String, Bool, false, Option, none, some, List, [], ◌∷◌, str_eq, codes, ◌==◌, ◌||◌,
  if◌then◌else◌,
}

-- `other` is a number that is not a natural one, by its text.
mutual
  pub data Json : Type 0 where
    null : Json
    boolean : Bool → Json
    number : ℕ → Json
    other : String → Json
    text : String → Json
    array : Items → Json
    object : Members → Json

  pub data Items : Type 0 where
    no_items : Items
    item : Json → Items → Items

  pub data Members : Type 0 where
    no_members : Members
    member : String → Json → Members → Members

-- `canonical` is NFKC, `strip` and `casefold`; `utc` prints an instant in microseconds.
pub record Library : Type 0 where
  pub canonical : String → String
  pub loads : String → Option Json
  pub dumps : Json → String
  pub show : Json → String
  pub equal : Json → Json → Bool
  pub utc : ℕ → String

-- `detail.get(key)`
unfoldable pub get : String → Members → Option Json
get key no_members = none
get key (member k v rest) = if str_eq key k then some v else get key rest

items_of : Items → List Json
items_of no_items = []
items_of (item v rest) = v ∷ items_of rest

keys_of : Members → List Json
keys_of no_members = []
keys_of (member k v rest) = text k ∷ keys_of rest

chars_of : String → List Json
chars_of String.[] = []
chars_of (String.◌∷◌ c s) = text (String.◌∷◌ c String.[]) ∷ chars_of s

-- `tuple(value)`; `none` is the `TypeError` of a value that is not iterable.
unfoldable pub tuple_of : Json → Option (List Json)
unfolding items_of keys_of chars_of
tuple_of (array vs) = some (items_of vs)
tuple_of (object ms) = some (keys_of ms)
tuple_of (text s) = some (chars_of s)
tuple_of _ = none

unfoldable pub array_of : List String → Items
array_of [] = no_items
array_of (s ∷ rest) = item (text s) (array_of rest)

unfoldable pub has_code : ℕ → List ℕ → Bool
has_code c [] = false
has_code c (d ∷ rest) = c == d || has_code c rest

unfoldable pub has_nul : String → Bool
unfolding has_code
has_nul s = has_code 0 (codes s)
