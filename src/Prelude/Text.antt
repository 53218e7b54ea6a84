-- ===== src/Prelude/Text.antt =====
-- Python's `str` as the native text: code points, blankness, slices and membership in a set.
use Prim.Native.Nat.{ℕ, zero, suc}
use Prim.Native.Char.{code}
use Prim.Native.String.{String}
use mathlib.Core.Bool.{Bool, true, false, ◌&&◌, ◌||◌}
use mathlib.Core.List.{List, [], ◌∷◌}
use text.Mathlib.Text.{◌==◌ as str_eq}
use agentic_fintech_ecosyste.Prelude.Tests.{leb, ◌==◌, if◌then◌else◌}

abbrev pub codes : String → List ℕ
codes String.[] = []
codes (String.◌∷◌ c s) = code c ∷ codes s

-- `str.isspace` of one code point.
unfoldable pub is_space : ℕ → Bool
is_space c =
    (leb 9 c && leb c 13)
    || (leb 28 c && leb c 32)
    || c == 133
    || c == 160
    || c == 5760
    || (leb 8192 c && leb c 8202)
    || c == 8232
    || c == 8233
    || c == 8239
    || c == 8287
    || c == 12288

all_space : List ℕ → Bool
all_space [] = true
all_space (c ∷ cs) = is_space c && all_space cs

-- `not s.strip()`
unfoldable pub is_blank : String → Bool
unfolding all_space is_space
is_blank s = all_space (codes s)

drop_space : String → String
drop_space String.[] = String.[]
drop_space (String.◌∷◌ c s) =
    let rest = drop_space s in if is_space (code c) then rest else String.◌∷◌ c s

drop_space_after : String → String
unfolding is_blank
drop_space_after String.[] = String.[]
drop_space_after (String.◌∷◌ c s) =
    let rest = drop_space_after s in
    if is_blank (String.◌∷◌ c s) then String.[] else String.◌∷◌ c rest

-- `s.strip()`
unfoldable pub strip : String → String
unfolding drop_space drop_space_after
strip s = drop_space_after (drop_space s)

-- `s[:n]`
unfoldable pub truncate : ℕ → String → String
truncate zero s = String.[]
truncate (suc n) String.[] = String.[]
truncate (suc n) (String.◌∷◌ c s) = String.◌∷◌ c (truncate n s)

-- `key in seen`, for a set of texts.
unfoldable pub contains : String → List String → Bool
contains key [] = false
contains key (k ∷ seen) = str_eq key k || contains key seen
