-- ===== src/Motor/Limits/Durable.antt =====
-- limits.py: claims survive a restart from the file.
use agentic_fintech_ecosyste.Prelude.{
  String, Bool, true, false, Option, some, List, [], ◌∷◌, ◌++◌, ◌≡◌, refl, arith, contains, map,
  str_eq, eq_refl, All, ap,
}
use agentic_fintech_ecosyste.Motor.Limits.{
  Store, one_more, fresh, duplicate, claim, load, load_from, keys,
}

-- No line has an empty key, so the file is one that `_load` accepts.
abbrev pub IsReadable : List String → Type 0
IsReadable = All (λ key. str_eq key "" ≡ false)

IsReadable-append :
    (xs : List String) (key : String)
    → IsReadable xs
    → str_eq key "" ≡ false
    → IsReadable (xs ++ key ∷ [])
IsReadable-append [] key h e = (e, tt)
IsReadable-append (x ∷ xs) key h e = (h.0, IsReadable-append xs key h.1 e)

-- Reading the lines back puts each in front of what was known.
pour : List String → List String → List String
pour [] seen = seen
pour (key ∷ rest) seen = pour rest (key ∷ seen)

load_from-map :
    (lines seen : List String)
    → IsReadable lines
    → load_from (map some lines) seen ≡ some (pour lines seen)
unfolding load_from pour
load_from-map [] seen h = refl
load_from-map (key ∷ rest) seen h = rw h.0 (load_from-map rest (key ∷ seen) h.1)

contains-pour_seen :
    (key : String) (lines seen : List String)
    → contains key seen ≡ true
    → contains key (pour lines seen) ≡ true
unfolding pour contains
contains-pour_seen key [] seen h = h
contains-pour_seen key (k ∷ rest) seen h = contains-pour_seen key rest (k ∷ seen) (ground arith)

contains-pour_last :
    (key : String) (lines seen : List String) → contains key (pour (lines ++ key ∷ []) seen) ≡ true
unfolding pour contains
contains-pour_last key [] seen = ground (arith, eq_refl key)
contains-pour_last key (k ∷ rest) seen = contains-pour_last key rest (k ∷ seen)

-- The store that a restart reads from these lines, known keys first.
abbrev pub reloaded : List String → Store
unfolding pour keys
reloaded lines = record { seen = pour lines []; lines = some (keys (map some lines)) }

load-reloaded :
    (lines : List String) → IsReadable lines → load (map some lines) ≡ some (reloaded lines)
unfolding load pour keys
load-reloaded lines h = rw (load_from-map lines [] h, load)

claim_fresh_lines :
    (durable : Bool) (key : String) (s : Store) (lines : List String)
    → s.lines ≡ some lines
    → (claim durable key s).0 ≡ fresh
    → (claim durable key s).1.lines ≡ some (lines ++ key ∷ [])
unfolding claim
claim_fresh_lines durable key s lines there h =
    ground (arith, ap (λ (l : Option (List String)). one_more l key) there)

claim-reloaded :
    (again : Bool) (key : String) (lines : List String)
    → contains key (pour lines []) ≡ true
    → (claim again key (reloaded lines)).0 ≡ duplicate
unfolding claim pour keys
claim-reloaded again key lines h = rw h

-- While no write has failed, a claim that was granted is written: after a restart from the lines of
-- a readable file, the file is accepted, and a new claim of that key is refused as a duplicate
-- whatever the disk does.
pub claim_survives_restart :
    (durable again : Bool) (key : String) (s : Store) (lines : List String)
    → s.lines ≡ some lines
    → IsReadable lines
    → str_eq key "" ≡ false
    → (claim durable key s).0 ≡ fresh
    → (file : List String) × ((claim durable key s).1.lines ≡ some file)
      × (t : Store) × (load (map some file) ≡ some t)
      × ((claim again key t).0 ≡ duplicate)
claim_survives_restart durable again key s lines there readable filled granted = (
  lines ++ key ∷ [],
  claim_fresh_lines durable key s lines there granted,
  reloaded (lines ++ key ∷ []),
  load-reloaded (lines ++ key ∷ []) (IsReadable-append lines key readable filled),
  claim-reloaded again key (lines ++ key ∷ []) (contains-pour_last key lines []),
)
