-- ===== src/Motor/Compliance/Config.antt =====
-- compliance.py: `ComplianceConfig.from_env`, and the gates that it builds.
use agentic_fintech_ecosyste.Prelude.{
  String, Bool, true, Option, none, some, List, [], ◌∷◌, ◌≡◌, arith, str_eq, is_blank, strip,
  contains, ◌&&◌, ◌||◌, if◌then◌else◌,
}
use agentic_fintech_ecosyste.Sharp.Json.{Library, Json, text, object, Members, no_members, member}
use agentic_fintech_ecosyste.Motor.Compliance.{ComplianceGates, is_some}

pub record ComplianceConfig : Type 0 where
  pub manifest_dir : Option String
  pub strategy_map_file : Option String
  pub allow_canary : Bool
  pub audit_actor : String

abbrev or_empty : Option String → String
or_empty none = ""
or_empty (some s) = s

abbrev actor : Option String → String
actor none = "execution-motor"
actor (some s) = if str_eq (strip s) "" then "execution-motor" else strip s

module _ (lower : String → String) (env : String → Option String) where
  abbrev pub value : String → String
  value name = strip (or_empty (env name))

  abbrev pub is_on : String → Bool
  is_on name = contains (lower (value name)) ("1" ∷ "true" ∷ "yes" ∷ [])

  -- `None if off else _required_path(env, name)`; the outer `none` is the `ConfigError`.
  unfoldable pub path_unless : Bool → String → Option (Option String)
  path_unless off name =
      if off then some none else if str_eq (value name) "" then none else some (some (value name))

  -- `ComplianceConfig.from_env`; `none` is the `ConfigError`.
  unfoldable pub from_env : Bool → Option ComplianceConfig
  from_env production =
      if production && (is_on "MOTOR_MANIFEST_DISABLED" || is_on "MOTOR_SHARP_DISABLED")
      then none
      else elim (path_unless (is_on "MOTOR_MANIFEST_DISABLED") "MOTOR_MANIFEST_DIR") [
        | none ↦ none
        | some dir ↦ elim (path_unless (is_on "MOTOR_SHARP_DISABLED") "MOTOR_SHARP_STRATEGY_MAP") [
          | none ↦ none
          | some file ↦ some (record {
            manifest_dir = dir;
            strategy_map_file = file;
            allow_canary = is_on "MOTOR_SHARP_ALLOW_CANARY";
            audit_actor = actor (env "MOTOR_AUDIT_ACTOR");
          })
        ]
      ]

strategy_entries : Members → Option (List (String × String))
strategy_entries no_members = some []
strategy_entries (member key (text v) rest) =
    if is_blank key || is_blank v
    then none
    else elim (strategy_entries rest) [ none ↦ none | some more ↦ some ((key, v) ∷ more) ]
strategy_entries (member key _ rest) = none

-- `load_strategy_map`, of the parsed file, which is missing where it cannot be read or parsed;
-- `none` is the `ConfigError`.
unfoldable pub load_strategy_map : Option Json → Option (List (String × String))
unfolding strategy_entries
load_strategy_map (some (object no_members)) = none
load_strategy_map (some (object (member k v rest))) = strategy_entries (member k v rest)
load_strategy_map _ = none

-- The state names of `build_compliance`.
abbrev pub allowed_states : Bool → List String
allowed_states allow_canary = if allow_canary then "PROMOTED" ∷ "CANARY" ∷ [] else "PROMOTED" ∷ []

-- `build_compliance`, with the strategy map as it was read.
unfoldable pub build_compliance :
    Library → List (String × String) → ComplianceConfig → ComplianceGates
build_compliance lib strategies cfg = record {
  manifest = is_some cfg.manifest_dir;
  strategy_gate = elim cfg.strategy_map_file [
    | none ↦ none
    | some file ↦ some (record {
      library = lib;
      strategies = strategies;
      allowed_states = allowed_states cfg.allow_canary;
    })
  ];
}

-- In production the configuration has a directory for manifests and a strategy map.
pub from_env_production :
    (lower : String → String) (env : String → Option String) (cfg : ComplianceConfig)
    → from_env lower env true ≡ some cfg
    → (is_some cfg.manifest_dir ≡ true) × (is_some cfg.strategy_map_file ≡ true)
unfolding from_env path_unless
from_env_production lower env cfg h = (ground arith, ground arith)
