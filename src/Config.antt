-- ===== src/Config.antt =====
-- config.c: the configuration file, read by the library iniparser/.
pub mod Once
mod Tests
use kudos_judge.Base.{
  Bool, true, false, Option, none, some, List, [], ◌∷◌, ◌++◌, Bytes, if◌then◌else◌, Result, ok,
  fault, ◌>>=◌, same_text, store,
}
use kudos_judge.Verdict.{codes}

-- `jug_ini_keyval` without its link, and `struct config` of the library.
pub record KeyVal : Type 0 where
  pub key : Bytes
  pub value : Bytes

pub record Section : Type 0 where
  pub name : Bytes
  pub configs : List KeyVal

-- The library: `read_ini` and `ini_get_value`.
pub record Library : Type 0 where
  pub read_ini : Bytes → List Section
  pub get_value : List Section → Bytes → Bytes → Option Bytes

-- `loaded` and `singleton_ini`, whose pointer is NULL at first.
pub record Config : Type 0 where
  pub loaded : Bool
  pub iniparser : Option (List Section)

abbrev pub unloaded : Config
unloaded = record { loaded = false; iniparser = none }

-- The singleton, or NULL.
unfoldable pub ini_load : Library → Option Bytes → Config → Option Config
ini_load lib filename c = if c.loaded then some c else elim filename [
  | none ↦ none
  | some path ↦ some (record { loaded = true; iniparser = some (lib.read_ini path) })
]

unfoldable pub ini_get_string : Library → Config → Bytes → Bytes → Result (Option Bytes)
ini_get_string lib c section key =
    if c.loaded
    then elim c.iniparser [ none ↦ fault | some ini ↦ ok (lib.get_value ini section key) ]
    else ok none

-- JUG_ROOT and the path behind it, in an array of 250.
unfoldable pub config_path : Option Bytes → Result Bytes
unfolding store
config_path none = fault
config_path (some root) = store 250 (root ++ codes "/etc/config.ini")

unfoldable pub local_ini : Library → Option Bytes → Config → Result (Option Config)
unfolding ini_load config_path
local_ini lib root c =
    if c.loaded then ok (some c) else (do path ← config_path root; ok (ini_load lib (some path) c))

-- `jug_get_config`, with the environment's JUG_ROOT.
unfoldable pub get_config :
    Library → Option Bytes → Bytes → Bytes → Config → Result (Option Bytes × Config)
unfolding local_ini ini_get_string
get_config lib root section key c = do
  local ← local_ini lib root c
  elim local [
    | none ↦ ok (none, c)
    | some ini ↦ (do value ← ini_get_string lib ini section key; ok (value, ini))
  ]

-- One section's entries go behind the last.
unfoldable pub push_configs : List KeyVal → List KeyVal → List KeyVal
push_configs kv [] = kv
push_configs kv (k ∷ ks) = push_configs (kv ++ (k ∷ [])) ks

unfoldable pub sections_loop : Bytes → List KeyVal → List Section → List KeyVal
unfolding push_configs same_text
sections_loop section kv [] = kv
sections_loop section kv (s ∷ ss) =
    let taken = sections_loop section (push_configs kv s.configs) ss in
    let passed = sections_loop section kv ss in if same_text section s.name then taken else passed

-- `jug_ini_get_section`; NULL is the empty list.
unfoldable pub get_section : Library → Option Bytes → Bytes → Config → Result (List KeyVal × Config)
unfolding local_ini sections_loop
get_section lib root section c = do
  local ← local_ini lib root c
  elim local [
    | none ↦ ok ([], c)
    | some ini ↦ elim ini.iniparser [
      | none ↦ fault
      | some sections ↦ ok (sections_loop section [] sections, ini)
    ]
  ]
