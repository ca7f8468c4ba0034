-- ===== src/Config/Once.antt =====
-- What the lookups answer from.
use kudos_judge.Base.{
  ◌≡◌, refl, sym, ap, ◌∙◌, true, Option, some, List, [], ◌∷◌, ◌++◌, append-nil, append_assoc, Bytes,
  ok, >>=-eq-ok, ok_cancel, inl, inr, same_text, map, flatten, Bool-cases, if◌then◌else◌,
}
use kudos_judge.Config.{
  KeyVal, Section, Library, Config, unloaded, ini_load, ini_get_string, config_path, local_ini,
  get_config, push_configs, sections_loop, get_section,
}

-- What a file is, once it was read.
abbrev pub read_from : Library → Bytes → Config
read_from lib path = record { loaded = true; iniparser = some (lib.read_ini path) }

module _ (lib : Library) (path : Bytes) where
  pub get_config-read_from :
      (root : Option Bytes) (section key : Bytes)
      → get_config lib root section key (read_from lib path)
        ≡ ok (lib.get_value (lib.read_ini path) section key, read_from lib path)
  unfolding get_config local_ini ini_get_string
  get_config-read_from root section key = refl

  get_config-unloaded :
      (root : Option Bytes) (section key : Bytes)
      → config_path root ≡ ok path
      → get_config lib root section key unloaded
        ≡ ok (lib.get_value (lib.read_ini path) section key, read_from lib path)
  unfolding get_config local_ini ini_get_string ini_load
  get_config-unloaded root section key at = rw at refl

get_config-config_path :
    (lib : Library) (root : Option Bytes) (section key : Bytes) (v : Option Bytes) (c : Config)
    → get_config lib root section key unloaded ≡ ok (v, c)
    → (path : Bytes) × (config_path root ≡ ok path)
unfolding get_config local_ini
get_config-config_path lib root section key v c e =
    let (local, found, _) = >>=-eq-ok (local_ini lib root unloaded) _ e in
    let (path, at, _) = >>=-eq-ok (config_path root) _ found in (path, at)

module _ (lib : Library) (root : Option Bytes) (section key : Bytes) (v : Option Bytes)
    (c : Config) where
  -- The first lookup reads the file of JUG_ROOT and answers from it; a lookup of any key behind it
  -- answers from the same file, whatever JUG_ROOT is then.
  pub get_config-once :
      (root' : Option Bytes) (section' key' : Bytes)
      → get_config lib root section key unloaded ≡ ok (v, c)
      → (path : Bytes) × (config_path root ≡ ok path)
        × (v ≡ lib.get_value (lib.read_ini path) section key)
        × (get_config lib root' section' key' c
            ≡ ok (lib.get_value (lib.read_ini path) section' key', c))
  get_config-once root' section' key' e =
      let (path, at) = get_config-config_path lib root section key v c e in
      let same = ok_cancel (sym e ∙ get_config-unloaded lib path root section key at) in
      let read : c ≡ read_from lib path = ap (λ (x : Option Bytes × Config). x.1) same in
      (
        path,
        at,
        ap (λ (x : Option Bytes × Config). x.0) same,
        rw read (get_config-read_from lib path root' section' key'),
      )

-- The sections of a name.
abbrev pub named : Bytes → List Section → List Section
named section [] = []
named section (s ∷ ss) =
    let more = named section ss in if same_text section s.name then s ∷ more else more

-- All their entries.
abbrev pub entries : Bytes → List Section → List KeyVal
entries section ss = flatten (map (λ (s : Section). s.configs) (named section ss))

push_configs-append : (kv ks : List KeyVal) → push_configs kv ks ≡ kv ++ ks
unfolding push_configs
push_configs-append kv [] = sym (append-nil kv)
push_configs-append kv (k ∷ ks) =
    push_configs-append (kv ++ (k ∷ [])) ks ∙ append_assoc kv (k ∷ []) ks

sections_loop-named :
    (section : Bytes) (kv : List KeyVal) (ss : List Section)
    → sections_loop section kv ss ≡ kv ++ entries section ss
unfolding sections_loop
sections_loop-named section kv [] = sym (append-nil kv)
sections_loop-named section kv (s ∷ ss) = elim (Bool-cases (same_text section s.name)) [
  | inl same ↦
      rw
        (
          same,
          sections_loop-named section (push_configs kv s.configs) ss,
          push_configs-append kv s.configs,
        )
        (append_assoc kv s.configs (entries section ss))
  | inr other ↦ rw other (sections_loop-named section kv ss)
]

-- Where the path fits its array, the list that jug_ini_get_section makes, at the first lookup and
-- behind it, is the entries of all sections of that name in the order of the file.
pub get_section-entries :
    (lib : Library) (root : Option Bytes) (section path : Bytes)
    → config_path root ≡ ok path
    → (get_section lib root section unloaded
        ≡ ok (entries section (lib.read_ini path), read_from lib path))
      × (get_section lib root section (read_from lib path)
          ≡ ok (entries section (lib.read_ini path), read_from lib path))
unfolding get_section local_ini ini_load
get_section-entries lib root section path at =
    let all = sections_loop-named section [] (lib.read_ini path) in (rw (at, all) refl, rw all refl)
