-- ===== src/Config/Tests.antt =====
-- A library over one file, and lookups in it.
use kudos_judge.Base.{
  ◌≡◌, refl, Option, none, some, List, [], ◌∷◌, Bytes, if◌then◌else◌, ok, same_text, store,
}
use kudos_judge.Config.Once.{entries, read_from, get_section-entries}
use kudos_judge.Config.{KeyVal, Section, Library, unloaded, config_path, get_section}
use kudos_judge.Verdict.{codes}

value_in : Bytes → List KeyVal → Option Bytes
unfolding same_text
value_in key [] = none
value_in key (k ∷ ks) =
    let more = value_in key ks in if same_text key k.key then some k.value else more

first_value : List Section → Bytes → Bytes → Option Bytes
unfolding value_in same_text
first_value [] section key = none
first_value (s ∷ ss) section key =
    let more = first_value ss section key in
    let found = value_in key s.configs in
    if same_text section s.name then elim found [ none ↦ more | some v ↦ some v ] else more

abbrev sections : List Section
sections =
    record {
      name = codes "Queue";
      configs = record { key = codes "num_worker_threads"; value = codes "4" } ∷ [];
    }
    ∷ record {
      name = codes "Executer";
      configs = record { key = codes "use_ERFS"; value = codes "0" } ∷ [];
    }
    ∷ []

abbrev library : Library
library = record { read_ini = λ path. sections; get_value = first_value }

abbrev root : Option Bytes
root = some (codes "/opt/kudosJudge")

abbrev path : Bytes
path = codes "/opt/kudosJudge/etc/config.ini"

get_section-entries_example :
    (get_section library root (codes "Queue") unloaded
      ≡ ok (entries (codes "Queue") sections, read_from library path))
    × (get_section library root (codes "Queue") (read_from library path)
        ≡ ok (entries (codes "Queue") sections, read_from library path))
unfolding config_path store
get_section-entries_example = get_section-entries library root (codes "Queue") path refl
