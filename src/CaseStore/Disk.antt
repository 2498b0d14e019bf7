-- ===== src/CaseStore/Disk.antt =====
-- The files of a case: orchestrator/artifacts/yaml_io.py, and what a path reaches.
-- What is not in the repository is an argument: YAML with pydantic's validation, and the operating
-- system, which follows a path whose name has a '/'. Names are told apart by their characters.
use Prim.Native.String.{◌++◌}
use agent_advisor.Prelude.{
  Bool, not, ◌&&◌, ◌||◌, Option, none, some, Result, ok, err, String, if◌then◌else◌, ◌==◌ as num_eq,
}
use agent_advisor.Prelude.Text.{◌==◌, all_codes}
use agent_advisor.Prelude.Dict.{Dict, lookup, insert}
use agent_advisor.CaseStore.{
  Kind, Folder, FilePath, StoreError, Model, same_folder, not_valid, not_writable,
}

-- The text of each file of a case, by folder and name; and the files outside these folders, by their
-- absolute paths.
pub record Case : Type 0 where
  pub files : Folder → Dict String
  pub elsewhere : Dict String

-- What a path reaches.
pub data Place : Type 0 where
  inside : FilePath → Place
  outside : String → Place
  nowhere : Place

-- `resolve` is the operating system's way through a path whose name has a '/', where ".." goes up; it
-- does not change, as a write makes the folders that are missing.
-- `yaml_dump` is yaml.dump of the model's model_dump; `parse` is yaml.safe_load and the model_validate
-- of a type, which raise or give an artifact of that type.
pub record Platform (C : Type 0) : Type 0 where
  pub resolve : FilePath → Place
  pub yaml_dump : Model C → String
  pub parse : Kind → String → Option (Model C)

-- Not '/', which ends a folder's name, and not the null character, which no path has.
unfoldable pub is_plain : String → Bool
unfolding all_codes
is_plain name = all_codes (λ c. not (num_eq c b'/') && not (num_eq c 0)) name

-- The file of that name in that folder.
abbrev pub fetch : FilePath → Case → Option String
fetch path c = lookup path.name (c.files path.folder)

abbrev pub put : FilePath → String → Case → Case
put path text c = record c {
  files = λ f. if same_folder f path.folder then insert path.name text (c.files f) else c.files f;
}

-- s.endswith(suffix)
unfoldable pub ends_with : (suffix s : String) → Bool
ends_with suffix String.[] = String.[] == suffix
ends_with suffix (String.◌∷◌ c s) = String.◌∷◌ c s == suffix || ends_with suffix s

module _ {C : Type 0} (platform : Platform C) where
  open platform use {resolve, yaml_dump, parse}

  unfoldable pub locate : FilePath → Place
  locate path = if is_plain path.name then inside path else resolve path

  -- path.exists(), and path.read_text()
  unfoldable pub read_text : FilePath → Case → Option String
  unfolding locate
  read_text path c = elim (locate path) [
    | inside place ↦ fetch place c
    | outside name ↦ lookup name c.elsewhere
    | nowhere ↦ none
  ]

  -- atomic_write_text
  unfoldable pub write_text : FilePath → String → Case → Result StoreError Case
  unfolding locate
  write_text path text c = elim (locate path) [
    | inside place ↦ ok (put place text c)
    | outside name ↦ ok (record c { elsewhere = insert name text c.elsewhere })
    | nowhere ↦ err (not_writable path)
  ]

  unfoldable pub load_model_from_yaml_text : Kind → String → Result StoreError (Model C)
  load_model_from_yaml_text kind text = elim (parse kind text) [
    | none ↦ err (not_valid kind)
    | some m ↦ ok m
  ]

  unfoldable pub dump_model_to_yaml_text : Model C → String
  unfolding ends_with
  dump_model_to_yaml_text m =
      let dumped = yaml_dump m in if ends_with "\n" dumped then dumped else dumped ++ "\n"
