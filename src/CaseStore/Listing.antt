-- ===== src/CaseStore/Listing.antt =====
-- `list_artifacts` finds the artifacts of its type, and no others.
use Prim.Native.String.{String}
use agent_advisor.Prelude.{some, List, ok, ◌≡◌, ◌↔◌, In}
use agent_advisor.CaseStore.{Kind, FilePath, Model, path_for_write}
use agent_advisor.CaseStore.Disk.{Case, Platform, fetch, dump_model_to_yaml_text}

module _ (lower : String → String) {C : Type 0} (platform : Platform C) where
  -- The file of `a`, which is of the type, has that text.
  abbrev HasText : Case → Kind → String → Type 0
  HasText c k text =
      (a : Model C) × (a.kind ≡ k)
      × (text ≡ dump_model_to_yaml_text platform a)
      × ((path : FilePath) × (path_for_write lower a.kind a.label a.revision ≡ ok path)
          × (fetch path c ≡ some text))

  -- `m` is loaded from the file of an artifact of the type, which has the text written for it.
  abbrev pub IsStored : Case → Kind → Model C → Type 0
  IsStored c k m =
      (a : Model C) × (a.kind ≡ k)
      × (platform.parse k (dump_model_to_yaml_text platform a) ≡ some m)
      × ((path : FilePath) × (path_for_write lower a.kind a.label a.revision ≡ ok path)
          × (fetch path c ≡ some (dump_model_to_yaml_text platform a)))

  abbrev Lists : Case → Kind → List String → Type 0
  Lists c k texts = (text : String) → In text texts ↔ HasText c k text
