-- ===== src/CaseStore/Samples.antt =====
-- The theorems about a case's files at concrete inputs, and tests.
use agent_advisor.Prelude.{
  IsDistinct, ℕ, Option, none, some, [], ◌∷◌, ok, err, ◌≡◌, ◌≢◌, refl, String,
}
use agent_advisor.Prelude.Dict.{Dict, lookup, insert, mem}
use agent_advisor.Prelude.Sort as Sort
use agent_advisor.Prelude.Decimal.{padded, numeral}
use agent_advisor.CaseStore.{
  Kind, FilePath, Model, at, path_for_write, path_for_read, safe_stem, evidence_record,
  thesis_revision, gate_report, task_record, tasks, evidence, thesis, id_required,
}
use Prim.Native.String.{◌++◌}
use agent_advisor.Prelude.{true, if◌then◌else◌}
use agent_advisor.Prelude.Text.{◌==◌, all_codes}
use agent_advisor.CaseStore.Slots.{id_of}
use agent_advisor.CaseStore.Disk.{
  Case, Platform, inside, nowhere, is_plain, put, locate, read_text, write_text, ends_with,
  dump_model_to_yaml_text,
}
use agent_advisor.CaseStore.Files.{write_artifact, read_artifact}
use agent_advisor.CaseStore.RoundTrip.{read_artifact-write}
use agent_advisor.CaseStore.Counters.{next_id, issue, loaded_counters}
use agent_advisor.CaseStore.Counters.Fresh.{issue-IsDistinct}

abbrev as_is : String → String
as_is s = s

stem : safe_stem as_is " pre mortem?! " ≡ ok "pre-mortem"
unfolding safe_stem
stem = refl

seventh : path_for_write as_is thesis_revision "" 7 ≡ ok (at thesis "thesis-007.yaml")
unfolding path_for_write
seventh = refl

needs_id : path_for_read as_is gate_report none ≡ err id_required
unfolding path_for_read
needs_id = refl

-- The record that the sample's files hold; texts start with its id.
abbrev first_record : Model ℕ
first_record = record { kind = evidence_record; label = "E-001"; revision = 0; content = 5 }

-- ".." is followed for the one path that is looked at here.
abbrev climbing : FilePath
climbing = at tasks "../evidence/E-001.yaml"

sample : Platform ℕ
sample = record {
  resolve = λ path.
      if path.name == "../evidence/E-001.yaml" then inside (at evidence "E-001.yaml") else nowhere;
  yaml_dump = λ m. "id: " ++ m.label;
  parse = λ k text. if text == "id: E-001\n" then some (record first_record { kind = k }) else none;
}

abbrev empty : Case
empty = record { files = λ f. []; elsewhere = [] }

abbrev first_path : FilePath
first_path = at evidence "E-001.yaml"

abbrev one_file : Case
one_file = put first_path "id: E-001\n" empty

first_written : write_artifact as_is sample first_record empty ≡ ok (first_path, one_file)
unfolding write_artifact path_for_write write_text locate is_plain all_codes dump_model_to_yaml_text
    ends_with sample
first_written = refl

first_plain : is_plain "E-001.yaml" ≡ true
unfolding is_plain all_codes
first_plain = refl

first_lossless :
    sample.parse evidence_record (dump_model_to_yaml_text sample first_record) ≡ some first_record
unfolding dump_model_to_yaml_text ends_with sample
first_lossless = refl

-- A task's id with ".." reaches the evidence: its text is then loaded as a task.
climbed :
    (path_for_read as_is task_record (some "../evidence/E-001") ≡ ok climbing)
    × (read_text sample climbing empty ≡ none)
    × (read_text sample climbing one_file ≡ some "id: E-001\n")
unfolding path_for_read read_text locate is_plain all_codes lookup insert sample
climbed = (refl, refl, refl)

read_artifact-write_example :
    (read_artifact as_is sample evidence_record (some "E-001") one_file ≡ ok first_record)
    × ((k : Kind) (id : Option String) (q : FilePath)
        → k ≢ evidence_record
        → path_for_read as_is k id ≡ ok q
        → is_plain q.name ≡ true
        → read_artifact as_is sample k id one_file ≡ read_artifact as_is sample k id empty)
    × ((label : String) (revision : ℕ) (q : FilePath)
        → path_for_write as_is evidence_record label revision ≡ ok q
        → is_plain q.name ≡ true
        → evidence_record ≢ gate_report
        → id_of evidence_record label revision ≢ some "E-001"
        → read_artifact as_is sample evidence_record (id_of evidence_record label revision) one_file
          ≡ read_artifact as_is sample evidence_record (id_of evidence_record label revision) empty)
read_artifact-write_example =
    read_artifact-write as_is sample first_record empty one_file first_path first_plain
      first_lossless first_written

issued :
    (last : Dict ℕ) × (issue ("E-" ∷ "A-" ∷ "E-" ∷ []) []
      ≡ ok ("E-001" ∷ "A-001" ∷ "E-002" ∷ [], last))
unfolding issue next_id loaded_counters lookup insert mem padded numeral
issued = (_, refl)

issue-IsDistinct_example : IsDistinct {A = String} ("E-001" ∷ "A-001" ∷ "E-002" ∷ [])
issue-IsDistinct_example =
    issue-IsDistinct ("E-" ∷ "A-" ∷ "E-" ∷ []) ("E-001" ∷ "A-001" ∷ "E-002" ∷ []) [] issued.0
      issued.1
