-- ===== src/Unpack/Samples.antt =====
-- The theorem about unpacking at a concrete input, and tests.
use Prim.Native.String.{◌++◌}
use Prim.Native.Char.{Char, code}
use agent_advisor.Prelude.Text.{is_nil, all_codes}
use agent_advisor.CaseStore.Disk.{Platform, nowhere, write_text, locate, is_plain}
use agent_advisor.Prelude.{
  Option, some, if◌then◌else◌, ◌==◌ as num_eq, ℕ, none, some, List, [], ◌∷◌, ok, ◌≡◌, refl, String,
}
use agent_advisor.Prelude.Dict.{lookup, insert, mem}
use agent_advisor.Prelude.Decimal.{padded, numeral}
use agent_advisor.CaseStore.{Model, path_for_write, evidence_record}
use agent_advisor.CaseStore.Files.{write_artifact}
use agent_advisor.CaseStore.Counters.{next_id, loaded_counters}
use agent_advisor.Unpack.{
  Content, plain, assumed, Blackboard, evidence_flavour, unpack, unpack_each, labels, resolved,
}

abbrev as_is : String → String
as_is s = s

-- A file for the sample's records: what the record holds, 4 or 5, then its id.
drop_last : String → String
drop_last String.[] = String.[]
drop_last (String.◌∷◌ c s) =
    let rest = drop_last s in if is_nil s then String.[] else String.◌∷◌ c rest

mark_of : Content ℕ → Char
mark_of (plain p) = if num_eq p 4 then "4" else "5"
mark_of (assumed for against p) = "6"

evidence_from : Char → String → Model (Content ℕ)
evidence_from c id = record {
  kind = evidence_record;
  label = id;
  revision = 0;
  content = if num_eq (code c) b'4' then plain 4 else plain 5;
}

parse_evidence : String → Option (Model (Content ℕ))
parse_evidence String.[] = none
parse_evidence (String.◌∷◌ c s) = some (evidence_from c (drop_last s))

codec : Platform (Content ℕ)
codec = record {
  resolve = λ path. nowhere;
  yaml_dump = λ m. String.◌∷◌ (mark_of m.content) (m.label ++ "\n");
  parse = λ k text. parse_evidence text;
}

abbrev stored : ℕ → String → Model (Content ℕ)
stored p id = record { kind = evidence_record; label = id; revision = 0; content = plain p }

abbrev two_records : List (String × Content ℕ)
two_records = ("E-1", plain 4) ∷ ("E-2", plain 5) ∷ []

abbrev empty : Blackboard ℕ
empty = record {
  case = record { files = λ f. []; elsewhere = [] };
  counters = [];
  markers = [];
  trail = [];
}

-- A reference that does not resolve is dropped.
one_known :
    resolved {P = ℕ} ("E-001" ∷ []) (assumed ("E-001" ∷ "E-009" ∷ []) [] 3)
    ≡ assumed ("E-001" ∷ []) [] 3
unfolding resolved mem
one_known = refl

minted :
    (last : Blackboard ℕ) × (ms : List (Model (Content ℕ))) × (unpack as_is codec evidence_flavour
        (some "T-1")
        []
        two_records
        empty
      ≡ ok (last, ms))
    × (labels ms ≡ "E-001" ∷ "E-002" ∷ [])
unfolding unpack unpack_each next_id loaded_counters write_artifact write_text locate is_plain
    all_codes path_for_write lookup insert mem padded numeral resolved
minted = (_, _, refl, refl)
