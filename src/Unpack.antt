-- ===== src/Unpack.antt =====
-- orchestrator/unpack.py: the records of a batch get ids of the case and files of their own, once.
-- A marker file is its record; `P` is what a record holds beside its references to evidence.
pub mod Flavours
pub mod Once
mod Samples
use agent_advisor.Prelude.{
  ℕ, Bool, true, false, not, Option, none, some, List, [], ◌∷◌, ◌++◌, map, filter, length, Result,
  ok, err, ◌>>=◌, String,
}
use agent_advisor.Prelude.Dict.{Dict, lookup, insert, mem, sorted_set}
use agent_advisor.CaseStore.{
  Kind, StoreError, Model, evidence_record, assumption_record, objection_record, evidence_batch,
  assumption_batch, objection_batch,
}
use agent_advisor.CaseStore.Disk.{Case, Platform}
use agent_advisor.CaseStore.Files.{write_artifact, read_artifact, list_artifacts}
use agent_advisor.CaseStore.Counters.{next_id}

-- Evidence and objections are plain; an assumption has the evidence for and against it.
pub data Content (P : Type 0) : Type 0 where
  plain : P → Content P
  assumed : (evidence_for evidence_against : List String) → P → Content P

pub record Marker : Type 0 where
  pub artifact_type : Kind
  pub record_ids : List String

pub data Event : Type 0 where
  skipped_duplicate : (task_id : String) → Kind → List String → Event
  batch_unpacked :
      Kind
      → (record_count : ℕ)
      → (id_mapping : List (String × String)) (dropped_references : List String) → Event

pub record Blackboard (P : Type 0) : Type 0 where
  pub case : Case
  pub counters : Dict ℕ
  pub markers : Dict Marker
  pub trail : List Event

-- What the three functions differ in.
pub record Flavour : Type 0 where
  pub batch : Kind
  pub kind : Kind
  pub prefix : String

abbrev pub evidence_flavour : Flavour
evidence_flavour = record { batch = evidence_batch; kind = evidence_record; prefix = "E-" }

abbrev pub assumption_flavour : Flavour
assumption_flavour = record { batch = assumption_batch; kind = assumption_record; prefix = "A-" }

abbrev pub objection_flavour : Flavour
objection_flavour = record { batch = objection_batch; kind = objection_record; prefix = "O-" }

module _ {P : Type 0} where
  -- The references that resolve, and those that do not.
  unfoldable pub resolved : (known : List String) → Content P → Content P
  unfolding mem
  resolved known (plain p) = plain p
  resolved known (assumed for against p) =
      assumed (filter (λ id. mem id known) for) (filter (λ id. mem id known) against) p

  unfoldable pub dropped : (known : List String) → List (String × Content P) → List String
  unfolding mem
  dropped known [] = []
  dropped known ((_, plain p) ∷ records) = dropped known records
  dropped known ((_, assumed for against p) ∷ records) =
      filter (λ id. not (mem id known)) (for ++ against) ++ dropped known records

  -- _read_marker, where there is a task id
  abbrev pub marker_of : Option String → Blackboard P → Option Marker
  marker_of none b = none
  marker_of (some id) b = lookup id b.markers

  abbrev pub log : Event → Blackboard P → Blackboard P
  log event b = record b { trail = b.trail ++ event ∷ [] }

  -- _write_marker, where there is a task id
  abbrev pub mark : Option String → Marker → Blackboard P → Blackboard P
  mark none marker b = b
  mark (some id) marker b = record b { markers = insert id marker b.markers }

  abbrev pub labels : List (Model (Content P)) → List String
  labels ms = map (λ m. m.label) ms

  abbrev pub id_mapping :
      List (String × Content P) → List (Model (Content P)) → List (String × String)
  id_mapping [] ms = []
  id_mapping (_ ∷ _) [] = []
  id_mapping ((original, _) ∷ records) (m ∷ ms) = (original, m.label) ∷ id_mapping records ms

abbrev pub name_of : Option String → String
name_of none = ""
name_of (some id) = id

abbrev pub Unpacked : Type 0 → Type 0
Unpacked P = Result StoreError (Blackboard P × List (Model (Content P)))

module _ (lower : String → String) {P : Type 0} (platform : Platform (Content P)) where
  -- The records of a batch, each with the id that its author gave it.
  unfoldable pub unpack_each :
      Flavour → (Content P → Content P) → List (String × Content P) → Blackboard P → Unpacked P
  unfolding next_id write_artifact
  unpack_each f fix [] b = ok (b, [])
  unpack_each f fix ((_, content) ∷ records) b =
      let rest = λ (b' : Blackboard P). unpack_each f fix records b' in
      next_id f.prefix b.counters >>= λ (id, counters).
      let rewritten : Model (Content P) = record {
        kind = f.kind;
        label = id;
        revision = 0;
        content = fix content;
      } in
      write_artifact lower platform rewritten b.case >>= λ (_, case).
      rest (record b { case = case; counters = counters }) >>= λ (last, unpacked).
      ok (last, rewritten ∷ unpacked)

  -- [case.read_artifact(kind, rid) for rid in record_ids]
  unfoldable pub read_each :
      Kind → List String → Case → Result StoreError (List (Model (Content P)))
  unfolding read_artifact
  read_each kind [] c = ok []
  read_each kind (id ∷ ids) c =
      let rest = read_each kind ids c in
      read_artifact lower platform kind (some id) c >>= λ m. rest >>= λ ms. ok (m ∷ ms)

  -- For evidence and objections `known` is not looked at.
  unfoldable pub unpack :
      Flavour
      → Option String
      → (known : List String) → List (String × Content P)
      → Blackboard P
      → Unpacked P
  unfolding unpack_each read_each resolved dropped
  unpack f task_id known records b = elim (marker_of task_id b) [
    | some marker ↦ read_each f.kind marker.record_ids b.case >>= λ existing.
        ok (log (skipped_duplicate (name_of task_id) f.batch marker.record_ids) b, existing)
    | none ↦ unpack_each f (resolved known) records b >>= λ (b', unpacked).
        let marker : Marker = record { artifact_type = f.batch; record_ids = labels unpacked } in
        let event =
          batch_unpacked f.batch (length unpacked) (id_mapping records unpacked)
            (sorted_set (dropped known records)) in
        ok (log event (mark task_id marker b'), unpacked)
  ]

  unfoldable pub unpack_evidence_batch :
      (task_id : String) → List (String × Content P) → Blackboard P → Unpacked P
  unfolding unpack
  unpack_evidence_batch task_id records b = unpack evidence_flavour (some task_id) [] records b

  unfoldable pub unpack_objection_batch :
      (task_id : Option String) → List (String × Content P) → Blackboard P → Unpacked P
  unfolding unpack
  unpack_objection_batch task_id records b = unpack objection_flavour task_id [] records b

  -- The evidence that is there is listed for the references to be looked up in.
  unfoldable pub unpack_assumption_batch :
      (task_id : Option String) → List (String × Content P) → Blackboard P → Unpacked P
  unfolding unpack list_artifacts
  unpack_assumption_batch task_id records b = elim (marker_of task_id b) [
    | some _ ↦ unpack assumption_flavour task_id [] records b
    | none ↦ list_artifacts platform evidence_record b.case >>= λ evidence.
        unpack assumption_flavour task_id (labels evidence) records b
  ]
