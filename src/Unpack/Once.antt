-- ===== src/Unpack/Once.antt =====
-- A batch is unpacked once: its records can be read back, and what was there stays.
use Prim.Native.String.{◌++◌}
use agent_advisor.Prelude.{ℕ, ◌≤◌, true, some, List, map, ok, ◌≡◌, ◌≢◌, String}
use agent_advisor.Prelude.Dict.{get_or}
use agent_advisor.Prelude.Decimal.{padded}
use agent_advisor.CaseStore.{Model}
use agent_advisor.CaseStore.Disk.{Case, Platform, is_plain, dump_model_to_yaml_text}
use agent_advisor.CaseStore.Files.{read_artifact}
use agent_advisor.Unpack.{Content, Blackboard, Flavour, read_each, labels}
use agent_advisor.Unpack.Flavours.{IsFlavour}

abbrev stored : {P : Type 0} → Flavour → (id : String) → Content P → Model (Content P)
stored f id content = record { kind = f.kind; label = id; revision = 0; content = content }

-- What is written for a record of the flavour, under any id that the counter can give, is loaded as
-- that record.
abbrev pub IsLossless : {P : Type 0} → Platform (Content P) → Flavour → Content P → Type 0
IsLossless platform f content =
    (n : ℕ)
    → platform.parse f.kind
        (dump_model_to_yaml_text platform (stored f (f.prefix ++ padded n) content))
      ≡ some (stored f (f.prefix ++ padded n) content)

module _ (lower : String → String) {P : Type 0} (platform : Platform (Content P)) (f : Flavour)
    (flavour : IsFlavour lower f) where
  -- The writing of one record.
  record IsWritten (id : String) (content : Content P) (c after : Case) : Type 0 where
    there : read_artifact lower platform f.kind (some id) after ≡ ok (stored f id content)
    kept :
        (other : String)
        → is_plain other ≡ true
        → other ≢ id
        → read_artifact lower platform f.kind (some other) after
          ≡ read_artifact lower platform f.kind (some other) c

  -- What `unpack_each` leaves.
  record IsUnpacked (fix : Content P → Content P) (records : List (String × Content P))
      (b last : Blackboard P) (ms : List (Model (Content P))) : Type 0 where
    contents : map (λ m. m.content) ms ≡ map (λ r. fix r.1) records
    readable : read_each lower platform f.kind (labels ms) last.case ≡ ok ms
    kept :
        (n : ℕ)
        → n ≤ get_or b.counters f.prefix 0
        → read_artifact lower platform f.kind (some (f.prefix ++ padded n)) last.case
          ≡ read_artifact lower platform f.kind (some (f.prefix ++ padded n)) b.case
    markers : last.markers ≡ b.markers
    trail : last.trail ≡ b.trail
