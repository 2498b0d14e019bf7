-- ===== src/CaseStore/RoundTrip.antt =====
-- Reading what was written: the artifact, its type, and the other files as they were.
use agent_advisor.Prelude.{
  ℕ, true, Option, some, ok, ◌≡◌, ◌≢◌, refl, sym, ap, ◌∙◌, subst, arith, String, Result-cases, inl,
  inr, some_inj, ok_inj,
}
use agent_advisor.Prelude.Dict.{HasDistinctKeys}
use agent_advisor.CaseStore.{
  Kind, Folder, FilePath, Model, path_for_write, path_for_read, gate_report,
}
use agent_advisor.CaseStore.Slots.{id_of, path_for_read-kind, path_for_write-read}
use agent_advisor.CaseStore.Sharing.{path_for_write_inj}
use agent_advisor.CaseStore.Disk.{
  Case, Platform, is_plain, fetch, put, locate, read_text, write_text, load_model_from_yaml_text,
  dump_model_to_yaml_text,
}
use agent_advisor.CaseStore.Files.{write_artifact, read_artifact}
use agent_advisor.CaseStore.Fetch.{fetch-put_same, fetch-put_other, FilePath-cases, put_distinct}

module _ (lower : String → String) {C : Type 0} (platform : Platform C) where
  -- A path with a plain name reaches the file of that name.
  read_text-plain :
      (path : FilePath) (c : Case)
      → is_plain path.name ≡ true
      → read_text platform path c ≡ fetch path c
  unfolding read_text locate
  read_text-plain path c h = ground arith

  write_text-plain :
      (path : FilePath) (text : String) (c : Case)
      → is_plain path.name ≡ true
      → write_text platform path text c ≡ ok (put path text c)
  unfolding write_text locate
  write_text-plain path text c h = ground arith

  -- Each file has the text of an artifact that is written there.
  pub record IsFiled (c : Case) : Type 0 where
    pub distinct : (f : Folder) → HasDistinctKeys (c.files f)
    pub filed :
        (path : FilePath) (text : String)
        → fetch path c ≡ some text
        → (a : Model C) × (path_for_write lower a.kind a.label a.revision ≡ ok path)
          × (text ≡ dump_model_to_yaml_text platform a)

  pub write_artifact-ok :
      (m : Model C) (c : Case) (path : FilePath)
      → is_plain path.name ≡ true
      → path_for_write lower m.kind m.label m.revision ≡ ok path
      → write_artifact lower platform m c
        ≡ ok (path, put path (dump_model_to_yaml_text platform m) c)
  unfolding write_artifact
  write_artifact-ok m c path plain e =
      rw e (rw (write_text-plain path (dump_model_to_yaml_text platform m) c plain) refl)

  write_artifact-put :
      (m : Model C) (c after : Case) (path : FilePath)
      → is_plain path.name ≡ true
      → write_artifact lower platform m c ≡ ok (path, after)
      → (path_for_write lower m.kind m.label m.revision ≡ ok path)
        × (after ≡ put path (dump_model_to_yaml_text platform m) c)
  unfolding write_artifact
  write_artifact-put m c after path plain h =
      elim (Result-cases (path_for_write lower m.kind m.label m.revision)) [
        | inr (fault, e) ↦ absurd (ground arith)
        | inl (p, e) ↦
            elim (Result-cases (write_text platform p (dump_model_to_yaml_text platform m) c)) [
              | inr (fault, k) ↦ absurd (ground arith)
              | inl (c', k) ↦
                  let (same_path, same_case) : (p ≡ path) × (c' ≡ after) = ground arith in
                  let written =
                    write_text-plain path (dump_model_to_yaml_text platform m) c plain in
                  (
                    e ∙ ap ok same_path,
                    ok_inj (
                        sym (
                          subst
                            (λ x.
                              write_text platform x (dump_model_to_yaml_text platform m) c ≡ ok c')
                            same_path k
                          ∙ ap ok same_case)
                        ∙ written),
                  )
            ]
      ]

  pub write_artifact-IsFiled :
      (m : Model C) (c after : Case) (path : FilePath)
      → is_plain path.name ≡ true
      → IsFiled c
      → write_artifact lower platform m c ≡ ok (path, after)
      → IsFiled after
  write_artifact-IsFiled m c after path plain h e =
      let (located, same) = write_artifact-put m c after path plain e in
      let dumped = dump_model_to_yaml_text platform m in
      rw same (record {
        distinct = λ f. put_distinct dumped c path f (h.distinct f);
        filed = λ q text found. elim (FilePath-cases q path) [
          | inr apart ↦ h.filed q text (sym (fetch-put_other path dumped c q apart) ∙ found)
          | inl here ↦
              let stored =
                sym (fetch-put_same path dumped c)
                ∙ subst (λ x. fetch x (put path dumped c) ≡ some text) here found in
              (m, located ∙ ap ok (sym here), sym (some_inj stored))
        ];
      })

  -- What `read_artifact` gives depends on the text at the type's path only.
  read_artifact-same :
      (k : Kind) (id : Option String) (c after : Case) (q : FilePath)
      → path_for_read lower k id ≡ ok q
      → read_text platform q after ≡ read_text platform q c
      → read_artifact lower platform k id after ≡ read_artifact lower platform k id c
  unfolding read_artifact
  read_artifact-same k id c after q located same = ground arith

  read_artifact-there :
      (m : Model C) (id : Option String) (c : Case) (path : FilePath)
      → path_for_read lower m.kind id ≡ ok path
      → read_text platform path c ≡ some (dump_model_to_yaml_text platform m)
      → platform.parse m.kind (dump_model_to_yaml_text platform m) ≡ some m
      → read_artifact lower platform m.kind id c ≡ ok m
  unfolding read_artifact load_model_from_yaml_text
  read_artifact-there m id c path located there lossless = ground arith

  kept_elsewhere :
      (c : Case) (path q : FilePath) (text : String)
      → is_plain q.name ≡ true
      → q ≢ path
      → read_text platform q (put path text c) ≡ read_text platform q c
  kept_elsewhere c path q text plain apart =
      read_text-plain q (put path text c) plain
      ∙ fetch-put_other path text c q apart
      ∙ sym (read_text-plain q c plain)

  -- When `write_artifact` returns a path whose name is plain, that is without '/' and the null
  -- character, and loading the text that is written gives the artifact, reading the artifact's type
  -- at its id gives the artifact back. Reading any other type at an id for which the type's path
  -- has a plain name gives what it gave before; so does reading the same type at the id of another
  -- artifact whose path has a plain name, except that gate reports share a file when their stages
  -- have the same stem.
  pub read_artifact-write :
      (m : Model C) (c after : Case) (path : FilePath)
      → is_plain path.name ≡ true
      → platform.parse m.kind (dump_model_to_yaml_text platform m) ≡ some m
      → write_artifact lower platform m c ≡ ok (path, after)
      → (read_artifact lower platform m.kind (id_of m.kind m.label m.revision) after ≡ ok m)
        × ((k : Kind) (id : Option String) (q : FilePath)
            → k ≢ m.kind
            → path_for_read lower k id ≡ ok q
            → is_plain q.name ≡ true
            → read_artifact lower platform k id after ≡ read_artifact lower platform k id c)
        × ((label : String) (revision : ℕ) (q : FilePath)
            → path_for_write lower m.kind label revision ≡ ok q
            → is_plain q.name ≡ true
            → m.kind ≢ gate_report
            → id_of m.kind label revision ≢ id_of m.kind m.label m.revision
            → read_artifact lower platform m.kind (id_of m.kind label revision) after
              ≡ read_artifact lower platform m.kind (id_of m.kind label revision) c)
  read_artifact-write m c after path plain lossless e =
      let (located, same) = write_artifact-put m c after path plain e in
      let dumped = dump_model_to_yaml_text platform m in
      let read_path = path_for_write-read lower m.kind m.label m.revision path located in
      let there : read_text platform path (put path dumped c) ≡ some dumped =
        read_text-plain path (put path dumped c) plain ∙ fetch-put_same path dumped c in
      (
        rw same (
            read_artifact-there m (id_of m.kind m.label m.revision) (put path dumped c) path
              read_path there lossless),
        λ k id q other found plain_q.
            let apart : q ≢ path = λ shared_file. other (
              some_inj (
                sym (
                  path_for_read-kind lower k id path
                    (subst (λ x. path_for_read lower k id ≡ ok x) shared_file found))
                ∙ path_for_read-kind lower m.kind (id_of m.kind m.label m.revision) path
                    read_path)) in
            rw same (
              read_artifact-same k id c (put path dumped c) q found
                (kept_elsewhere c path q dumped plain_q apart)),
        λ label revision q there plain_q not_gate other_id.
            let apart : q ≢ path = λ same_file. other_id (
              (path_for_write_inj lower label m.label revision m.revision path m.kind m.kind
                  (subst (λ x. path_for_write lower m.kind label revision ≡ ok x) same_file there)
                  located).1
                not_gate) in
            rw same (
              read_artifact-same m.kind (id_of m.kind label revision) c (put path dumped c) q
                (path_for_write-read lower m.kind label revision q there)
                (kept_elsewhere c path q dumped plain_q apart)),
      )
