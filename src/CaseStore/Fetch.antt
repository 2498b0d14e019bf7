-- ===== src/CaseStore/Fetch.antt =====
-- One file of a case after another was put.
use agent_advisor.Prelude.{
  ℕ, true, false, some, ◌≡◌, ◌≢◌, ◌⊎◌, refl, sym, ap, ◌∙◌, arith, String, if◌then◌else◌, Bool-cases,
  inl, inr, ==_iff, ◌==◌ as num_eq,
}
use agent_advisor.Prelude.Text.{◌==◌, eq_iff}
use agent_advisor.Prelude.Dict.{lookup-insert, HasDistinctKeys, insert-HasDistinctKeys}
use agent_advisor.CaseStore.{
  Folder, FilePath, index, same_folder, shared, evidence, assumptions, objections, tasks, gates,
  thesis, agents, analysis, outputs,
}
use agent_advisor.CaseStore.Disk.{Case, fetch, put}

folder_of : ℕ → Folder
folder_of n =
    if num_eq n 0
    then shared
    else if num_eq n 1
    then evidence
    else if num_eq n 2
    then assumptions
    else if num_eq n 3
    then objections
    else if num_eq n 4
    then tasks
    else if num_eq n 5
    then gates
    else if num_eq n 6
    then thesis
    else if num_eq n 7
    then agents
    else if num_eq n 8
    then analysis
    else outputs

folder_of-index : (f : Folder) → folder_of (index f) ≡ f
unfolding folder_of
folder_of-index shared = refl
folder_of-index evidence = refl
folder_of-index assumptions = refl
folder_of-index objections = refl
folder_of-index tasks = refl
folder_of-index gates = refl
folder_of-index thesis = refl
folder_of-index agents = refl
folder_of-index analysis = refl
folder_of-index outputs = refl

index_inj : (a b : Folder) → index a ≡ index b → a ≡ b
index_inj a b e = sym (folder_of-index a) ∙ ap folder_of e ∙ folder_of-index b

same_folder-eq : (a b : Folder) → same_folder a b ≡ true → a ≡ b
same_folder-eq a b e = index_inj a b ((==_iff (index a) (index b)).0 e)

path_of_parts : (p q : FilePath) → p.folder ≡ q.folder → p.name ≡ q.name → p ≡ q
path_of_parts p q e k = ground arith

apart_by_folder : (p q : FilePath) → same_folder p.folder q.folder ≡ false → p ≢ q
apart_by_folder p q off e =
    let equal = ap (λ (x : FilePath). index x.folder) e in
    ground (arith, ==_iff (index p.folder) (index q.folder))

apart_by_name : (p q : FilePath) → (p.name == q.name) ≡ false → p ≢ q
apart_by_name p q off e =
    let equal = ap (λ (x : FilePath). x.name) e in ground (arith, eq_iff p.name q.name)

pub FilePath-cases : (p q : FilePath) → (p ≡ q) ⊎ (p ≢ q)
FilePath-cases p q = elim (Bool-cases (same_folder p.folder q.folder)) [
  | inr off ↦ inr (apart_by_folder p q off)
  | inl here ↦ elim (Bool-cases (p.name == q.name)) [
    | inr off ↦ inr (apart_by_name p q off)
    | inl equal ↦
        inl (
          path_of_parts p q (same_folder-eq p.folder q.folder here)
            ((eq_iff p.name q.name).0 equal))
  ]
]

module _ (p : FilePath) (text : String) (c : Case) where
  pub fetch-put_same : fetch p (put p text c) ≡ some text
  fetch-put_same =
      ground (arith, lookup-insert p.name p.name text (c.files p.folder), eq_iff p.name p.name)

  pub fetch-put_other : (q : FilePath) → q ≢ p → fetch q (put p text c) ≡ fetch q c
  fetch-put_other q apart = elim (Bool-cases (same_folder q.folder p.folder)) [
    | inr elsewhere ↦ ground arith
    | inl here ↦ elim (Bool-cases (p.name == q.name)) [
      | inl equal ↦ absurd (
          apart (
            path_of_parts q p (same_folder-eq q.folder p.folder here)
              (sym ((eq_iff p.name q.name).0 equal))))
      | inr other ↦ ground (arith, lookup-insert p.name q.name text (c.files q.folder))
    ]
  ]

pub put_distinct :
    (text : String) (c : Case) (path : FilePath) (f : Folder)
    → HasDistinctKeys (c.files f)
    → HasDistinctKeys ((put path text c).files f)
put_distinct text c path f h = ground (arith, insert-HasDistinctKeys path.name text (c.files f) h)
