-- ===== src/CaseStore/Loading.antt =====
-- The names that a listing looks for, and the loading of the files that it finds.
use Prim.Native.String.{String, ◌++◌}
use text.Mathlib.TextLemmas.{nil-append, cons-append}
use agent_advisor.Prelude.{
  ℕ, true, some, List, [], ◌∷◌, Result, ok, ◌≡◌, ◌↔◌, refl, sym, ap, ◌∙◌, subst, arith, ok_inj,
  some_inj, Result-cases, Option-cases, inl, inr, In,
}
use agent_advisor.Prelude.Text.{eq_iff}
use agent_advisor.CaseStore.{
  Kind, Folder, FilePath, StoreError, Model, at, path_for_write, safe_stem, gate_report, gates,
}
use agent_advisor.CaseStore.Disk.{Platform, ends_with, load_model_from_yaml_text}
use agent_advisor.CaseStore.Files.{load_each}

ends_with_self : (t : String) → ends_with t t ≡ true
unfolding ends_with
ends_with_self String.[] = (eq_iff String.[] String.[]).1 refl
ends_with_self (String.◌∷◌ c t) = ground (arith, eq_iff (String.◌∷◌ c t) (String.◌∷◌ c t))

pub ends_with-append : (s t : String) → ends_with t (s ++ t) ≡ true
unfolding ends_with
ends_with-append String.[] t = ap (ends_with t) (nil-append t) ∙ ends_with_self t
ends_with-append (String.◌∷◌ c s) t =
    ap (ends_with t) (cons-append c s t) ∙ ground (arith, ends_with-append s t)

pub named :
    (folder : Folder) (stem suffix : String) (path : FilePath)
    → ◌≡◌ {A = Result StoreError FilePath} (ok (at folder (stem ++ suffix))) (ok path)
    → (path.folder ≡ folder) × (ends_with suffix path.name ≡ true)
named folder stem suffix path e =
    subst (λ (x : FilePath). (x.folder ≡ folder) × (ends_with suffix x.name ≡ true)) (ok_inj e)
      (refl, ends_with-append stem suffix)

pub gate_named :
    (lower : String → String) (label : String) (revision : ℕ) (path : FilePath)
    → path_for_write lower gate_report label revision ≡ ok path
    → (path.folder ≡ gates) × (ends_with ".yaml" path.name ≡ true)
unfolding path_for_write
gate_named lower label revision path e = elim (Result-cases (safe_stem lower label)) [
  | inl (stem, found) ↦ named gates stem ".yaml" path (ground arith)
  | inr (fault, failed) ↦ absurd (ground arith)
]

-- The files that are loaded are listed in their order.
pub In-load_each :
    {C : Type 0} (platform : Platform C) (k : Kind) (texts : List String) (ms : List (Model C))
    → load_each platform k texts ≡ ok ms
    → (m : Model C) → In m ms ↔ ((text : String) × In text texts × (platform.parse k text ≡ some m))
unfolding load_each load_model_from_yaml_text
In-load_each platform k [] ms e m =
    (λ i. absurd (subst (In m) (sym (ok_inj e)) i), λ (text, i, p). absurd i)
In-load_each {C} platform k (text ∷ texts) ms e m = elim (Option-cases (platform.parse k text)) [
  | inl bad ↦ absurd (ground arith)
  | inr (first, parsed) ↦ elim (Result-cases (load_each platform k texts)) [
    | inr (fault, failed) ↦ absurd (ground arith)
    | inl (rest, loaded) ↦
        let all : first ∷ rest ≡ ms = ground arith in
        let others = In-load_each platform k texts rest loaded m in
        subst
          (λ (l : List (Model C)).
            In m l ↔ ((t : String) × In t (text ∷ texts) × (platform.parse k t ≡ some m)))
          all
          (
            λ i. elim i [
              | inl same ↦ (text, inl refl, parsed ∙ ap some (sym same))
              | inr later ↦ let (t, j, p) = others.0 later in (t, inr j, p)
            ],
            λ (t, i, p). elim i [
              | inl same ↦
                  inl (some_inj (sym (subst (λ x. platform.parse k x ≡ some m) same p) ∙ parsed))
              | inr later ↦ inr (others.1 (t, later, p))
            ],
          )
  ]
]
