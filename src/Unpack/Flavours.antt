-- ===== src/Unpack/Flavours.antt =====
-- The three kinds of batch have files of their own, by ids without a '/'.
use Prim.Native.String.{◌++◌}
use agent_advisor.Prelude.{
  ℕ, true, not, ◌&&◌, ok_inj, ◌==◌ as num_eq, some, List, [], ◌∷◌, In, ok, ◌≡◌, ◌≢◌, inl, inr, refl,
  sym, subst, arith, String,
}
use agent_advisor.Prelude.Text.{all_codes, all_codes-append}
use agent_advisor.Prelude.Dict.{mem}
use agent_advisor.Prelude.Decimal.{padded, all_codes-padded}
use agent_advisor.CaseStore.{
  Folder, FilePath, at, path_for_write, gate_report, evidence, assumptions, objections,
}
use agent_advisor.CaseStore.Disk.{is_plain}
use agent_advisor.CaseStore.Slots.{id_of}
use agent_advisor.CaseStore.Counters.{counter_prefixes}
use agent_advisor.Unpack.{Flavour, evidence_flavour, assumption_flavour, objection_flavour}

-- The records of a flavour have files of their own, by their ids.
pub record IsFlavour (lower : String → String) (f : Flavour) : Type 0 where
  pub located :
      (label : String) (revision : ℕ)
      → (path : FilePath) × (path_for_write lower f.kind label revision ≡ ok path)
  pub plain :
      (label : String) (revision : ℕ) (path : FilePath)
      → path_for_write lower f.kind label revision ≡ ok path
      → is_plain label ≡ true
      → is_plain path.name ≡ true
  pub plain_prefix : is_plain f.prefix ≡ true
  pub not_gate : f.kind ≢ gate_report
  pub id_is : (label : String) (revision : ℕ) → id_of f.kind label revision ≡ some label
  pub counted : mem f.prefix counter_prefixes ≡ true

-- The ids that the counter gives have no '/'.
pub is_plain-id :
    (prefix : String) (n : ℕ) → is_plain prefix ≡ true → is_plain (prefix ++ padded n) ≡ true
unfolding is_plain
is_plain-id prefix n h =
    let test = λ (c : ℕ). not (num_eq c b'/') && not (num_eq c 0) in
    let number : is_plain (padded n) ≡ true =
      all_codes-padded test (λ c low high. ground arith) n in
    ground (arith, all_codes-append test prefix (padded n))

is_plain-file : (label : String) → is_plain label ≡ true → is_plain (label ++ ".yaml") ≡ true
unfolding is_plain all_codes
is_plain-file label h =
    ground (arith, all_codes-append (λ c. not (num_eq c b'/') && not (num_eq c 0)) label ".yaml")

plain_at :
    (folder : Folder) (label : String) (path : FilePath)
    → at folder (label ++ ".yaml") ≡ path
    → is_plain label ≡ true
    → is_plain path.name ≡ true
plain_at folder label path e h =
    subst (λ (x : FilePath). is_plain x.name ≡ true) e (is_plain-file label h)

-- The three functions of the module.
abbrev pub flavours : List Flavour
flavours = evidence_flavour ∷ assumption_flavour ∷ objection_flavour ∷ []

pub In-IsFlavour : (lower : String → String) (f : Flavour) → In f flavours → IsFlavour lower f
unfolding path_for_write mem is_plain all_codes
In-IsFlavour lower f (inl e) = subst (IsFlavour lower) (sym e) (record {
  located = λ label revision. (_, refl);
  plain = λ label revision path e h. plain_at evidence label path (ok_inj e) h;
  plain_prefix = refl;
  not_gate = λ x. ground arith;
  id_is = λ label revision. refl;
  counted = refl;
})
In-IsFlavour lower f (inr (inl e)) = subst (IsFlavour lower) (sym e) (record {
  located = λ label revision. (_, refl);
  plain = λ label revision path e h. plain_at assumptions label path (ok_inj e) h;
  plain_prefix = refl;
  not_gate = λ x. ground arith;
  id_is = λ label revision. refl;
  counted = refl;
})
In-IsFlavour lower f (inr (inr (inl e))) = subst (IsFlavour lower) (sym e) (record {
  located = λ label revision. (_, refl);
  plain = λ label revision path e h. plain_at objections label path (ok_inj e) h;
  plain_prefix = refl;
  not_gate = λ x. ground arith;
  id_is = λ label revision. refl;
  counted = refl;
})
In-IsFlavour lower f (inr (inr (inr i))) = absurd i
