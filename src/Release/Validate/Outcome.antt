-- ===== src/Release/Validate/Outcome.antt =====
-- What a call of `Release.validate` leaves in the release, for validations that read only its
-- content.
use mathlib.Core.List.{append-nil, append_assoc}
use mathlib.Core.Path.{ap₂}
use cernopendata_portal.Base.{
  ℕ, String, ◌⊎◌, ◌≡◌, refl, ◌↔◌, ◌∙◌, Bool, true, false, List, [], ◌∷◌, ◌++◌, map, ◌==◌, string_eq,
  nat_eq, if◌then◌else◌, length, is_empty, All, arith, inl, inr,
}
use cernopendata_portal.Base.Result.{Result-cases, ok, >>=-eq-ok, ok-injective}
use cernopendata_portal.Release.Model.{ready, draft, Message, Check, Metadata, Validator}
use cernopendata_portal.Release.Validate.{
  change_status, count_files, caught, validator_of, check_errors, run_checks, validate,
}

-- Two states of one release with the same content: what a validation may read.
pub record SameContent (m n : Metadata) : Type 0 where
  pub same_id : m.id ≡ n.id
  pub same_status : m.status ≡ n.status
  pub same_experiment : m.experiment ≡ n.experiment
  pub same_records : m.records ≡ n.records
  pub same_documents : m.documents ≡ n.documents

-- A validation's errors depend on the content alone.
abbrev pub IsLocal : Validator → Type 0
IsLocal v = (m n : Metadata) → SameContent m n → v.validate m ≡ v.validate n

if-append :
    {A : Type 0} (b : Bool) (xs ys zs : List A)
    → (if b then xs ++ ys else xs) ++ zs ≡ xs ++ ((if b then ys else []) ++ zs)
if-append true xs ys zs = append_assoc xs ys zs
if-append false xs ys zs = refl

ready_iff :
    {P : Type 0} (errors : List Message)
    → (errors ≡ []) ↔ P
    → ((if length errors == 0 then ready else draft) ≡ ready) ↔ P
ready_iff [] h = (λ _. h.0 refl, λ _. ground arith)
ready_iff (e ∷ es) h = (λ q. ground arith, λ p. cc (h.1 p))

append-eq-nil : {A : Type 0} (xs ys : List A) → (xs ++ ys ≡ []) ↔ ((xs ≡ []) × (ys ≡ []))
append-eq-nil [] ys = (λ h. (refl, h), λ h. h.1)
append-eq-nil (x ∷ xs) ys = (λ h. cc, λ h. cc)

module _ (registry : List Validator) where
  -- What an enabled check finds in a release; a disabled one finds nothing.
  abbrev pub findings : Metadata → Check → List Message
  findings m c = if c.enabled then caught c.name (check_errors registry c.name m) else []

  abbrev pub rechecked : Metadata → Check → Check
  rechecked m c =
      if c.enabled
      then record c { status = is_empty (caught c.name (check_errors registry c.name m)) }
      else c

  abbrev pub all_findings : Metadata → List Check → List Message
  all_findings m [] = []
  all_findings m (c ∷ cs) = findings m c ++ all_findings m cs

  -- An enabled check passes: its validation returns no error and does not crash.
  abbrev pub Passes : Metadata → Check → Type 0
  Passes m c = c.enabled ≡ true → caught c.name (check_errors registry c.name m) ≡ []

  all_findings_nil : (m : Metadata) (cs : List Check) → (all_findings m cs ≡ []) ↔ All (Passes m) cs
  all_findings_nil m [] = (λ _. tt, λ _. refl)
  all_findings_nil m (c ∷ cs) =
      let rest = all_findings_nil m cs in
      let both = append-eq-nil (findings m c) (all_findings m cs) in
      (
        λ h. (λ on. ground (arith, (both.0 h).0), rest.0 (both.0 h).1),
        λ h. both.1 (ground (arith, h.0), rest.1 h.1),
      )

  find_first-local :
      (vs : List Validator) (name : String) (m n : Metadata)
      → All IsLocal vs
      → SameContent m n
      → check_errors vs name m ≡ check_errors vs name n
  unfolding check_errors validator_of
  find_first-local [] name m n local same = refl
  find_first-local (v ∷ vs) name m n local same =
      ground (arith, local.0 m n same, find_first-local vs name m n local.1 same)

  module _ (local : All IsLocal registry) where
    run_checks-eq :
        (m n : Metadata) (done rest : List Check) (errors : List Message)
        → SameContent m n
        → run_checks registry m done rest errors
          ≡ (done ++ map (rechecked n) rest, errors ++ all_findings n rest)
    unfolding run_checks
    run_checks-eq m n done [] errors same = rw (append-nil, append-nil)
    run_checks-eq m n done (c ∷ rest) errors same =
        let now : Metadata = record m { errors = errors; validations = done ++ c ∷ rest } in
        let same_now : SameContent now n = ground arith in
        let more = caught c.name (check_errors registry c.name n) in
        rw (find_first-local registry c.name now n local same_now) (
          run_checks-eq m n (done ++ rechecked n c ∷ []) rest
            (if c.enabled then errors ++ more else errors) same
          ∙ ap₂ (λ cs es. (cs, es))
              (append_assoc done (rechecked n c ∷ []) (map (rechecked n) rest))
              (if-append c.enabled errors more (all_findings n rest)))

    abbrev start : Metadata → Metadata
    start m = record m {
      num_records = length m.records;
      num_files = 0;
      num_file_indices = 0;
      errors = [];
    }

    module _ (user : ℕ) (m : Metadata) {m' : Metadata}
        (done : validate registry user m ≡ ok m') where
      -- What a call of Release.validate that returns leaves in the release: each check with its
      -- new status, the errors of the enabled checks in order, their count, and READY or DRAFT by
      -- that count; for validations that read only the content.
      pub validate-eq :
          (m'.validations ≡ map (rechecked m) m.validations)
          × (m'.errors ≡ all_findings m m.validations)
          × (m'.num_errors ≡ length m'.errors)
          × (m'.status ≡ (if length m'.errors == 0 then ready else draft))
      unfolding validate change_status
      validate-eq =
          let (totals, counted, e) = >>=-eq-ok (count_files m.records (0, 0)) _ done in
          let e' = ok-injective e in
          let same : SameContent (start m) m = ground arith in
          rw (← e')
            (rw (run_checks-eq (start m) m [] m.validations [] same) (refl, refl, refl, refl))

      -- After a call of Release.validate that returns, the release is READY exactly when every
      -- enabled check passes (its validation returns no error and does not crash); for validations
      -- that read only the content of the release.
      pub validate_ready : (m'.status ≡ ready) ↔ All (Passes m) m.validations
      validate_ready =
          let (_, found, _, status) = validate-eq in
          let none_found = all_findings_nil m m.validations in
          rw (status, found) (ready_iff (all_findings m m.validations) none_found)

module _ (user : ℕ) (registry : List Validator) (m : Metadata) {m' : Metadata}
    (done : validate registry user m ≡ ok m') where
  -- A call of Release.validate that returns leaves records, documents, experiment, id and the
  -- count of documents alone, counts the records, and adds its new status to the history.
  pub validate_keeps :
      (m'.records ≡ m.records)
      × (m'.documents ≡ m.documents)
      × (m'.experiment ≡ m.experiment)
      × (m'.id ≡ m.id)
      × (m'.num_docs ≡ m.num_docs)
      × (m'.num_records ≡ length m.records)
      × (m'.history ≡ m.history ++ (record { status = m'.status; user_id = user } ∷ []))
  unfolding validate change_status
  validate_keeps =
      let (totals, counted, e) = >>=-eq-ok (count_files m.records (0, 0)) _ done in
      let e' = ok-injective e in rw (← e') (refl, refl, refl, refl, refl, refl, refl)

-- A validation ends in READY or DRAFT.
pub validate_status :
    (registry : List Validator) (user : ℕ) (m : Metadata) {m' : Metadata}
    → validate registry user m ≡ ok m'
    → (m'.status ≡ ready) ⊎ (m'.status ≡ draft)
unfolding validate change_status
validate_status registry user m h = elim (Result-cases (count_files m.records (0, 0))) [
  | inl (totals, e) ↦ ground (arith, e)
  | inr (e', p) ↦ absurd (ground (arith, p))
]
