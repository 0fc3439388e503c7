-- ===== src/Release/Lifecycle/Preserved.antt =====
-- The handlers of modules/releases/views.py around an operation, and soundness of the row.
use mathlib.Core.Option.{some-injective}
use cernopendata_portal.Base.{
  ℕ, String, ◌≡◌, sym, subst, ◌∙◌, ◌⊎◌, inl, inr, Bool, true, Option, none, some, List, arith,
  contains,
}
use cernopendata_portal.Base.Result.{Exn, Result, ok, raise, Result-cases}
use cernopendata_portal.Release.Model.{Status, editing, status_eq, Metadata}
use cernopendata_portal.Release.Validate.{change_status}
use cernopendata_portal.Release.Edit.{is_one_of, is_status, lock}
use cernopendata_portal.Release.Views.{
  Response, done, abort, crash, Reply, check_experiment, get_release, with_release, commits,
}
use cernopendata_portal.Release.Views.Documents.{reply, commits_document}
use cernopendata_portal.Release.Lifecycle.{Allowed, IsSound}
use cernopendata_portal.Release.Lifecycle.Trace.{change_status-IsSound}

module _ (curated : List String) (acquired : Bool) (experiment : String) (user : ℕ) where
  with_release-cases :
      (statuses : Option (List Status)) (body : Metadata → Reply) (m : Metadata)
      → (with_release curated acquired experiment user statuses none body (some m) ≡ body m)
        ⊎ ((with_release curated acquired experiment user statuses none body (some m)).1 ≡ some m)
  unfolding with_release get_release check_experiment lock is_one_of is_status
  with_release-cases statuses body m = ground arith

  with_release-cases_lock :
      (ss : List Status) (s : Status) (body : Metadata → Reply) (m : Metadata)
      → let reply =
          with_release curated acquired experiment user (some ss) (some s) body (some m) in
        ((reply ≡ body (change_status s user m)) × (contains m.status ss ≡ true))
        ⊎ (reply.1 ≡ some m)
  unfolding with_release get_release check_experiment lock is_one_of is_status
  with_release-cases_lock ss s body m = ground arith

  with_release-cases_edit :
      (body : Metadata → Reply) (m : Metadata)
      → let reply =
          with_release curated acquired experiment user none (some editing) body (some m) in
        (reply ≡ body (change_status editing user m)) ⊎ (reply.1 ≡ some m)
  unfolding with_release get_release check_experiment lock is_one_of is_status
  with_release-cases_edit body m = ground arith

-- A body keeps sound rows sound.
abbrev pub Keeps : (Metadata → Reply) → Type 0
Keeps body = (m m' : Metadata) → IsSound m → (body m).1 ≡ some m' → IsSound m'

unchanged-IsSound :
    {m m' : Metadata} (row : Option Metadata)
    → IsSound m
    → row ≡ some m
    → row ≡ some m'
    → IsSound m'
unchanged-IsSound {m} {m'} row h p q = subst IsSound (some-injective m m' (sym p ∙ q)) h

pub commits-Keeps {ℓ} :
    {A : Type ℓ} (saved : A → Metadata) (call : Metadata → Result A)
    → ((m : Metadata) (a : A) → IsSound m → call m ≡ ok a → IsSound (saved a))
    → Keeps (λ m. commits saved m (call m))
commits-Keeps saved call keep m m' h p = elim (Result-cases (call m)) [
  | inl (a, e) ↦
      let q : some (saved a) ≡ some m' = rw e at p in
      subst IsSound (some-injective (saved a) m' q) (keep m a h e)
  | inr (x, e) ↦ let q : some m ≡ some m' = rw e at p in subst IsSound (some-injective m m' q) h
]

pub kept : (m m' : Metadata) → IsSound m → ◌≡◌ {A = Option Metadata} (some m) (some m') → IsSound m'
kept m m' h p = subst IsSound (some-injective m m' p) h

pub reply-Keeps :
    {A : Type 0} (r : Response A) (body : A → Metadata → Reply)
    → ((a : A) → Keeps (body a))
    → Keeps (λ m. reply r (some m) (λ a. body a m))
reply-Keeps (done a) body keep m m' h p = keep a m m' h p
reply-Keeps (abort code) body keep m m' h p = kept m m' h p
reply-Keeps (crash e) body keep m m' h p = kept m m' h p

refused_document : (m : Metadata) (e : Exn) → (commits_document m (raise e)).1 ≡ some m
refused_document m e = ground arith

pub commits_document-Keeps :
    (call : Metadata → Result Metadata)
    → ((m a : Metadata) → IsSound m → call m ≡ ok a → IsSound a)
    → Keeps (λ m. commits_document m (call m))
commits_document-Keeps call keep m m' h p = elim (Result-cases (call m)) [
  | inl (a, e) ↦
      let q : some a ≡ some m' = rw e at p in subst IsSound (some-injective a m' q) (keep m a h e)
  | inr (x, e) ↦
      let q : (commits_document m (raise x)).1 ≡ some m' = rw e at p in
      kept m m' h (sym (refused_document m x) ∙ q)
]

module _ (curated : List String) (acquired : Bool) (experiment : String) (user : ℕ)
    (body : Metadata → Reply) (keep : Keeps body) where
  pub with_release-Keeps :
      (statuses : Option (List Status))
      → Keeps (λ m. with_release curated acquired experiment user statuses none body (some m))
  with_release-Keeps statuses m m' h p =
      elim (with_release-cases curated acquired experiment user statuses body m) [
        | inl e ↦ keep m m' h (rw e at p)
        | inr e ↦ unchanged-IsSound _ h e p
      ]

  pub with_release-Keeps_lock :
      (ss : List Status) (s : Status)
      → ((m : Metadata) → contains m.status ss ≡ true → Allowed m.status s)
      → Keeps (λ m. with_release curated acquired experiment user (some ss) (some s) body (some m))
  with_release-Keeps_lock ss s allowed m m' h p =
      elim (with_release-cases_lock curated acquired experiment user ss s body m) [
        | inl (e, c) ↦
            keep (change_status s user m) m' (change_status-IsSound s user m h (allowed m c))
              (rw e at p)
        | inr e ↦ unchanged-IsSound _ h e p
      ]

  pub with_release-Keeps_edit :
      Keeps (λ m. with_release curated acquired experiment user none (some editing) body (some m))
  with_release-Keeps_edit m m' h p =
      elim (with_release-cases_edit curated acquired experiment user body m) [
        | inl e ↦
            keep (change_status editing user m) m' (change_status-IsSound editing user m h tt)
              (rw e at p)
        | inr e ↦ unchanged-IsSound _ h e p
      ]
