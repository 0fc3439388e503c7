-- ===== src/Release/Views/Curators.antt =====
-- `curator_experiments` (cernopendata/modules/releases/utils.py), on the CERN roles of a user who is
-- logged in; nobody else has any. `check_experiment` takes its result.
use mathlib.Core.Option.{some-injective}
use Prim.Native.Char.{Char}
use text.Mathlib.TextLemmas.{nil-append, cons-append, append_cancel_right}
use cernopendata_portal.Base.{
  ℕ, suc, String, ◌≡◌, refl, ◌≢◌, ◌↔◌, sym, ap, subst, ◌∙◌, Bool, true, false, ◌||◌, Option, none,
  some, List, [], ◌∷◌, ◌==◌, string_eq, contains, ◌<>◌, ◌≤◌, arith, inl, inr, Option-cases,
}
use cernopendata_portal.Base.Result.{branch}
use cernopendata_portal.Base.Text.{strip_suffix, with_char}
use cernopendata_portal.Release.Views.{validate_experiment, check_experiment}

-- `[r[:-8] for r in roles if r.endswith("-curator")]`
abbrev with_experiment : Option String → List String → List String
with_experiment none rest = rest
with_experiment (some experiment) rest = experiment ∷ rest

unfoldable pub curator_experiments : List String → List String
unfolding strip_suffix
curator_experiments [] = []
curator_experiments (role ∷ roles) =
    with_experiment (strip_suffix role "-curator") (curator_experiments roles)

with_char-some :
    (c : Char) (o : Option String) {r : String}
    → with_char c o ≡ some r
    → (r' : String) × (o ≡ some r') × (r ≡ String.◌∷◌ c r')
with_char-some c none h = cc
with_char-some c (some r') h = (r', refl, sym (some-injective _ _ h))

none-ne-some : {s : String} → ¬ (none ≡ some s)
none-ne-some h = cc

same_text : (s t : String) → (s == t) ≡ true → s ≡ t
same_text s t h = ground (arith, h)

strip_suffix-some : (s t : String) {r : String} → strip_suffix s t ≡ some r → s ≡ r <> t
unfolding strip_suffix
strip_suffix-some String.[] t {r} h =
    branch (String.[] == t) _ _ h
      (λ e k.
        subst (λ x. String.[] ≡ x <> t) (some-injective _ _ k)
          (same_text _ _ e ∙ sym (nil-append t)))
      (λ _ k. cc)
strip_suffix-some (String.◌∷◌ c s) t {r} h =
    branch (String.◌∷◌ c s == t) _ _ h
      (λ e k.
        subst (λ x. String.◌∷◌ c s ≡ x <> t) (some-injective _ _ k)
          (same_text _ _ e ∙ sym (nil-append t)))
      (λ _ k.
        let (r', found, e) = with_char-some c (strip_suffix s t) k in
        ap (String.◌∷◌ c) (strip_suffix-some s t found)
        ∙ sym (cons-append c r' t)
        ∙ ap (λ x. x <> t) (sym e))

size : String → ℕ
size String.[] = 0
size (String.◌∷◌ c s) = suc (size s)

size-append : (r t : String) → size t ≤ size (r <> t)
unfolding size
size-append String.[] t = rw (nil-append t) (omega arith)
size-append (String.◌∷◌ c r) t = rw (cons-append c r t) (omega (arith, size-append r t))

longer : (s t : String) → suc (size t) ≤ size s → (s == t) ≡ false
longer s t h = ground (arith, h)

self : (t : String) → (t == t) ≡ true
self t = ground arith

strip_suffix_self : (t : String) → strip_suffix t t ≡ some ""
unfolding strip_suffix
strip_suffix_self String.[] = rw (self "") refl
strip_suffix_self (String.◌∷◌ c t) = rw (self (String.◌∷◌ c t)) refl

strip_suffix-append : (r t : String) → strip_suffix (r <> t) t ≡ some r
unfolding strip_suffix size
strip_suffix-append String.[] t = ap (λ x. strip_suffix x t) (nil-append t) ∙ strip_suffix_self t
strip_suffix-append (String.◌∷◌ c r) t =
    ap (λ x. strip_suffix x t) (cons-append c r t)
    ∙ rw (longer (String.◌∷◌ c (r <> t)) t (omega (arith, size-append r t)))
        (ap (with_char c) (strip_suffix-append r t))

differ-== : (s t : String) → s ≢ t → (s == t) ≡ false
differ-== s t h = ground (arith, h)

-- Equality of experiments and of their roles.
==-append : (e r t : String) → (e == r) ≡ (e <> t == r <> t)
==-append e r t = elim (string_eq.dec e r) [
  | yes p ↦ rw p (self r ∙ sym (self (r <> t)))
  | no n ↦
      differ-== e r n ∙ sym (differ-== (e <> t) (r <> t) (λ p. n (append_cancel_right e r t p)))
]

curated_role :
    (experiment role : String) (experiments : List String) (rest : Bool)
    → contains experiment experiments ≡ rest
    → contains experiment (with_experiment (strip_suffix role "-curator") experiments)
      ≡ (experiment <> "-curator" == role || rest)
curated_role experiment role experiments rest h =
    elim (Option-cases (strip_suffix role "-curator")) [
      | inl other ↦
          rw
            (
              other,
              differ-== (experiment <> "-curator") role (λ p. none-ne-some (
                  sym other
                  ∙ ap (λ x. strip_suffix x "-curator") (sym p)
                  ∙ strip_suffix-append experiment "-curator")),
            )
            h
      | inr (found, e) ↦
          rw (e, strip_suffix-some role "-curator" e, ==-append experiment found "-curator", h) refl
    ]

contains-curator_experiments :
    (experiment : String) (roles : List String)
    → contains experiment (curator_experiments roles) ≡ contains (experiment <> "-curator") roles
unfolding curator_experiments
contains-curator_experiments experiment [] = refl
contains-curator_experiments experiment (role ∷ roles) =
    curated_role experiment role (curator_experiments roles) _
      (contains-curator_experiments experiment roles)

-- A user passes the check of the experiment exactly if the experiment is one of those that the
-- portal knows and the user has the role of its curator, which is the name of the experiment with
-- -curator behind it.
pub check_experiment-curator :
    (experiment : String) (roles : List String)
    → (check_experiment (curator_experiments roles) experiment ≡ none) ↔ (
        (validate_experiment experiment ≡ true)
        × (contains (experiment <> "-curator") roles ≡ true))
unfolding check_experiment
check_experiment-curator experiment roles =
    let same = contains-curator_experiments experiment roles in
    (
      λ h. (ground (arith, h), sym same ∙ ground (arith, h)),
      λ h. let curated = same ∙ h.1 in ground (arith, h.0, curated),
    )
