-- ===== src/Validation/Recid.antt =====
-- validations/recid.py: the form of a recid, collisions with numeric recids, and the assignment of
-- new ones. `decimal` and `digit` are Python's classes of characters `\d` and `str.isdigit`, and
-- `str` is Python's. The three maxima that `next_recid_start` asks the database for are arguments.
pub mod Format
use Prim.Native.Nat.{max}
use cernopendata_portal.Base.{
  ℕ, suc, ◌+◌, String, ◌<>◌, Bool, true, false, not, Option, none, some, List, [], ◌∷◌, ◌++◌, map,
  ◌==◌, string_eq, ◌&&◌, ◌||◌, if◌then◌else◌, keep_if, is_some,
}
use cernopendata_portal.Base.Result.{Result, ok, raise, type_error, ◌>>=◌}
use cernopendata_portal.Base.Text.{strip_prefix, span, all_chars, show}
use cernopendata_portal.Json.{Value, text, Fields, truthy}
use cernopendata_portal.Json.Dict.{insert}
use cernopendata_portal.Release.Model.{Message, recid_format, recid_collides, Metadata, Validator}
use cernopendata_portal.Release.Edit.{get}
use cernopendata_portal.Release.Fix.{has_value}
use cernopendata_portal.Validation.Pid.{Pid, hashable, duplicate_pids, validate_pids}

unfoldable pub next_recid_start : ℕ → ℕ → ℕ → ℕ
next_recid_start max_release max_registered max_numeric =
    max (max max_release max_registered) max_numeric + 1

module _ (decimal digit : ℕ → Bool) (str : Value → String) where
  -- The match of `^<experiment>-(\d+)$`: its group, if there is one. `$` also matches before a
  -- newline that ends the text.
  unfoldable pub recid_number : String → String → Option String
  recid_number experiment s = elim (strip_prefix (experiment <> "-") s) [
    | none ↦ none
    | some rest ↦
        let (digits, tail) = span decimal rest in
        if not (digits == "") && (tail == "" || tail == "\n") then some digits else none
  ]

  -- `str(recid or "")`
  abbrev pub recid_text : Value → String
  recid_text recid = if truthy recid then str recid else ""

  unfoldable pub is_digits : String → Bool
  is_digits s = not (s == "") && all_chars digit s

  -- The loop of `validate` over the forms of the recids.
  unfoldable pub check_forms : String → ℕ → List Fields → List Message
  check_forms experiment i [] = []
  check_forms experiment i (r ∷ rs) =
      let rest = check_forms experiment (suc i) rs in
      let recid = get "recid" r in
      if truthy recid && not (is_some (recid_number experiment (str recid)))
      then recid_format (suc i) recid ∷ rest
      else rest

  -- The dict `recid_by_number`, last entry first.
  unfoldable pub by_number :
      String → ℕ → List Fields → List (String × ℕ × Value) → List (String × ℕ × Value)
  by_number experiment i [] found = found
  by_number experiment i (r ∷ rs) found =
      let recid = get "recid" r in
      by_number experiment (suc i) rs (elim (recid_number experiment (recid_text recid)) [
        | none ↦ found
        | some n ↦ (n, i, recid) ∷ found
      ])

  unfoldable pub number_at : String → List (String × ℕ × Value) → Option (ℕ × Value)
  number_at n [] = none
  number_at n ((k, i, recid) ∷ found) = if k == n then some (i, recid) else number_at n found

  -- `_numeric_collisions`
  unfoldable pub collisions_in : List Pid → List (String × ℕ × Value) → List (ℕ × Value × Value)
  collisions_in [] found = []
  collisions_in (p ∷ ps) found =
      let rest = collisions_in ps found in
      if p.pid_type == "recid" && p.registered
      then (elim (number_at p.pid_value found) [
        | none ↦ rest
        | some (i, recid) ↦ (i, recid, text p.pid_value) ∷ rest
      ])
      else rest

  unfoldable pub numeric_collisions : List Pid → String → List Fields → List (ℕ × Value × Value)
  numeric_collisions table experiment records =
      collisions_in table (by_number experiment 0 records [])

  unfoldable pub validate_recids : List Pid → Metadata → Result (List Message)
  validate_recids table m = validate_pids table "recid" "recid" m.records m.status >>= λ errors.
      ok (
        errors
        ++ (check_forms m.experiment 0 m.records
            ++ map (λ (i, recid, existing). recid_collides (suc i) recid existing)
                (numeric_collisions table m.experiment m.records)))

  -- The body of the loop of `fix`: the record after it, and whether it took the counter's number.
  unfoldable pub fix_recid : String → List Value → List Value → ℕ → Fields → Result (Fields × Bool)
  fix_recid experiment duplicates colliding counter r =
      let recid = get "recid" r in
      let registered = has_value recid duplicates in
      let in_form = is_some (recid_number experiment (recid_text recid)) in
      if not (hashable recid)
      then raise type_error
      else ok (
          if not registered && (not (has_value recid colliding) && in_form)
          then (r, false)
          else if not registered && is_digits (recid_text recid)
          then (insert "recid" (text ((experiment <> "-") <> str recid)) r, false)
          else (insert "recid" (text ((experiment <> "-") <> show counter)) r, true))

  -- The loop, with the counter and `release.max_recid`.
  unfoldable pub fix_recids :
      String → List Value → List Value → ℕ → ℕ → List Fields → Result (List Fields × ℕ)
  fix_recids experiment duplicates colliding counter max_recid [] = ok ([], max_recid)
  fix_recids experiment duplicates colliding counter max_recid (r ∷ rs) =
      fix_recid experiment duplicates colliding counter r >>= λ fixed.
      fix_recids experiment duplicates colliding (if fixed.1 then suc counter else counter)
        (if fixed.1 then counter else max_recid) rs
      >>= λ rest. ok (fixed.0 ∷ rest.0, rest.1)

  unfoldable pub valid_recid : List Pid → ℕ → ℕ → ℕ → Validator
  unfolding validate_recids fix_recids next_recid_start
  valid_recid table max_release max_registered max_numeric = record {
    name = "Valid recid";
    experiment = none;
    optional = false;
    validate = validate_recids table;
    fix = some (λ m.
        let colliding =
          map (λ (i, recid, existing). recid) (numeric_collisions table m.experiment m.records) in
        fix_recids m.experiment (duplicate_pids table "recid" "recid" m.records) colliding
          (next_recid_start max_release max_registered max_numeric) m.max_recid m.records
        >>= λ r. ok (record m { records = r.0; max_recid = r.1 }, []));
    fixable = λ _. ok true;
  }
