-- ===== src/Release/Fix.antt =====
-- `Release.fix_checks` and `Release.generate_doi` (cernopendata/modules/releases/api.py).
use cernopendata_portal.Base.{
  ℕ, String, Bool, true, false, not, Option, none, some, List, [], ◌∷◌, ◌++◌, ◌&&◌, is_empty,
  if◌then◌else◌,
}
use cernopendata_portal.Base.Result.{
  Exn, Result, ok, raise, attribute_error, not_implemented, ◌>>=◌,
}
use cernopendata_portal.Json.{Value, text, Fields, truthy}
use cernopendata_portal.Json.Dict.{insert, erase}
use cernopendata_portal.Json.Equal.{equal}
use cernopendata_portal.Release.Model.{draft, Message, Check, Metadata, Validator}
use cernopendata_portal.Release.Validate.{change_status, validate, validator_of}
use cernopendata_portal.Release.Edit.{get}

module _ (registry : List Validator) where
  -- `ReleaseValidation.fixable` and `ReleaseValidation.fix`
  unfoldable pub fixable : String → Metadata → Result Bool
  unfolding validator_of
  fixable name m = elim (validator_of registry name) [
    | none ↦ raise attribute_error
    | some v ↦ v.fixable m
  ]

  unfoldable pub fix : String → Metadata → Result (Metadata × List Message)
  unfolding validator_of
  fix name m = elim (validator_of registry name) [
    | none ↦ raise attribute_error
    | some v ↦ elim v.fix [ none ↦ raise not_implemented | some f ↦ f m ]
  ]

  -- The body of the loop of `fix_checks`, on the release and the errors so far.
  unfoldable pub fix_one : Check → Metadata × List Message → Result (Metadata × List Message)
  unfolding fix fixable
  fix_one c (m, errors) =
      if not c.status && c.enabled
      then (do
        fixes ← fixable c.name m
        if fixes
            then (fix c.name m >>= λ fixed. ok (fixed.0, errors ++ fixed.1))
            else ok (m, errors))
      else ok (m, errors)

  unfoldable pub fix_all : List Check → Metadata × List Message → Result (Metadata × List Message)
  fix_all [] state = ok state
  fix_all (c ∷ cs) state = fix_one c state >>= λ next. fix_all cs next

  -- What `fix_checks` does after the loop. The counter `num_errors` is not set in the first case.
  unfoldable pub after_fix : ℕ → Metadata × List Message → Result Metadata
  after_fix user (m, errors) =
      if is_empty errors
      then validate registry user m
      else ok (change_status draft user (record m { errors = errors }))

  unfoldable pub fix_checks : ℕ → Metadata → Result Metadata
  fix_checks user m = fix_all m.validations (m, []) >>= after_fix user

-- `contains` for a JSON value among those of a list.
unfoldable pub has_value : Value → List Value → Bool
has_value v [] = false
has_value v (w ∷ ws) = if equal v w then true else has_value v ws

-- `Release.generate_doi`. `mint` is the DOI generator with the state that it draws from, and
-- `validate_datacite` the check of the record's DataCite form.
module _ {W : Type 0} (mint : W → String × W) (validate_datacite : Fields → Result (Unit {0})) where
  -- The body of the loop: the record, an error if there is one, and the generator's state.
  unfoldable pub mint_record : List Value → Fields → W → Fields × Option (Value × Exn) × W
  mint_record recids r w =
      let (doi, w') = mint w in
      let minted = insert "doi" (text doi) r in
      if not (has_value (get "recid" r) recids)
      then (r, none, w)
      else if truthy (get "doi" r)
      then (r, none, w)
      else (elim (validate_datacite minted) [
        | ok _ ↦ (minted, none, w')
        | raise e ↦ (erase "doi" minted, some (get "recid" r, e), w')
      ])

  unfoldable pub mint_all : List Value → List Fields → W → List Fields × List (Value × Exn) × W
  mint_all recids [] w = ([], [], w)
  mint_all recids (r ∷ rs) w =
      let (r', error, w₁) = mint_record recids r w in
      let (rs', errors, w₂) = mint_all recids rs w₁ in
      (r' ∷ rs', (elim error [ none ↦ errors | some e ↦ e ∷ errors ]), w₂)

  unfoldable pub generate_doi : List Value → Metadata → W → Metadata × List (Value × Exn) × W
  generate_doi recids m w =
      let (records, errors, w') = mint_all recids m.records w in
      (record m { records = records }, errors, w')
