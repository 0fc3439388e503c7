-- ===== src/Validation/Expected/Fixed.antt =====
-- Fix and check of a class that lists constants (validations/expected_fields.py).
use cernopendata_portal.Base.{
  ℕ, suc, String, ◌≡◌, refl, ◌≢◌, subst, true, Option, none, List, [], ◌∷◌, map, arith, All,
  string_eq,
}
use cernopendata_portal.Base.Result.{ok, >>=-eq-ok, ok-injective}
use cernopendata_portal.Json.{Value, obj, Fields, truthy}
use cernopendata_portal.Json.Equal.{equal}
use cernopendata_portal.Json.Python.{get_attr}
use cernopendata_portal.Release.Model.{Message, Metadata}
use cernopendata_portal.Validation.Expected.{
  Expected, get_nested, set_nested, check_field, fix_field, check_items, fix_items, check_all,
  fix_all, constant,
}
use cernopendata_portal.Validation.Expected.Nested.{get_nested-set_nested, lookup-set_nested}

-- A field with a constant for its expected value.
pub record Constant : Type 0 where
  pub key : String
  pub keys : List String
  pub value : Value

abbrev pub to_expected : Constant → Expected
to_expected c = constant (c.key ∷ c.keys) c.value

-- The constant is a value that Python takes for true, and equals itself (no key stands twice).
abbrev pub IsUsable : Constant → Type 0
IsUsable c = (truthy c.value ≡ true) × (equal c.value c.value ≡ true)

abbrev pub DistinctKeys : List Constant → Type 0
DistinctKeys [] = Unit
DistinctKeys (c ∷ cs) = All (λ c'. c.key ≢ c'.key) cs × DistinctKeys cs

-- An item holds the constant in its field.
abbrev pub Has : Constant → Fields → Type 0
Has c item = get_nested (c.key ∷ c.keys) (obj item) ≡ ok c.value

Has-set_nested :
    (c d : Constant) (item : Fields) {item' : Fields}
    → c.key ≢ d.key
    → Has c item
    → set_nested (d.key ∷ d.keys) d.value item ≡ ok item'
    → Has c item'
unfolding get_nested get_attr
Has-set_nested c d item ne h e =
    rw (lookup-set_nested c.key d.key d.keys d.value item ne e, get_attr) h

module _ (m : Metadata) (label : String) where
  pub fix_field-Has :
      (c : Constant) (i : ℕ) (item : Fields) (r : Fields × Option Message)
      → IsUsable c
      → fix_field label i item (c.key ∷ c.keys) c.value ≡ ok r
      → (set_nested (c.key ∷ c.keys) c.value item ≡ ok r.0) × (r.1 ≡ none)
  unfolding fix_field
  fix_field-Has c i item r u h =
      let (item', e, q) =
        >>=-eq-ok (set_nested (c.key ∷ c.keys) c.value item) _ (rw (u.0, fix_field) at h) in
      rw (← ok-injective q) (e, refl)

  fix_items-Has :
      (c : Constant) (i : ℕ) (items : List Fields) (r : List Fields × List Message)
      → IsUsable c
      → fix_items m label (to_expected c) i items ≡ ok r
      → All (Has c) r.0 × (r.1 ≡ [])
  unfolding fix_items
  fix_items-Has c i [] r u h = rw (← ok-injective h) (tt, refl)
  fix_items-Has c i (item ∷ items) r u h =
      let (fixed, e, q) = >>=-eq-ok (fix_field label i item (c.key ∷ c.keys) c.value) _ h in
      let (rest, e', q') = >>=-eq-ok (fix_items m label (to_expected c) (suc i) items) _ q in
      let (set, none_found) = fix_field-Has c i item fixed u e in
      let (held, clean) = fix_items-Has c (suc i) items rest u e' in
      rw (← ok-injective q', none_found)
        ((get_nested-set_nested c.key c.keys c.value item set, held), clean)

  fix_items-keeps :
      (c d : Constant) (i : ℕ) (items : List Fields) (r : List Fields × List Message)
      → IsUsable d
      → c.key ≢ d.key
      → All (Has c) items
      → fix_items m label (to_expected d) i items ≡ ok r
      → All (Has c) r.0
  unfolding fix_items
  fix_items-keeps c d i [] r u ne held h = rw (← ok-injective h) tt
  fix_items-keeps c d i (item ∷ items) r u ne held h =
      let (fixed, e, q) = >>=-eq-ok (fix_field label i item (d.key ∷ d.keys) d.value) _ h in
      let (rest, e', q') = >>=-eq-ok (fix_items m label (to_expected d) (suc i) items) _ q in
      let (set, none_found) = fix_field-Has d i item fixed u e in
      rw (← ok-injective q') (
        Has-set_nested c d item ne held.0 set,
        fix_items-keeps c d (suc i) items rest u ne held.1 e',
      )

  fix_all-keeps :
      (c : Constant) (cs : List Constant) (items : List Fields) (r : List Fields × List Message)
      → All IsUsable cs
      → All (λ d. c.key ≢ d.key) cs
      → All (Has c) items
      → fix_all m label (map to_expected cs) items ≡ ok r
      → All (Has c) r.0
  unfolding fix_all
  fix_all-keeps c [] items r u ne held h = rw (← ok-injective h) held
  fix_all-keeps c (d ∷ ds) items r u ne held h =
      let (fixed, e, q) = >>=-eq-ok (fix_items m label (to_expected d) 0 items) _ h in
      let (rest, e', q') = >>=-eq-ok (fix_all m label (map to_expected ds) fixed.0) _ q in
      rw (← ok-injective q') (
        fix_all-keeps c ds fixed.0 rest u.1 ne.1 (fix_items-keeps c d 0 items fixed u.0 ne.0 held e)
          e')

  fix_all-Has :
      (cs : List Constant) (items : List Fields) (r : List Fields × List Message)
      → All IsUsable cs
      → DistinctKeys cs
      → fix_all m label (map to_expected cs) items ≡ ok r
      → All (λ c. All (Has c) r.0) cs × (r.1 ≡ [])
  unfolding fix_all
  fix_all-Has [] items r u distinct h = rw (← ok-injective h) (tt, refl)
  fix_all-Has (c ∷ cs) items r u distinct h =
      let (fixed, e, q) = >>=-eq-ok (fix_items m label (to_expected c) 0 items) _ h in
      let (rest, e', q') = >>=-eq-ok (fix_all m label (map to_expected cs) fixed.0) _ q in
      let (held, clean) = fix_items-Has c 0 items fixed u.0 e in
      let (others, clean') = fix_all-Has cs fixed.0 rest u.1 distinct.1 e' in
      subst (λ x. All (λ d. All (Has d) x.0) (c ∷ cs) × (x.1 ≡ [])) (ok-injective q')
        ((fix_all-keeps c cs fixed.0 rest u.1 distinct.0 held e', others), rw clean clean')

  check_items-Has :
      (n : Metadata) (c : Constant) (i : ℕ) (items : List Fields)
      → IsUsable c
      → All (Has c) items
      → check_items n label (to_expected c) i items ≡ ok []
  unfolding check_items check_field
  check_items-Has n c i [] u held = refl
  check_items-Has n c i (item ∷ items) u held =
      ground (arith, held.0, check_items-Has n c (suc i) items u held.1)

  check_all-Has :
      (n : Metadata) (cs : List Constant) (items : List Fields)
      → All IsUsable cs
      → All (λ c. All (Has c) items) cs
      → check_all n label (map to_expected cs) items ≡ ok []
  unfolding check_all
  check_all-Has n [] items u held = refl
  check_all-Has n (c ∷ cs) items u held =
      rw (check_items-Has n c 0 items u.0 held.0, check_all-Has n cs items u.1 held.1)

  -- For constants that are true in Python and equal themselves, under different first keys: a fix
  -- of the expected fields that returns reports no error, and the check of the fixed entries finds
  -- none.
  pub fix_all-check_all :
      (n : Metadata) (cs : List Constant) (items : List Fields) (r : List Fields × List Message)
      → All IsUsable cs
      → DistinctKeys cs
      → fix_all m label (map to_expected cs) items ≡ ok r
      → (r.1 ≡ []) × (check_all n label (map to_expected cs) r.0 ≡ ok [])
  fix_all-check_all n cs items r u distinct h =
      let (held, clean) = fix_all-Has cs items r u distinct h in
      (clean, check_all-Has n cs r.0 u held)
