-- ===== src/Validation/Expected/Total.antt =====
-- When the fix of a class that lists constants (validations/expected_fields.py) returns.
use cernopendata_portal.Base.{
  ℕ, suc, String, ◌≡◌, refl, ◌≢◌, sym, subst, List, [], ◌∷◌, ◌++◌, map, All,
}
use cernopendata_portal.Base.Result.{ok, Returns, >>=-eq-ok, ok-injective}
use cernopendata_portal.Json.{Value, obj, Fields}
use cernopendata_portal.Json.Dict.{lookup, insert}
use cernopendata_portal.Release.Model.{Message, Metadata}
use cernopendata_portal.Validation.Expected.{
  sub_dict, set_nested, fix_field, fix_items, fix_all, check_all,
}
use cernopendata_portal.Validation.Expected.Nested.{lookup-set_nested}
use cernopendata_portal.Validation.Expected.Fixed.{
  Constant, to_expected, IsUsable, DistinctKeys, fix_field-Has, fix_all-check_all,
}

-- The item has dicts, or nothing, along the path of the constant.
abbrev pub Settable : Constant → Fields → Type 0
Settable c item = Returns (set_nested (c.key ∷ c.keys) c.value item)

-- Whether a path can be set depends only on what stands under its first key.
set_nested-Returns :
    (k : String) (ks : List String) (v : Value) (d d' : Fields)
    → lookup k d ≡ lookup k d'
    → Returns (set_nested (k ∷ ks) v d)
    → Returns (set_nested (k ∷ ks) v d')
unfolding set_nested
set_nested-Returns k [] v d d' same h = (insert k v d', refl)
set_nested-Returns k (k' ∷ ks) v d d' same h =
    let (e, found, rest) = >>=-eq-ok (sub_dict ks (lookup k d)) _ h.1 in
    let (sub, below, last) = >>=-eq-ok (set_nested (k' ∷ ks) v e) _ rest in
    (insert k (obj sub) d', rw (set_nested, ← same, found, below) refl)

Settable-set_nested :
    (c d : Constant) (item : Fields) {item' : Fields}
    → c.key ≢ d.key
    → Settable c item
    → set_nested (d.key ∷ d.keys) d.value item ≡ ok item'
    → Settable c item'
Settable-set_nested c d item {item'} ne h e =
    set_nested-Returns c.key c.keys c.value item item'
      (sym (lookup-set_nested c.key d.key d.keys d.value item ne e)) h

module _ (m : Metadata) (label : String) where
  fix_items-Returns :
      (c : Constant) (i : ℕ) (items : List Fields)
      → IsUsable c
      → All (Settable c) items
      → Returns (fix_items m label (to_expected c) i items)
  unfolding fix_items fix_field
  fix_items-Returns c i [] u h = (([], []), refl)
  fix_items-Returns c i (item ∷ items) u h =
      let (item', e) = h.0 in
      let (rest, e') = fix_items-Returns c (suc i) items u h.1 in
      ((item' ∷ rest.0, rest.1), rw (u.0, e, e') refl)

  fix_items-Settable :
      (c d : Constant) (i : ℕ) (items : List Fields) (r : List Fields × List Message)
      → IsUsable d
      → c.key ≢ d.key
      → All (Settable c) items
      → fix_items m label (to_expected d) i items ≡ ok r
      → All (Settable c) r.0
  unfolding fix_items
  fix_items-Settable c d i [] r u ne h e = subst (λ x. All (Settable c) x.0) (ok-injective e) tt
  fix_items-Settable c d i (item ∷ items) r u ne h e =
      let (fixed, p, q) = >>=-eq-ok (fix_field label i item (d.key ∷ d.keys) d.value) _ e in
      let (rest, p', q') = >>=-eq-ok (fix_items m label (to_expected d) (suc i) items) _ q in
      subst (λ x. All (Settable c) x.0) (ok-injective q')
        (
          Settable-set_nested c d item ne h.0 (fix_field-Has m label d i item fixed u p).0,
          fix_items-Settable c d (suc i) items rest u ne h.1 p',
        )

  All-Settable :
      (d : Constant) (cs : List Constant) (items : List Fields) (r : List Fields × List Message)
      → IsUsable d
      → All (λ c. d.key ≢ c.key) cs
      → All (λ c. All (Settable c) items) cs
      → fix_items m label (to_expected d) 0 items ≡ ok r
      → All (λ c. All (Settable c) r.0) cs
  All-Settable d [] items r u ne h e = tt
  All-Settable d (c ∷ cs) items r u ne h e = (
    fix_items-Settable c d 0 items r u (λ p. ne.0 (sym p)) h.0 e,
    All-Settable d cs items r u ne.1 h.1 e,
  )

  fix_all-Returns :
      (cs : List Constant) (items : List Fields)
      → All IsUsable cs
      → DistinctKeys cs
      → All (λ c. All (Settable c) items) cs
      → Returns (fix_all m label (map to_expected cs) items)
  unfolding fix_all
  fix_all-Returns [] items u distinct h = ((items, []), refl)
  fix_all-Returns (c ∷ cs) items u distinct h =
      let (fixed, e) = fix_items-Returns c 0 items u.0 h.0 in
      let (rest, e') =
        fix_all-Returns cs fixed.0 u.1 distinct.1
          (All-Settable c cs items fixed u.0 distinct.0 h.1 e) in
      ((rest.0, fixed.1 ++ rest.1), rw (e, e') refl)

  -- For constants that are true in Python and equal themselves, under different first keys, each
  -- of which can be set in every item (it finds dicts or nothing along its path): the fix of the
  -- expected fields returns and reports no error, and the check of the fixed entries finds none.
  pub fix_all_completes :
      (n : Metadata) (cs : List Constant) (items : List Fields)
      → All IsUsable cs
      → DistinctKeys cs
      → All (λ c. All (Settable c) items) cs
      → (r : List Fields × List Message) × (fix_all m label (map to_expected cs) items ≡ ok r)
        × (r.1 ≡ [])
        × (check_all n label (map to_expected cs) r.0 ≡ ok [])
  fix_all_completes n cs items u distinct h =
      let (r, e) = fix_all-Returns cs items u distinct h in
      let (clean, found) = fix_all-check_all m label n cs items r u distinct e in
      (r, e, clean, found)
