-- ===== src/Validation/Recid/Format.antt =====
-- The form of the recids and their fix (validations/recid.py).
use cernopendata_portal.Base.{
  ℕ, suc, ◌≤◌, String, ◌<>◌, ◌≡◌, refl, ◌≢◌, Bool, true, some, List, [], ◌∷◌, arith, All, is_some,
  string_eq, subst, sym, if◌then◌else◌, not, ◌&&◌, Bool-cases, inl, inr,
}
use cernopendata_portal.Base.Result.{ok, >>=-eq-ok, ok-injective, branch, raise-ne-ok, Returns}
use mathlib.Core.Bool.{false≢true, and-eq-true_iff}
use cernopendata_portal.Base.Text.{
  all_chars, show, strip_prefix-append, span-all, show-digits, show-ne-empty, append-ne-empty,
}
use cernopendata_portal.Json.{Value, text, Fields, truthy}
use cernopendata_portal.Json.Dict.{insert, lookup-insert_self}
use cernopendata_portal.Release.Edit.{get}
use cernopendata_portal.Release.Fix.{has_value}
use cernopendata_portal.Validation.Pid.{hashable}
use cernopendata_portal.Validation.Recid.{
  recid_number, recid_text, is_digits, fix_recid, fix_recids, check_forms,
}

module _ (decimal digit : ℕ → Bool) (str : Value → String)
    (digits : (c : ℕ) → b'0' ≤ c → c ≤ b'9' → decimal c ≡ true)
    (str-text : (s : String) → str (text s) ≡ s) (experiment : String) where
  -- A value of the required form, and a record whose recid has it.
  abbrev pub IsAccepted : Value → Type 0
  IsAccepted recid =
      is_some (recid_number decimal digit str experiment (recid_text decimal digit str recid))
      ≡ true

  abbrev pub InForm : Fields → Type 0
  InForm r = IsAccepted (get "recid" r)

  -- If the recid counts as digits, they are decimal ones.
  abbrev pub IsPlain : Fields → Type 0
  IsPlain r =
      is_digits decimal digit str (recid_text decimal digit str (get "recid" r)) ≡ true
      → all_chars decimal (recid_text decimal digit str (get "recid" r)) ≡ true

  recid_number-made :
      (s : String)
      → all_chars decimal s ≡ true
      → s ≢ ""
      → recid_number decimal digit str experiment ((experiment <> "-") <> s) ≡ some s
  unfolding string_eq recid_number
  recid_number-made s h ne =
      rw (recid_number, strip_prefix-append (experiment <> "-") s, span-all decimal s h) ground
        (arith, ne)

  truthy-text : (s : String) → s ≢ "" → truthy (text s) ≡ true
  unfolding truthy string_eq
  truthy-text s ne = ground (arith, ne)

  get-insert : (k : String) (v : Value) (r : Fields) → get k (insert k v r) ≡ v
  get-insert k v r = rw (get, lookup-insert_self k v r) refl

  -- The text that stands for a recid that the fix has made.
  made-InForm :
      (s t : String) (r : Fields)
      → t ≡ s
      → all_chars decimal s ≡ true
      → s ≢ ""
      → InForm (insert "recid" (text ((experiment <> "-") <> t)) r)
  made-InForm s t r e h ne =
      subst IsAccepted (sym (get-insert "recid" (text ((experiment <> "-") <> t)) r)) (
        rw
          (
            e,
            truthy-text ((experiment <> "-") <> s) (append-ne-empty (experiment <> "-") s ne),
            str-text ((experiment <> "-") <> s),
            recid_number-made s h ne,
          )
          refl)

  is_digits-ne-empty : (s : String) → is_digits decimal digit str s ≡ true → s ≢ ""
  unfolding is_digits string_eq
  is_digits-ne-empty s h e = false≢true (subst (λ t. is_digits decimal digit str t ≡ true) e h)

  -- A recid that counts as digits is what Python prints of it.
  digits-text :
      (recid : Value)
      → is_digits decimal digit str (recid_text decimal digit str recid) ≡ true
      → str recid ≡ recid_text decimal digit str recid
  digits-text recid h = elim (Bool-cases (truthy recid)) [
    | inl e ↦ rw e refl
    | inr e ↦ absurd (is_digits-ne-empty _ h (rw e refl))
  ]

  fix_recid-InForm :
      (duplicates colliding : List Value) (counter : ℕ) (r : Fields) (fixed : Fields × Bool)
      → IsPlain r
      → fix_recid decimal digit str experiment duplicates colliding counter r ≡ ok fixed
      → InForm fixed.0
  unfolding fix_recid
  fix_recid-InForm duplicates colliding counter r fixed plain h =
      let recid = get "recid" r in
      let new : InForm (insert "recid" (text ((experiment <> "-") <> show counter)) r) =
        made-InForm (show counter) _ r refl (show-digits decimal digits counter)
          (show-ne-empty counter) in
      branch (not (hashable recid)) _ _ h (λ e k. absurd (raise-ne-ok k))
        (λ e h'.
          branch
            (not (has_value recid duplicates)
              && (not (has_value recid colliding)
                  && is_some (
                      recid_number decimal digit str experiment
                        (recid_text decimal digit str recid))))
            _ _ (ok-injective h')
            (λ accepted k.
              subst (λ y. InForm y.0) k
                ((and-eq-true_iff _ _).0 ((and-eq-true_iff _ _).0 accepted).1).1)
            (λ e' h''.
              branch
                (not (has_value recid duplicates)
                  && is_digits decimal digit str (recid_text decimal digit str recid))
                _ _ h''
                (λ is k.
                  subst (λ y. InForm y.0) k
                    (made-InForm _ _ r (digits-text recid ((and-eq-true_iff _ _).0 is).1)
                      (plain ((and-eq-true_iff _ _).0 is).1)
                      (is_digits-ne-empty _ ((and-eq-true_iff _ _).0 is).1)))
                (λ isnt k. subst (λ y. InForm y.0) k new)))

  fix_recids-InForm :
      (duplicates colliding : List Value) (counter max_recid : ℕ) (rs : List Fields)
      → (r : List Fields × ℕ) → All IsPlain rs
      → fix_recids decimal digit str experiment duplicates colliding counter max_recid rs ≡ ok r
      → All InForm r.0
  unfolding fix_recids
  fix_recids-InForm duplicates colliding counter max_recid [] r plain h =
      subst (λ y. All InForm y.0) (ok-injective h) tt
  fix_recids-InForm duplicates colliding counter max_recid (x ∷ xs) r plain h =
      let (fixed, e, q) =
        >>=-eq-ok (fix_recid decimal digit str experiment duplicates colliding counter x) _ h in
      let (rest, e', q') =
        >>=-eq-ok
          (fix_recids decimal digit str experiment duplicates colliding
            (if fixed.1 then suc counter else counter) (if fixed.1 then counter else max_recid) xs)
          _ q in
      subst (λ y. All InForm y.0) (ok-injective q')
        (
          fix_recid-InForm duplicates colliding counter x fixed plain.0 e,
          fix_recids-InForm duplicates colliding (if fixed.1 then suc counter else counter)
              (if fixed.1 then counter else max_recid) xs rest plain.1 e',
        )

  abbrev pub HasHashable : Fields → Type 0
  HasHashable r = hashable (get "recid" r) ≡ true

  fix_recid-Returns :
      (duplicates colliding : List Value) (counter : ℕ) (r : Fields)
      → HasHashable r
      → Returns (fix_recid decimal digit str experiment duplicates colliding counter r)
  unfolding fix_recid
  fix_recid-Returns duplicates colliding counter r h = rw h (_, refl)

  fix_recids-Returns :
      (duplicates colliding : List Value) (counter max_recid : ℕ) (rs : List Fields)
      → All HasHashable rs
      → Returns (fix_recids decimal digit str experiment duplicates colliding counter max_recid rs)
  unfolding fix_recids
  fix_recids-Returns duplicates colliding counter max_recid [] h = (_, refl)
  fix_recids-Returns duplicates colliding counter max_recid (x ∷ xs) h =
      let (fixed, e) = fix_recid-Returns duplicates colliding counter x h.0 in
      let (rest, e') =
        fix_recids-Returns duplicates colliding (if fixed.1 then suc counter else counter)
          (if fixed.1 then counter else max_recid) xs h.1 in
      ((fixed.0 ∷ rest.0, rest.1), rw (e, e') refl)

  check_forms-InForm :
      (i : ℕ) (rs : List Fields)
      → All InForm rs
      → check_forms decimal digit str experiment i rs ≡ []
  unfolding check_forms
  check_forms-InForm i [] h = refl
  check_forms-InForm i (r ∷ rs) h =
      ground (arith, Bool-cases (truthy (get "recid" r)), h.0, check_forms-InForm (suc i) rs h.1)

  -- If every recid is hashable, and those that count as digits are decimal, then the fix of the
  -- recids returns, and the check of the forms of the recids finds no error in the records that it
  -- returns.
  pub fix_recids-check_forms :
      (duplicates colliding : List Value) (counter max_recid : ℕ) (rs : List Fields)
      → All HasHashable rs
      → All IsPlain rs
      → (r : List Fields × ℕ) × (fix_recids decimal digit str experiment duplicates colliding
            counter max_recid rs
          ≡ ok r)
        × (check_forms decimal digit str experiment 0 r.0 ≡ [])
  fix_recids-check_forms duplicates colliding counter max_recid rs h plain =
      let (r, e) = fix_recids-Returns duplicates colliding counter max_recid rs h in
      (
        r,
        e,
        check_forms-InForm 0 r.0
            (fix_recids-InForm duplicates colliding counter max_recid rs r plain e),
      )
