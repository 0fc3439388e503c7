-- ===== src/Base/Result.antt =====
-- A Python call: it returns a value, or it raises.
use Prim.Native.String.{String}
use mathlib.Core.Option.{Option, none, some}
use mathlib.Core.Logic.{◌⊎◌, inl, inr}
use mathlib.Core.Path.{◌≡◌, refl}
use mathlib.Core.Bool.{Bool, true, false}
use cernopendata_portal.Base.Equality.{if◌then◌else◌}

-- `key_error` names the missing key; `foreign` is what code outside the model raised.
pub data Exn : Type 0 where
  key_error : String → Exn
  type_error index_error assertion_error attribute_error name_error value_error not_implemented :
      Exn
  runtime_error : String → Exn
  foreign : String → Exn

pub data Result {ℓ} (A : Type ℓ) : Type ℓ where
  ok : A → Result A
  raise : Exn → Result A

infixl 5 ◌>>=◌
abbrev pub ◌>>=◌ {ℓ κ} : {A : Type ℓ} {B : Type κ} → Result A → (A → Result B) → Result B
ok a >>= f = f a
raise e >>= f = raise e

-- `d[key]`
abbrev pub or_key_error {ℓ} : {A : Type ℓ} → String → Option A → Result A
or_key_error key none = raise (key_error key)
or_key_error key (some a) = ok a

-- Inversion of a chain that returned a value.
pub >>=-eq-ok {ℓ κ} :
    {A : Type ℓ} {B : Type κ} (r : Result A) (f : A → Result B) {b : B}
    → (r >>= f) ≡ ok b
    → (a : A) × (r ≡ ok a) × (f a ≡ ok b)
>>=-eq-ok (ok a) f h = (a, refl, h)
>>=-eq-ok (raise e) f h = cc

pub ok-injective {ℓ} : {A : Type ℓ} {a b : A} → ok a ≡ ok b → a ≡ b
ok-injective h = cc

pub raise-ne-ok {ℓ} : {A : Type ℓ} {e : Exn} {a : A} → ¬ (raise e ≡ ok a)
raise-ne-ok h = cc

pub Result-cases {ℓ} :
    {A : Type ℓ} (r : Result A) → ((a : A) × (r ≡ ok a)) ⊎ ((e : Exn) × (r ≡ raise e))
Result-cases (ok a) = inl (a, refl)
Result-cases (raise e) = inr (e, refl)

-- The two cases of a test that gave a known result.
pub branch {ℓ κ} :
    {A : Type ℓ} {Q : Type κ} (b : Bool) (x y : A) {z : A}
    → (if b then x else y) ≡ z
    → (b ≡ true → x ≡ z → Q)
    → (b ≡ false → y ≡ z → Q)
    → Q
branch true x y h f g = f refl h
branch false x y h f g = g refl h

abbrev pub Returns {ℓ} : {A : Type ℓ} → Result A → Type ℓ
Returns {A = A} r = (a : A) × (r ≡ ok a)
