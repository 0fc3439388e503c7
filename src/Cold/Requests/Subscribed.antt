-- ===== src/Cold/Requests/Subscribed.antt =====
-- Subscribing to a request again (`Request.subscribe` of cernopendata/cold_storage/api.py).
use cernopendata_portal.Base.{
  ℕ, String, ◌≡◌, refl, subst, Bool, true, false, Option, List, [], ◌∷◌, ◌++◌, ◌==◌, string_eq,
  nat_eq, contains, arith,
}
use cernopendata_portal.Base.Result.{ok, >>=-eq-ok, ok-injective, raise-ne-ok, branch}
use cernopendata_portal.Cold.Model.{Request}
use cernopendata_portal.Cold.Requests.{validate_email_address, subscribe_address, subscribe}

contains-append_last : (a : String) (xs : List String) → contains a (xs ++ (a ∷ [])) ≡ true
contains-append_last a [] = ground arith
contains-append_last a (x ∷ xs) = ground (arith, contains-append_last a xs)

abbrev Again : ℕ → String → Bool × List Request → Type 0
Again id address q = subscribe_address id address q.1 ≡ ok (false, q.1)

-- The request that is found has the address.
subscribed_head :
    (id : ℕ) (address : String) (r : Request) (rs : List Request) (b : Bool)
    → (r.id == id) ≡ true
    → contains address r.subscribers ≡ true
    → Again id address (b, r ∷ rs)
unfolding subscribe_address
subscribed_head id address r rs b found has = rw (found, has) refl

subscribe_address-Again :
    (id : ℕ) (address : String) (rs : List Request) {q : Bool × List Request}
    → subscribe_address id address rs ≡ ok q
    → Again id address q
unfolding subscribe_address
subscribe_address-Again id address [] e = absurd (raise-ne-ok e)
subscribe_address-Again id address (r ∷ rs) e =
    branch (r.id == id) _ _ e
      (λ found k.
        branch (contains address r.subscribers) _ _ k
          (λ has k₁.
            subst (Again id address) (ok-injective k₁)
              (subscribed_head id address r rs false found has))
          (λ new k₁. subst (Again id address) (ok-injective k₁) (
            subscribed_head id address (record r { subscribers = r.subscribers ++ (address ∷ []) })
              rs true found (contains-append_last address r.subscribers))))
      (λ other k.
        let (rest, did, k₁) = >>=-eq-ok (subscribe_address id address rs) _ k in
        subst (Again id address) (ok-injective k₁)
          (rw (other, subscribe_address-Again id address rs did) refl))

-- Where subscribing an address to a request returns, subscribing it once more tells that it was
-- there already, and changes nothing.
pub subscribe_twice :
    (email_of : String → Option String) (id : ℕ) (email : String) (rs rs' : List Request) {b : Bool}
    → subscribe email_of id email rs ≡ ok (b, rs')
    → subscribe email_of id email rs' ≡ ok (false, rs')
unfolding subscribe
subscribe_twice email_of id email rs rs' {b} e =
    let (address, valid, e₁) = >>=-eq-ok (validate_email_address email_of email) _ e in
    rw valid (
      branch (address == "") _ _ e₁ (λ empty k. rw empty refl)
        (λ given k. rw given (subscribe_address-Again id address rs k)))
