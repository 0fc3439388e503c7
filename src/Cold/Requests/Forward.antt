-- ===== src/Cold/Requests/Forward.antt =====
-- What a round of `process_requests` (cernopendata/cold_storage/service.py) does to the requests.
use cernopendata_portal.Base.{
  ℕ, ◌+◌, ◌≤◌, ◌<◌, ◌≡◌, refl, sym, ◌∙◌, subst, ◌⊎◌, inl, inr, Bool, true, List, [], ◌∷◌, ◌++◌,
  string_eq, nat_eq, ◌&&◌, if◌then◌else◌, leb, ltb, arith,
}
use cernopendata_portal.Cold.Model.{
  action_eq, Transfer, Request, RequestStatus, submitted, started, completed,
}
use cernopendata_portal.Cold.Service.{is_submitted, taken_up}
use cernopendata_portal.Cold.Requests.{Mail, mail_for}

abbrev pub rank : RequestStatus → ℕ
rank submitted = 0
rank started = 1
rank completed = 2

-- A request as it was and as it is: what identifies it has stayed, its status has gone no way back,
-- and it has not changed at all if it was completed.
abbrev pub Forward : Request → Request → Type 0
Forward r r' =
    (r'.id ≡ r.id)
    × (r'.record_id ≡ r.record_id)
    × (r'.action ≡ r.action)
    × (r'.subscribers ≡ r.subscribers)
    × ((r' ≡ r) ⊎ ((rank r.status < 2) × (rank r.status ≤ rank r'.status)))

abbrev pub AllForward : List Request → List Request → Type 0
AllForward [] [] = Unit
AllForward (r ∷ rs) (r' ∷ rs') = Forward r r' × AllForward rs rs'
AllForward _ _ = ⊥

-- The mail that is due for a request: it is completed and was not, and has subscribers.
abbrev pub mail_due : Request → Request → List Mail
mail_due r r' =
    if ltb (rank r.status) 2 && leb 2 (rank r'.status) then mail_for r.id r.subscribers else []

abbrev pub mails_due : List Request → List Request → List Mail
mails_due (r ∷ rs) (r' ∷ rs') = mail_due r r' ++ mails_due rs rs'
mails_due _ _ = []

abbrev pub count : (Mail → Bool) → List Mail → ℕ
count p [] = 0
count p (m ∷ ms) = (if p m then 1 else 0) + count p ms

pub count-append :
    (p : Mail → Bool) (ms ns : List Mail) → count p (ms ++ ns) ≡ count p ms + count p ns
count-append p [] ns = omega arith
count-append p (m ∷ ms) ns = omega (arith, count-append p ms ns)

-- All requests go forward, and each mail that is due is sent as often as it is due.
abbrev pub IsRound : List Request → List Request → List Mail → Type 0
IsRound rs rs' mails =
    AllForward rs rs' × ((p : Mail → Bool) → count p mails ≡ count p (mails_due rs rs'))

pub Forward-same : (r : Request) → Forward r r
Forward-same r = (refl, refl, refl, refl, inl refl)

pub mail_due-same : (p : Mail → Bool) (r : Request) → count p (mail_due r r) ≡ 0
mail_due-same p r = ground arith

pub IsRound-same : (rs : List Request) → IsRound rs rs []
IsRound-same [] = (tt, λ p. refl)
IsRound-same (r ∷ rs) =
    let (forward, sent) = IsRound-same rs in
    (
      (Forward-same r, forward),
      λ p.
          omega (arith, count-append p (mail_due r r) (mails_due rs rs), mail_due-same p r, sent p),
    )

pub IsRound-next :
    (r r' : Request) (rs rs' : List Request) (ms ns : List Mail)
    → Forward r r'
    → ((p : Mail → Bool) → count p ms ≡ count p (mail_due r r'))
    → IsRound rs rs' ns
    → IsRound (r ∷ rs) (r' ∷ rs') (ms ++ ns)
IsRound-next r r' rs rs' ms ns step first (forward, sent) = (
  (step, forward),
  λ p. omega (
    arith,
    count-append p ms ns,
    count-append p (mail_due r r') (mails_due rs rs'),
    first p,
    sent p,
  ),
)

Forward-twice : (r r' r'' : Request) → Forward r r' → Forward r' r'' → Forward r r''
Forward-twice r r' r'' (i, u, a, s, inl same) next = subst (λ x. Forward x r'') same next
Forward-twice r r' r'' (i, u, a, s, inr (early, up)) (i', u', a', s', inl same) = (
  i' ∙ i,
  u' ∙ u,
  a' ∙ a,
  s' ∙ s,
  inr (early, subst (λ x. rank r.status ≤ rank x.status) (sym same) up),
)
Forward-twice r r' r'' (i, u, a, s, inr (early, up)) (i', u', a', s', inr (early', up')) =
    (i' ∙ i, u' ∙ u, a' ∙ a, s' ∙ s, inr (early, omega (arith, up, up')))

mail_due-twice :
    (p : Mail → Bool) (r r' r'' : Request)
    → Forward r r'
    → Forward r' r''
    → count p (mail_due r r'') ≡ count p (mail_due r r') + count p (mail_due r' r'')
mail_due-twice p r r' r'' (i, u, a, s, inl same) next =
    subst (λ x. count p (mail_due r r'') ≡ count p (mail_due r x) + count p (mail_due x r''))
      (sym same) (omega (arith, mail_due-same p r))
mail_due-twice p r r' r'' (i, u, a, s, inr (early, up)) (i', u', a', s', inl same) =
    subst (λ x. count p (mail_due r x) ≡ count p (mail_due r r') + count p (mail_due r' x))
      (sym same) (omega (arith, mail_due-same p r'))
mail_due-twice p r r' r'' (i, u, a, s, inr (early, up)) (i', u', a', s', inr (early', up')) =
    let none_yet : mail_due r r' ≡ [] = ground (arith, early') in
    rw none_yet (rw (i, s) (ground (arith, early, early')))

pub IsRound-twice :
    (rs rs' rs'' : List Request) (ms ns : List Mail)
    → IsRound rs rs' ms
    → IsRound rs' rs'' ns
    → IsRound rs rs'' (ms ++ ns)
IsRound-twice rs rs' rs'' ms ns (f, sent) (g, sent') =
    let (forward, due) = both rs rs' rs'' f g in
    (forward, λ p. omega (arith, count-append p ms ns, sent p, sent' p, due p))
  where
    both :
        (rs rs' rs'' : List Request)
        → AllForward rs rs'
        → AllForward rs' rs''
        → AllForward rs rs''
          × ((p : Mail → Bool)
              → count p (mails_due rs rs'')
                ≡ count p (mails_due rs rs') + count p (mails_due rs' rs''))
    both [] [] [] f g = (tt, λ p. refl)
    both (r ∷ rs) (r' ∷ rs') (r'' ∷ rs'') (a, f) (b, g) =
        let (forward, due) = both rs rs' rs'' f g in
        (
          (Forward-twice r r' r'' a b, forward),
          λ p. omega (
            arith,
            count-append p (mail_due r r'') (mails_due rs rs''),
            count-append p (mail_due r r') (mails_due rs rs'),
            count-append p (mail_due r' r'') (mails_due rs' rs''),
            mail_due-twice p r r' r'' a b,
            due p,
          ),
        )
    both [] (_ ∷ _) rs'' f g = elim f [ ]
    both (_ ∷ _) [] rs'' f g = elim f [ ]
    both [] [] (_ ∷ _) f g = elim g [ ]
    both (_ ∷ _) (_ ∷ _) [] f g = elim g [ ]

-- A request that was submitted is taken up or left.
pub Forward-taken_up :
    (r : Request) (info : List Transfer) (full : Bool)
    → is_submitted r.status ≡ true
    → Forward r (taken_up r info full)
      × ((p : Mail → Bool) → count p (mail_due r (taken_up r info full)) ≡ 0)
unfolding taken_up
Forward-taken_up r info full h =
    ((refl, refl, refl, refl, inr (ground (arith, h), ground (arith, h))), λ p. ground (arith, h))
