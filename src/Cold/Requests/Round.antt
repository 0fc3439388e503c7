-- ===== src/Cold/Requests/Round.antt =====
-- A round of `process_requests` (cernopendata/cold_storage/service.py): check_submitted, then
-- check_running.
use cernopendata_portal.Base.{
  ℕ, ◌+◌, ◌-◌, ◌≡◌, refl, sym, subst, inl, inr, Bool, true, false, not, Option, none, some, List,
  [], ◌∷◌, ◌==◌, string_eq, nat_eq, ◌&&◌, length, arith, Bool-cases,
}
use cernopendata_portal.Base.Result.{ok, >>=-eq-ok, ok-injective, branch}
use cernopendata_portal.Cold.Model.{
  Action, stage, archive, clear_hot, action_eq, Transfer, Request, Store, Site,
}
use cernopendata_portal.Cold.Manager.{move_record}
use cernopendata_portal.Cold.Service.{
  is_submitted, count_active, taken_up, submit_requests, check_action, check_submitted,
  threshold_of,
}
use cernopendata_portal.Cold.Requests.Forward.{
  IsRound, IsRound-same, IsRound-next, IsRound-twice, Forward, Forward-same, Forward-taken_up,
  mail_due, mail_due-same, count,
}
use cernopendata_portal.Cold.Requests.{
  Mail, RecordCatalog, failed_transfers_count, mark_as_completed, is_complete, is_started,
  check_request, check_requests, check_running, process_requests,
}

module _ {W : Type 0} (site : Site W) where
  submit_requests-IsRound :
      (action : Action) (most n : ℕ) (rs : List Request) (s : Store W)
      {r : ℕ × List Request × Store W}
      → submit_requests site action most n rs s ≡ ok r
      → IsRound rs r.1 []
  unfolding submit_requests
  submit_requests-IsRound action most n [] s e =
      subst (λ x. IsRound [] x.1 []) (ok-injective e) (IsRound-same [])
  submit_requests-IsRound action most n (r ∷ rs) s e =
      branch (not (is_submitted r.status && r.action == action)) _ _ e
        (λ p k.
          let (rest, did, k₁) = >>=-eq-ok (submit_requests site action most n rs s) _ k in
          subst (λ x. IsRound (r ∷ rs) x.1 []) (ok-injective k₁)
            (IsRound-next r r rs rest.1 [] [] (Forward-same r) (λ q. sym (mail_due-same q r))
              (submit_requests-IsRound action most n rs s did)))
        (λ p k.
          let (moved, _, k₁) =
            >>=-eq-ok
              (move_record site r.record_id none action true false false (most - n) r.file s) _ k in
          let n' = n + length moved.0 in
          let r' = taken_up r moved.0 (most == n') in
          let (step, quiet) = Forward-taken_up r moved.0 (most == n') (ground (arith, p)) in
          branch (most - n' == 0) _ _ k₁
            (λ _ k₂.
              subst (λ x. IsRound (r ∷ rs) x.1 []) (ok-injective k₂)
                (IsRound-next r r' rs rs [] [] step (λ q. sym (quiet q)) (IsRound-same rs)))
            (λ _ k₂.
              let (rest, did, k₃) =
                >>=-eq-ok (submit_requests site action most n' rs moved.1) _ k₂ in
              subst (λ x. IsRound (r ∷ rs) x.1 []) (ok-injective k₃)
                (IsRound-next r r' rs rest.1 [] [] step (λ q. sym (quiet q))
                  (submit_requests-IsRound action most n' rs moved.1 did))))

  check_action-IsRound :
      (threshold : Option ℕ) (action : Action) (rs : List Request) (s : Store W)
      {r : List Request × Store W}
      → check_action site threshold action rs s ≡ ok r
      → IsRound rs r.0 []
  unfolding check_action
  check_action-IsRound none action rs s e =
      subst (λ x. IsRound rs x.0 []) (ok-injective e) (IsRound-same rs)
  check_action-IsRound (some threshold) action rs s e =
      branch (threshold - count_active action s.transfers == 0) _ _ e
        (λ _ k. subst (λ x. IsRound rs x.0 []) (ok-injective k) (IsRound-same rs))
        (λ _ k.
          let most = threshold - count_active action s.transfers in
          let (done, did, k₁) = >>=-eq-ok (submit_requests site action most 0 rs s) _ k in
          subst (λ x. IsRound rs x.0 []) (ok-injective k₁)
            (submit_requests-IsRound action most 0 rs s did))

  check_submitted-IsRound :
      (staging archiving : ℕ) (rs : List Request) (s : Store W) {r : List Request × Store W}
      → check_submitted site staging archiving rs s ≡ ok r
      → IsRound rs r.0 []
  unfolding check_submitted
  check_submitted-IsRound staging archiving rs s {r} e =
      let (a, did, e₁) =
        >>=-eq-ok (check_action site (threshold_of staging archiving stage) stage rs s) _ e in
      let (b, did', e₂) =
        >>=-eq-ok (check_action site (threshold_of staging archiving archive) archive a.0 a.1) _
          e₁ in
      IsRound-twice rs a.0 r.0 [] []
        (check_action-IsRound (threshold_of staging archiving stage) stage rs s did)
        (IsRound-twice a.0 b.0 r.0 [] []
          (check_action-IsRound (threshold_of staging archiving archive) archive a.0 a.1 did')
          (check_action-IsRound (threshold_of staging archiving clear_hot) clear_hot b.0 b.1 e₂))

Forward-check_request :
    {W : Type 0} (catalog : RecordCatalog W) (action : Action) (transfers : List Transfer)
    (r : Request) (w : W)
    → {q : (Request × List Mail) × W} → is_started r.status ≡ true
    → check_request catalog action transfers r w ≡ ok q
    → Forward r q.0.0 × ((p : Mail → Bool) → count p q.0.1 ≡ count p (mail_due r q.0.0))
unfolding check_request mark_as_completed
Forward-check_request catalog action transfers r w begun e =
    let (answer, _, e₁) = >>=-eq-ok (is_complete catalog action r.record_id w) _ e in
    let r' = record r { num_failed_transfers = failed_transfers_count r.record_id transfers } in
    subst (λ q. Forward r q.0.0 × ((p : Mail → Bool) → count p q.0.1 ≡ count p (mail_due r q.0.0)))
      (ok-injective e₁)
      (elim (Bool-cases answer.0) [
        | inl finished ↦ rw finished (
          (refl, refl, refl, refl, inr (ground (arith, begun), ground (arith, begun))),
          λ p. ground (arith, begun),
        )
        | inr waits ↦ rw waits (
          (refl, refl, refl, refl, inr (ground (arith, begun), omega arith)),
          λ p. ground (arith, begun),
        )
      ])

module _ {W : Type 0} (catalog : RecordCatalog W) where
  check_requests-IsRound :
      (action : Action) (transfers : List Transfer) (rs : List Request) (w : W)
      → {q : (List Request × List Mail) × W} → check_requests catalog action transfers rs w ≡ ok q
      → IsRound rs q.0.0 q.0.1
  unfolding check_requests
  check_requests-IsRound action transfers [] w e =
      subst (λ x. IsRound [] x.0.0 x.0.1) (ok-injective e) (IsRound-same [])
  check_requests-IsRound action transfers (r ∷ rs) w e =
      branch (is_started r.status && r.action == action) _ _ e
        (λ p k.
          let (now, did, k₁) = >>=-eq-ok (check_request catalog action transfers r w) _ k in
          let (rest, did', k₂) =
            >>=-eq-ok (check_requests catalog action transfers rs now.1) _ k₁ in
          let (step, due) =
            Forward-check_request catalog action transfers r w (ground (arith, p)) did in
          subst (λ x. IsRound (r ∷ rs) x.0.0 x.0.1) (ok-injective k₂)
            (IsRound-next r now.0.0 rs rest.0.0 now.0.1 rest.0.1 step due
              (check_requests-IsRound action transfers rs now.1 did')))
        (λ p k.
          let (rest, did, k₁) = >>=-eq-ok (check_requests catalog action transfers rs w) _ k in
          subst (λ x. IsRound (r ∷ rs) x.0.0 x.0.1) (ok-injective k₁)
            (IsRound-next r r rs rest.0.0 [] rest.0.1 (Forward-same r)
              (λ q. sym (mail_due-same q r)) (check_requests-IsRound action transfers rs w did)))

  check_running-IsRound :
      (transfers : List Transfer) (rs : List Request) (w : W)
      → {q : (List Request × List Mail) × W} → check_running catalog transfers rs w ≡ ok q
      → IsRound rs q.0.0 q.0.1
  unfolding check_running
  check_running-IsRound transfers rs w e =
      let (a, did, e₁) = >>=-eq-ok (check_requests catalog stage transfers rs w) _ e in
      let (b, did', e₂) = >>=-eq-ok (check_requests catalog archive transfers a.0.0 a.1) _ e₁ in
      let (c, did'', e₃) = >>=-eq-ok (check_requests catalog clear_hot transfers b.0.0 b.1) _ e₂ in
      subst (λ x. IsRound rs x.0.0 x.0.1) (ok-injective e₃)
        (IsRound-twice rs a.0.0 c.0.0 a.0.1 _ (check_requests-IsRound stage transfers rs w did) (
          IsRound-twice a.0.0 b.0.0 c.0.0 b.0.1 c.0.1
            (check_requests-IsRound archive transfers a.0.0 a.1 did')
            (check_requests-IsRound clear_hot transfers b.0.0 b.1 did'')))

-- In a round of process_requests that returns, every request keeps its id, record, action and
-- subscribers, its status goes no way back, a completed request does not change, and the mails
-- that are sent are exactly one for each request with subscribers that was completed in the round.
pub process_requests-IsRound :
    {W : Type 0} (site : Site W) (catalog : RecordCatalog (Store W)) (staging archiving : ℕ)
    → (rs : List Request) (s : Store W) {q : (List Request × List Mail) × Store W}
    → process_requests site catalog staging archiving rs s ≡ ok q
    → IsRound rs q.0.0 q.0.1
unfolding process_requests
process_requests-IsRound site catalog staging archiving rs s {q} e =
    let (taken, did, e₁) = >>=-eq-ok (check_submitted site staging archiving rs s) _ e in
    IsRound-twice rs taken.0 q.0.0 [] q.0.1
      (check_submitted-IsRound site staging archiving rs s did)
      (check_running-IsRound catalog taken.1.transfers taken.0 taken.1 e₁)
