-- ===== src/Cold/Service/Budget.antt =====
-- RequestService.check_submitted (cold_storage/service.py) and the number of active transfers.
use mathlib.Core.List.{append-nil, append_assoc}
use cernopendata_portal.Base.{
  ℕ, ◌+◌, ◌-◌, ◌≤◌, ◌<◌, ◌≡◌, refl, sym, ◌∙◌, ap, subst, ◌⊎◌, inl, inr, Bool, true, false, not,
  none, some, List, [], ◌∷◌, ◌++◌, arith, length, length-append, keep_if, length-keep_if, ◌==◌,
  nat_eq, ◌&&◌,
}
use cernopendata_portal.Base.Result.{ok, >>=-eq-ok, ok-injective, branch}
use cernopendata_portal.Cold.Model.{Action, action_eq, Transfer, Request, Store, Site}
use cernopendata_portal.Cold.Manager.{move_record}
use cernopendata_portal.Cold.Manager.Bounded.{move_record-Added}
use cernopendata_portal.Cold.Service.{
  is_active, count_active, is_submitted, submit_requests, check_action,
}

length-keep_if-append :
    {A : Type 0} (p : A → Bool) (xs ys : List A)
    → length (keep_if p (xs ++ ys)) ≡ length (keep_if p xs) + length (keep_if p ys)
length-keep_if-append p [] ys = omega arith
length-keep_if-append p (x ∷ xs) ys = ground (arith, length-keep_if-append p xs ys)

count_active-append :
    (action : Action) (ts new : List Transfer)
    → count_active action (ts ++ new) ≤ count_active action ts + length new
count_active-append action ts new =
    omega (
      arith,
      length-keep_if-append (is_active action) ts new,
      length-keep_if (is_active action) new,
    )

module _ {W : Type 0} (site : Site W) where
  -- The transfers that the loop adds, and its count of them.
  abbrev Within : ℕ → ℕ → Store W → ℕ × List Request × Store W → Type 0
  Within most count s r =
      (new : List Transfer) × (r.2.transfers ≡ s.transfers ++ new)
      × (r.0 ≡ count + length new)
      × (r.0 ≤ most)

  submit_requests-Within :
      (action : Action) (most count : ℕ) (rs : List Request) (s : Store W)
      → (r : ℕ × List Request × Store W) → count < most
      → submit_requests site action most count rs s ≡ ok r
      → Within most count s r
  unfolding submit_requests
  submit_requests-Within action most count [] s r l h =
      subst (Within most count s) (ok-injective h)
        ([], sym (append-nil s.transfers), omega arith, omega (arith, l))
  submit_requests-Within action most count (q ∷ qs) s r l h =
      branch (not (is_submitted q.status && q.action == action)) _ _ h
        (λ _ k.
          let (rest, e, p) = >>=-eq-ok (submit_requests site action most count qs s) _ k in
          subst (Within most count s) (ok-injective p)
            (submit_requests-Within action most count qs s rest l e))
        (λ _ k.
          let (moved, e, p) =
            >>=-eq-ok
              (move_record site q.record_id none action true false false (most - count) q.file s) _
              k in
          let (table, bound) =
            move_record-Added site q.record_id none action true false false (most - count) q.file s
              moved e in
          let few : length moved.0 ≤ most - count = bound (omega (arith, l)) in
          let count' = count + length moved.0 in
          branch (most - count' == 0) _ _ p
            (λ _ p'.
              subst (Within most count s) (ok-injective p')
                (moved.0, table, refl, omega (arith, few, l)))
            (λ more p'.
              let (rest, e', z) =
                >>=-eq-ok (submit_requests site action most count' qs moved.1) _ p' in
              let (new, table', counted, within) =
                submit_requests-Within action most count' qs moved.1 rest (ground (arith, more))
                  e' in
              subst (Within most count s) (ok-injective z) (
                moved.0 ++ new,
                table' ∙ (ap (λ xs. xs ++ new) table ∙ append_assoc s.transfers moved.0 new),
                omega (arith, counted, length-append moved.0 new),
                within,
              )))

  -- A round of check_submitted for an action with a threshold that returns either leaves the table
  -- of transfers as it was, or leaves at most as many active transfers of the action as the
  -- threshold, whatever the requests and the files of their records.
  pub check_action_bounded :
      (threshold : ℕ) (action : Action) (rs : List Request) (s : Store W)
      → (r : List Request × Store W) → check_action site (some threshold) action rs s ≡ ok r
      → (r.1.transfers ≡ s.transfers) ⊎ (count_active action r.1.transfers ≤ threshold)
  unfolding check_action
  check_action_bounded threshold action rs s r h =
      let most = threshold - count_active action s.transfers in
      branch (most == 0) _ _ h (λ _ k. inl (ap (λ x. x.1.transfers) (sym (ok-injective k))))
        (λ some_left k.
          let (done, e, p) = >>=-eq-ok (submit_requests site action most 0 rs s) _ k in
          let left : 0 < most = ground (arith, some_left) in
          let (new, table, counted, within) =
            submit_requests-Within action most 0 rs s done left e in
          inr (
            subst (λ x. count_active action x.1.transfers ≤ threshold) (ok-injective p)
              (subst (λ ts. count_active action ts ≤ threshold) (sym table)
                (omega
                  (arith, count_active-append action s.transfers new, counted, within, left)))))
