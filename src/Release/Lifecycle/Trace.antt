-- ===== src/Release/Lifecycle/Trace.antt =====
-- Histories of a release: how they grow by Release.change_status (modules/releases/api.py).
use cernopendata_portal.Base.{
  ℕ, ◌≡◌, refl, sym, ap, ◌∙◌, ◌⊎◌, inl, inr, List, [], ◌∷◌, ◌++◌, length,
}
use cernopendata_portal.Base.Result.{ok}
use cernopendata_portal.Release.Model.{Status, draft, ready, Event, Metadata, Validator}
use cernopendata_portal.Release.Validate.{change_status, validate}
use cernopendata_portal.Release.Validate.Outcome.{validate_keeps, validate_status}
use cernopendata_portal.Release.Lifecycle.{Allowed, Follows, last_status, IsSound}

Follows-append :
    (s : Status) (es : List Event) (e : Event)
    → Follows s es
    → Allowed (last_status s es) e.status
    → Follows s (es ++ (e ∷ []))
Follows-append s [] e f a = (a, tt)
Follows-append s (x ∷ es) e f a = (f.0, Follows-append x.status es e f.1 a)

last_status-append :
    (s : Status) (es : List Event) (e : Event) → last_status s (es ++ (e ∷ [])) ≡ e.status
last_status-append s [] e = refl
last_status-append s (x ∷ es) e = last_status-append x.status es e

-- A change of status that is allowed keeps the row sound.
pub change_status-IsSound :
    (s : Status) (user : ℕ) (m : Metadata)
    → IsSound m
    → Allowed m.status s
    → IsSound (change_status s user m)
unfolding change_status
change_status-IsSound s user m h a =
    let e : Event = record { status = s; user_id = user } in
    record {
      follows = Follows-append draft m.history e h.follows (rw h.latest a);
      latest = last_status-append draft m.history e;
      records_counted = h.records_counted;
      documents_counted = h.documents_counted;
    }

ready_or_draft-Allowed : (old s : Status) → (s ≡ ready) ⊎ (s ≡ draft) → Allowed old s
ready_or_draft-Allowed old s (inl p) = rw p tt
ready_or_draft-Allowed old s (inr p) = rw p tt

-- So does a validation, whatever the counts of records before it.
pub validate-IsSound :
    (registry : List Validator) (user : ℕ) (m : Metadata) {m' : Metadata}
    → Follows draft m.history
    → last_status draft m.history ≡ m.status
    → m.num_docs ≡ length m.documents
    → validate registry user m ≡ ok m'
    → IsSound m'
validate-IsSound registry user m {m'} f l d h =
    let (records, documents, _, _, num_docs, num_records, history) =
      validate_keeps user registry m h in
    let e : Event = record { status = m'.status; user_id = user } in
    let allowed = ready_or_draft-Allowed m.status m'.status (validate_status registry user m h) in
    record {
      follows = rw history (Follows-append draft m.history e f (rw l allowed));
      latest = rw history (last_status-append draft m.history e);
      records_counted = num_records ∙ ap length (sym records);
      documents_counted = num_docs ∙ d ∙ ap length (sym documents);
    }
