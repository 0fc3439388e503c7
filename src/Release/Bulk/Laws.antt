-- ===== src/Release/Bulk/Laws.antt =====
-- Release.bulk_update and Release.bulk_preview (modules/releases/api.py), record by record.
use cernopendata_portal.Base.{
  String, ◌≡◌, refl, sym, ◌∙◌, Bool, true, false, Option, none, some, List, [], ◌∷◌, string_eq,
  if◌then◌else◌, contains, arith,
}
use cernopendata_portal.Json.{Value, Fields, end, field}
use cernopendata_portal.Json.Dict.{lookup, insert, erase, has_key, lookup-insert, lookup-erase}
use cernopendata_portal.Release.Model.{bulk_immutable_fields}
use cernopendata_portal.Release.Bulk.{
  Updates, set_fields, delete_fields, update_record, preview_set, preview_delete, preview_record,
}

-- Deleting a key that a dict lacks leaves it as it is.
pub erase-absent : (k : String) (d : Fields) → has_key k d ≡ false → erase k d ≡ d
unfolding erase lookup
erase-absent k end h = refl
erase-absent k (field j w d) h = ground (arith, erase-absent k d)

set_fields-preview :
    (d : Fields) (r : Fields) (b : Bool) → (set_fields d (r, b)).0 ≡ preview_set d r
unfolding set_fields preview_set
set_fields-preview end r b = refl
set_fields-preview (field k v d) r b =
    ground (arith, set_fields-preview d r b, set_fields-preview d (insert k v r) true)

delete_fields-preview :
    (ks : List String) (r : Fields) (b : Bool) → (delete_fields ks (r, b)).0 ≡ preview_delete ks r
unfolding delete_fields preview_delete
delete_fields-preview [] r b = refl
delete_fields-preview (k ∷ ks) r b = ground (
  arith,
  erase-absent k r,
  delete_fields-preview ks r b,
  delete_fields-preview ks (erase k r) true,
)

preview-update_of :
    (s : Option Fields) (ks : Option (List String)) (r : Fields)
    → let u : Updates = record { set = s; delete = ks } in
      preview_record u r ≡ (update_record u r).0
unfolding preview_record update_record
preview-update_of none none r = refl
preview-update_of none (some ks) r = sym (delete_fields-preview ks r false)
preview-update_of (some d) none r = sym (set_fields-preview d r false)
preview-update_of (some d) (some ks) r =
    rw (← set_fields-preview d r false)
      (sym (delete_fields-preview ks (set_fields d (r, false)).0 (set_fields d (r, false)).1))

-- The record that the preview of a bulk update compares with the original is the one that the bulk
-- update writes, for any updates and any record.
pub preview-update : (u : Updates) (r : Fields) → preview_record u r ≡ (update_record u r).0
preview-update u r = preview-update_of u.set u.delete r

-- No key of the dict stands twice, as in a Python dict.
abbrev pub NodupKeys : Fields → Type 0
NodupKeys end = Unit
NodupKeys (field k v d) = (lookup k d ≡ none) × NodupKeys d

abbrev pub is_immutable : String → Bool
is_immutable k = contains k bulk_immutable_fields

abbrev pub or_old : Option Value → Option Value → Option Value
or_old none old = old
or_old (some v) old = some v

lookup-preview_set :
    (k : String) (d r : Fields)
    → NodupKeys d
    → lookup k (preview_set d r)
      ≡ (if is_immutable k then lookup k r else or_old (lookup k d) (lookup k r))
unfolding preview_set lookup
lookup-preview_set k end r u = ground arith
lookup-preview_set k (field j v d) r (fresh, u) = ground (
  arith,
  lookup-preview_set k d r u,
  lookup-preview_set k d (insert j v r) u,
  lookup-insert k j v r,
)

lookup-preview_delete :
    (k : String) (ks : List String) (r : Fields)
    → lookup k (preview_delete ks r)
      ≡ (if is_immutable k then lookup k r else if contains k ks then none else lookup k r)
unfolding preview_delete
lookup-preview_delete k [] r = ground arith
lookup-preview_delete k (j ∷ ks) r = ground (
  arith,
  lookup-preview_delete k ks r,
  lookup-preview_delete k ks (erase j r),
  lookup-erase k j r,
)

if_twice :
    (i c : Bool) (a b : Option Value)
    → (if i then (if i then a else b) else if c then none else if i then a else b)
      ≡ (if i then a else if c then none else b)
if_twice true c a b = refl
if_twice false c a b = refl

-- What a bulk update with both parts leaves under a key: the old value if the key is protected,
-- nothing if it is among the deleted keys, and else the value given for it or its old one; the
-- dict of new values holds no key twice.
pub lookup-update_record :
    (k : String) (d : Fields) (ks : List String) (r : Fields)
    → NodupKeys d
    → lookup k (update_record (record { set = some d; delete = some ks }) r).0 ≡ (
        if is_immutable k
        then lookup k r
        else if contains k ks
        then none
        else or_old (lookup k d) (lookup k r))
unfolding preview_record
lookup-update_record k d ks r u =
    rw (← preview-update (record { set = some d; delete = some ks }) r)
      (rw (lookup-preview_delete, lookup-preview_set k d r u) (if_twice (is_immutable k) _ _ _))

set_fields_unmodified :
    (d r : Fields) (b : Bool)
    → (set_fields d (r, b)).1 ≡ false
    → (b ≡ false) × ((set_fields d (r, b)).0 ≡ r)
unfolding set_fields
set_fields_unmodified end r b h = (h, refl)
set_fields_unmodified (field k v d) r b h =
    ground (arith, set_fields_unmodified d r b, set_fields_unmodified d (insert k v r) true)

delete_fields_unmodified :
    (ks : List String) (r : Fields) (b : Bool)
    → (delete_fields ks (r, b)).1 ≡ false
    → (b ≡ false) × ((delete_fields ks (r, b)).0 ≡ r)
unfolding delete_fields
delete_fields_unmodified [] r b h = (h, refl)
delete_fields_unmodified (k ∷ ks) r b h =
    ground (arith, delete_fields_unmodified ks r b, delete_fields_unmodified ks (erase k r) true)

unmodified_of :
    (s : Option Fields) (ks : Option (List String)) (r : Fields)
    → let u : Updates = record { set = s; delete = ks } in
      (update_record u r).1 ≡ false → (update_record u r).0 ≡ r
unfolding update_record
unmodified_of none none r h = refl
unmodified_of none (some ks) r h = (delete_fields_unmodified ks r false h).1
unmodified_of (some d) none r h = (set_fields_unmodified d r false h).1
unmodified_of (some d) (some ks) r h =
    let (r', b) = set_fields d (r, false) in
    let (clean, same) = delete_fields_unmodified ks r' b h in
    same ∙ (set_fields_unmodified d r false clean).1
