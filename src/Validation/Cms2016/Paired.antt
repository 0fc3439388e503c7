-- ===== src/Validation/Cms2016/Paired.antt =====
-- The relations between the two tiers of a dataset (validations/cms_2016.py).
use mathlib.Core.List.{Memᴰ}
use mathlib.Core.List.Memᴰ
use cernopendata_portal.Base.{
  String, ◌≡◌, refl, sym, ap, subst, ◌∙◌, true, ◌&&◌, Option, none, some, List, [], ◌∷◌, string_eq,
  All, inl, inr, arith, Bool-cases,
}
use cernopendata_portal.Base.Result.{ok, Returns}
use cernopendata_portal.Json.{Value, Fields}
use cernopendata_portal.Json.Dict.{lookup}
use cernopendata_portal.Validation.Cms2016.{
  RecordType, mini, nano, parse_title, title_of, find_dataset, same, relation, counterpart,
  get_relations,
}

abbrev pub tier_of : RecordType → String
tier_of mini = "MINIAODSIM"
tier_of nano = "NANOAODSIM"

abbrev pub short_name : RecordType → String
short_name mini = "MINI"
short_name nano = "NANO"

abbrev pub other : RecordType → RecordType
other mini = nano
other nano = mini

-- The type of the relation in a record of a tier.
abbrev pub relation_type : RecordType → String
relation_type mini = "isChildOf"
relation_type nano = "isParentOf"

-- Every title is a text, and no two records have both the same dataset and the same tier.
abbrev pub AreTitled : List Fields → Type 0
AreTitled = All (λ r. Returns (parse_title (title_of r)))

abbrev pub AreDistinct : List Fields → Type 0
AreDistinct [] = Unit
AreDistinct (r ∷ rs) =
    All (λ s. ¬ (parse_title (title_of r) ≡ parse_title (title_of s))) rs × AreDistinct rs

same_refl : (a : Option String) → same a a ≡ true
same_refl none = refl
same_refl (some s) = ground arith

same-true : (a b : Option String) → same a b ≡ true → a ≡ b
same-true none none h = refl
same-true none (some t) h = cc
same-true (some s) none h = cc
same-true (some s) (some t) h = ground (arith, h)

both-true :
    (q : Option String × Option String) (d t : Option String)
    → (same q.0 d && same q.1 t) ≡ true
    → q ≡ (d, t)
both-true (a, b) d t h = elim (Bool-cases (same a d)) [
  | inr differ ↦ absurd (ground (arith, h, differ))
  | inl agree ↦ rw (same-true a d agree, same-true b t (ground (arith, h, agree))) refl
]

All-Memᴰ : (P : Fields → Type 0) {x : Fields} (xs : List Fields) → All P xs → Memᴰ x xs → P x
All-Memᴰ P [] h m = absurd (Memᴰ.not-nil m)
All-Memᴰ P (y ∷ xs) h m = elim (Memᴰ.cases_cons m) [
  | inl e ↦ subst P (sym e) h.0
  | inr rest ↦ All-Memᴰ P xs h.1 rest
]

-- The record of a dataset and a tier is found wherever it stands.
find_dataset-Memᴰ :
    (records : List Fields) (s : Fields) (d t : Option String)
    → AreTitled records
    → AreDistinct records
    → Memᴰ s records
    → parse_title (title_of s) ≡ ok (d, t)
    → find_dataset d t records ≡ ok (some s)
unfolding find_dataset
find_dataset-Memᴰ [] s d t titled distinct m e = absurd (Memᴰ.not-nil m)
find_dataset-Memᴰ (r ∷ rs) s d t titled distinct m e =
    let (q, p) = titled.0 in
    elim (Memᴰ.cases_cons m) [
      | inl here ↦
          rw (sym (ap (λ x. parse_title (title_of x)) here) ∙ e, same_refl d, same_refl t, here)
            refl
      | inr rest ↦ elim (Bool-cases (same q.0 d && same q.1 t)) [
        | inr differ ↦ rw (p, differ) (find_dataset-Memᴰ rs s d t titled.1 distinct.1 rest e)
        | inl agree ↦ absurd (
            All-Memᴰ (λ x. ¬ (parse_title (title_of r) ≡ parse_title (title_of x))) rs distinct.0
              rest (p ∙ ap ok (both-true q d t agree) ∙ sym e))
      ]
    ]

counterpart_of :
    (k : RecordType)
    → counterpart (some (tier_of k))
      ≡ some (tier_of (other k), short_name (other k), relation_type k)
unfolding string_eq
counterpart_of mini = refl
counterpart_of nano = refl

-- One direction.
get_relations_lem :
    (k : RecordType) (d : Option String) (records : List Fields) (r s : Fields) (recid : Value)
    → AreTitled records
    → AreDistinct records
    → parse_title (title_of r) ≡ ok (d, some (tier_of k))
    → Memᴰ s records
    → parse_title (title_of s) ≡ ok (d, some (tier_of (other k)))
    → lookup "recid" s ≡ some recid
    → get_relations records r ≡ ok (relation (short_name (other k)) (relation_type k) recid)
unfolding get_relations
get_relations_lem k d records r s recid titled distinct own m found id =
    rw
      (
        own,
        counterpart_of k,
        find_dataset-Memᴰ records s d (some (tier_of (other k))) titled distinct m found,
        id,
      )
      refl

other_twice : (k : RecordType) → other (other k) ≡ k
other_twice mini = refl
other_twice nano = refl

-- Where all titles are texts, and no two records have the same dataset and tier, two records of
-- one dataset in the two tiers are related to each other: the relation expected in each is that to
-- the recid of the other one, with the description and the type for its tier.
pub get_relations_paired :
    (k : RecordType) (d : Option String) (records : List Fields) (r s : Fields)
    (recid_r recid_s : Value)
    → AreTitled records
    → AreDistinct records
    → Memᴰ r records
    → Memᴰ s records
    → parse_title (title_of r) ≡ ok (d, some (tier_of k))
    → parse_title (title_of s) ≡ ok (d, some (tier_of (other k)))
    → lookup "recid" r ≡ some recid_r
    → lookup "recid" s ≡ some recid_s
    → (get_relations records r ≡ ok (relation (short_name (other k)) (relation_type k) recid_s))
      × (get_relations records s ≡ ok (relation (short_name k) (relation_type (other k)) recid_r))
get_relations_paired k d records r s recid_r recid_s titled distinct in_r in_s own found id_r id_s =
    (
      get_relations_lem k d records r s recid_s titled distinct own in_s found id_s,
      subst
          (λ j.
            get_relations records s
            ≡ ok (relation (short_name j) (relation_type (other k)) recid_r))
          (other_twice k)
          (get_relations_lem (other k) d records s r recid_r titled distinct found in_r
            (own ∙ ap (λ j. ok (d, some (tier_of j))) (sym (other_twice k))) id_r),
    )
