-- ===== src/Fixtures/Tests.antt =====
-- Loading at a database of two tables.
use mathlib.Core.Option.{some-injective}
use cernopendata_portal.Base.{
  ℕ, suc, ◌+◌, ◌≤◌, String, ◌≡◌, refl, true, Option, none, some, List, [], ◌∷◌, ◌==◌, string_eq,
  nat_eq, ◌&&◌, if◌then◌else◌, arith, Bool-cases, inl, inr,
}
use cernopendata_portal.Base.Result.{ok}
use cernopendata_portal.Json.{Value, text, Fields, end, field, truthy}
use cernopendata_portal.Json.Dict.{lookup, insert}
use cernopendata_portal.Fixtures.Store.{Store, IsStore}
use cernopendata_portal.Fixtures.Load.{
  insert_or_replace, no_statistics, simple_handlers, load_glossary_data, process_entries,
}
use cernopendata_portal.Fixtures.Load.Catalog.{load_all, view, IsPaired}
use cernopendata_portal.Fixtures.Load.Refines.{process_entries-load_all}

-- A row of the table of identifiers: type, value, object.
abbrev Row : Type 0
Row = String × String × ℕ

record Tables : Type 0 where
  pids : List Row
  contents : ℕ → Option Fields

abbrev object_of : String → String → List Row → Option ℕ
object_of t v [] = none
object_of t v ((s, j, u) ∷ rows) = if t == s && v == j then some u else object_of t v rows

abbrev without : String → String → List Row → List Row
without t v [] = []
without t v ((s, j, u) ∷ rows) =
    let rest = without t v rows in if s == t && j == v then rest else (s, j, u) ∷ rest

abbrev above : List Row → ℕ
above [] = 1
above ((s, j, u) ∷ rows) = u + above rows

above-positive : (rows : List Row) → 1 ≤ above rows
above-positive [] = omega arith
above-positive ((s, j, u) ∷ rows) = omega (arith, above-positive rows)

object_of-above :
    (t v : String) (rows : List Row) (u : ℕ) → object_of t v rows ≡ some u → suc u ≤ above rows
object_of-above t v [] u e = absurd (ground (arith, e))
object_of-above t v ((s, j, x) ∷ rows) u e = elim (Bool-cases (t == s && v == j)) [
  | inl here ↦ omega (arith, some-injective x u (rw here at e), above-positive rows)
  | inr further ↦ omega (arith, object_of-above t v rows u (rw further at e))
]

object_of-without :
    (t v s j : String) (rows : List Row)
    → object_of s j (without t v rows) ≡ (if s == t && j == v then none else object_of s j rows)
object_of-without t v s j [] = ground arith
object_of-without t v s j ((s', j', u) ∷ rows) = ground (arith, object_of-without t v s j rows)

abbrev with_content : ℕ → Option Fields → (ℕ → Option Fields) → ℕ → Option Fields
with_content u o contents x = if x == u then o else contents x

abbrev store : Store Tables
store = record {
  new_uuid = λ w. above w.pids;
  get_pid = λ t v w. object_of t v w.pids;
  mint = λ t v u w. ok (record w { pids = (t, v, u) ∷ w.pids });
  drop_pid = λ t v w. record w { pids = without t v w.pids };
  get_record = λ u w. w.contents u;
  create = λ u d w. ok (record w { contents = with_content u (some d) w.contents });
  save = λ u d w. ok (record w { contents = with_content u (some d) w.contents });
  remove = λ u w. record w { contents = with_content u none w.contents };
  commit = λ w. ok w;
  index = λ u d w. ok w;
}

store-IsStore : IsStore store (λ d. true)
store-IsStore = record {
  fresh = λ t v u w e. ground (arith, object_of-above t v w.pids u e);
  mints = λ t v u w e. (record w { pids = (t, v, u) ∷ w.pids }, refl, (λ s j. refl), (λ x. refl));
  drops = λ t v w. ((λ s j. object_of-without t v s j w.pids), (λ x. refl));
  creates = λ u d w e. (
    record w { contents = with_content u (some d) w.contents },
    refl,
    (λ s j. refl),
    (λ x. refl),
  );
  saves = λ u d w e. (
    record w { contents = with_content u (some d) w.contents },
    refl,
    (λ s j. refl),
    (λ x. refl),
  );
  removes = λ u w. ((λ s j. refl), (λ x. refl));
  commits = λ w. (w, refl, (λ s j. refl), (λ x. refl));
  indexes = λ u d w. (w, refl, (λ s j. refl), (λ x. refl));
}

abbrev str : Value → String
str (text s) = s
str _ = "None"

abbrev term : Fields
term = field "anchor" (text "jet") end

abbrev stored : Fields
stored = field "anchor" (text "jet") (field "$schema" (text "term.json") end)

abbrev empty : Tables
empty = record { pids = []; contents = λ u. none }

empty-IsPaired : IsPaired store "termid" empty
empty-IsPaired = record {
  whole = λ k u e. absurd (ground (arith, e));
  apart = λ j k u e e'. absurd (ground (arith, e));
}

process_entries-load_all_example :
    let r =
      load_all insert_or_replace
        (("jet", stored) ∷ ("jet", stored) ∷ [])
        no_statistics
        (view store "termid" empty) in
    (w : Tables) × (process_entries store str
        (simple_handlers store str "termid" "anchor" load_glossary_data)
        "term.json"
        insert_or_replace
        (term ∷ term ∷ [])
        no_statistics
        empty
      ≡ ok (r.0, r.1, w))
    × (view store "termid" w ≡ r.2)
    × IsPaired store "termid" w
unfolding load_glossary_data insert lookup string_eq truthy
process_entries-load_all_example =
    process_entries-load_all store (λ d. true) store-IsStore "termid" str "anchor" "term.json"
      load_glossary_data insert_or_replace (term ∷ term ∷ [])
      (("jet", stored) ∷ ("jet", stored) ∷ []) no_statistics empty
      (
        (term, text "jet", refl, refl, refl, refl, refl, refl),
        ((term, text "jet", refl, refl, refl, refl, refl, refl), tt),
      )
      empty-IsPaired
