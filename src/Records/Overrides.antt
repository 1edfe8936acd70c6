-- ===== src/Records/Overrides.antt =====
-- The review overrides of cpa_first/db/repositories.py: one row for each key, written in place or added.
use xeno_pre_test.Prelude.{
  ◌≡◌, refl, ap, Bool, false, ◌&&◌, if◌then◌else◌, Option, none, some, List, [], ◌∷◌, String,
  str_eq, eq_iff, eq_refl, first, arith, Bool-cases, inl, inr,
}

pub record ReviewOverride : Type 0 where
  pub ref_type : String
  pub ref_id : String
  pub review_status : String
  pub reviewer : Option String

abbrev pub has_ref : String → String → ReviewOverride → Bool
has_ref t i r = str_eq r.ref_type t && str_eq r.ref_id i

unfoldable pub get_review_override : String → String → List ReviewOverride → Option ReviewOverride
get_review_override t i rows = first (has_ref t i) rows

-- The row of the new key, or the first row of this key with the new status and reviewer.
unfoldable pub put_override : ReviewOverride → List ReviewOverride → List ReviewOverride
put_override new [] = new ∷ []
put_override new (r ∷ rows) =
    if has_ref new.ref_type new.ref_id r then new ∷ rows else r ∷ put_override new rows

abbrev status_of : Option ReviewOverride → Option String
status_of none = none
status_of (some r) = some r.review_status

-- The previous status, the row and the rows after.
unfoldable pub upsert_review_override :
    String
    → String
    → String
    → Option String
    → List ReviewOverride
    → Option String × ReviewOverride × List ReviewOverride
unfolding get_review_override put_override
upsert_review_override t i status reviewer rows =
    let row : ReviewOverride = record {
      ref_type = t;
      ref_id = i;
      review_status = status;
      reviewer = reviewer;
    } in
    (status_of (get_review_override t i rows), row, put_override row rows)

first-put_override :
    (new : ReviewOverride) (rows : List ReviewOverride)
    → first (has_ref new.ref_type new.ref_id) (put_override new rows) ≡ some new
unfolding put_override
first-put_override new [] = ground (arith, eq_refl new.ref_type, eq_refl new.ref_id)
first-put_override new (r ∷ rows) =
    ground (arith, first-put_override new rows, eq_refl new.ref_type, eq_refl new.ref_id)

first-put_override_other :
    (t i : String) (new : ReviewOverride) (rows : List ReviewOverride)
    → has_ref t i new ≡ false
    → first (has_ref t i) (put_override new rows) ≡ first (has_ref t i) rows
unfolding put_override
first-put_override_other t i new [] h = ground (arith, h)
first-put_override_other t i new (r ∷ rows) h =
    elim (Bool-cases (has_ref new.ref_type new.ref_id r)) [
      | inl s ↦
          let type_same : r.ref_type ≡ new.ref_type =
            (eq_iff r.ref_type new.ref_type).0 (ground (arith, s)) in
          let id_same : r.ref_id ≡ new.ref_id =
            (eq_iff r.ref_id new.ref_id).0 (ground (arith, s)) in
          let missed : has_ref t i r ≡ false = rw (type_same, id_same) h in rw (s, h, missed) refl
      | inr s ↦ let rest = first-put_override_other t i new rows h in rw s (ground (arith, rest))
    ]

-- After an upsert the override is found, with the status and the reviewer given; a second upsert of the same
-- key reports that status as the previous one; and the override of another key is as it was.
pub upsert_review_override_lem :
    (t i status next : String) (reviewer : Option String) (t' i' : String)
    (rows : List ReviewOverride)
    → (str_eq t t' && str_eq i i') ≡ false
    → let (previous, row, after) = upsert_review_override t i status reviewer rows in
      (get_review_override t i after ≡ some row)
      × (row.review_status ≡ status)
      × ((upsert_review_override t i next reviewer after).0 ≡ some status)
      × (get_review_override t' i' after ≡ get_review_override t' i' rows)
unfolding upsert_review_override get_review_override
upsert_review_override_lem t i status next reviewer t' i' rows other =
    let row : ReviewOverride = record {
      ref_type = t;
      ref_id = i;
      review_status = status;
      reviewer = reviewer;
    } in
    let found = first-put_override row rows in
    (found, refl, ap status_of found, first-put_override_other t' i' row rows other)
