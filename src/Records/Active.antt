-- ===== src/Records/Active.antt =====
-- The active prescription after `save_prescription` (cpa_first/db/repositories.py).
use xeno_pre_test.Prelude.{
  ℕ, ◌≡◌, ◌≢◌, refl, ap, ◌∙◌, true, false, ◌==◌, ==_iff, some, List, [], ◌∷◌, String, first, any,
  keep, arith, Bool-cases, Option-cases, inl, inr,
}
use xeno_pre_test.Records.Prescriptions.{
  Payload, Prescription, has_id, active_of, deactivate, replace, id_or, insert, save_prescription,
  newest, get_active_prescription,
}
use xeno_pre_test.Records.Rows.{
  UniqueIds, keep-deactivate, keep-deactivate_other, any-deactivate, UniqueIds-deactivate,
  first-any, first-id_eq, UniqueIds-replace, keep-replace, keep-replace_other,
}

-- The row written is the user's only active one, with this payload, in rows whose ids stay distinct.
pub record Saved (u : ℕ) (payload : Payload) (rows : List Prescription) (r : Prescription)
    (after : List Prescription) : Type 0 where
  pub written : r.payload ≡ payload
  pub only : keep (active_of u) after ≡ r ∷ []
  pub unique : UniqueIds after
  pub others : (v : ℕ) → u ≢ v → keep (active_of v) after ≡ keep (active_of v) rows

abbrev row_of : ℕ → ℕ → Payload → String → Prescription
row_of now u payload i = record {
  id = i;
  user_id = u;
  payload = payload;
  generated_at = now;
  is_active = true;
}

inserted :
    (now u : ℕ) (payload : Payload) (i : String) (rows : List Prescription)
    → UniqueIds rows
    → any (has_id i) (deactivate u rows) ≡ false
    → (r : Prescription) × (after : List Prescription) × (insert
          (row_of now u payload i)
          (deactivate u rows)
        ≡ some (r, after))
      × Saved u payload rows r after
inserted now u payload i rows h free = (
  row_of now u payload i,
  row_of now u payload i ∷ deactivate u rows,
  rw free refl,
  record {
    written = refl;
    only = ground (arith, keep-deactivate u rows);
    unique = (free, UniqueIds-deactivate u rows h);
    others = λ v n. ground (arith, n, keep-deactivate_other u v rows n);
  },
)

save_prescription-Saved :
    (now u : ℕ) (drawn again : String) (payload : Payload) (rows : List Prescription)
    → UniqueIds rows
    → any (has_id again) rows ≡ false
    → (r : Prescription) × (after : List Prescription) × (save_prescription now drawn again u
          payload rows
        ≡ some (r, after))
      × Saved u payload rows r after
unfolding save_prescription
save_prescription-Saved now u drawn again payload rows h free =
    let off = deactivate u rows in
    let pid = id_or payload.prescription_id drawn in
    elim (Option-cases (first (has_id pid) off)) [
      | inl f ↦ rw (save_prescription, f) (inserted now u payload pid rows h (first-any pid off f))
      | inr (e, f) ↦ elim (Bool-cases (e.user_id == u)) [
        | inr o ↦
            rw (save_prescription, f, o)
              (inserted now u payload again rows h (any-deactivate u again rows ∙ free))
        | inl o ↦
            let mine : e.user_id ≡ u = (==_iff e.user_id u).0 o in
            let same = first-id_eq pid off e f in
            let new = row_of now u payload e.id in
            let unique = UniqueIds-deactivate u rows h in
            rw (save_prescription, f, o)
              (
                new,
                replace pid new off,
                refl,
                record {
                  written = refl;
                  only =
                      keep-replace u pid new e off (ground arith) unique f (keep-deactivate u rows);
                  unique = UniqueIds-replace pid new off same unique;
                  others = λ v n.
                      keep-replace_other u v pid new e off n refl mine unique f
                      ∙ keep-deactivate_other u v rows n;
                },
              )
      ]
    ]

newest_one : (r : Prescription) → newest (r ∷ []) ≡ some r
unfolding newest
newest_one r = refl

-- Where stored ids are distinct and the second drawn id is not stored, `save_prescription` does not fail; the
-- row that it writes holds the payload, is what `get_active_prescription` then finds for the user, and is
-- the user's only active row; ids stay distinct.
pub save_prescription-get_active :
    (now u : ℕ) (drawn again : String) (payload : Payload) (rows : List Prescription)
    → UniqueIds rows
    → any (has_id again) rows ≡ false
    → (r : Prescription) × (after : List Prescription) × (save_prescription now drawn again u
          payload rows
        ≡ some (r, after))
      × (r.payload ≡ payload)
      × (get_active_prescription u after ≡ some r)
      × (keep (active_of u) after ≡ r ∷ [])
      × UniqueIds after
unfolding get_active_prescription
save_prescription-get_active now u drawn again payload rows h free =
    let (r, after, e, s) = save_prescription-Saved now u drawn again payload rows h free in
    (r, after, e, s.written, ap newest s.only ∙ newest_one r, s.only, s.unique)

-- Where stored ids are distinct and the second drawn id is not stored, saving a prescription of one user leaves
-- the active prescription of another as it is.
pub save_prescription_others :
    (now u v : ℕ) (drawn again : String) (payload : Payload) (rows : List Prescription)
    → u ≢ v
    → UniqueIds rows
    → any (has_id again) rows ≡ false
    → (r : Prescription) × (after : List Prescription) × (save_prescription now drawn again u
          payload rows
        ≡ some (r, after))
      × (get_active_prescription v after ≡ get_active_prescription v rows)
unfolding get_active_prescription
save_prescription_others now u v drawn again payload rows n h free =
    let (r, after, e, s) = save_prescription-Saved now u drawn again payload rows h free in
    (r, after, e, ap newest (s.others v n))
