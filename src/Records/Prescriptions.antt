-- ===== src/Records/Prescriptions.antt =====
-- The prescriptions of cpa_first/db/repositories.py. A row's payload is the document that `prescribe` made: its
-- id, which may be missing, and the rest as a text. Ids drawn from uuid4 are arguments.
use xeno_pre_test.Prelude.{
  ℕ, Bool, true, false, ◌&&◌, ◌==◌, leb, if◌then◌else◌, Option, none, some, List, [], ◌∷◌, String,
  str_eq, first, any, keep, sorted, insort,
}

pub record Payload : Type 0 where
  pub prescription_id : Option String
  pub document : String

pub record Prescription : Type 0 where
  pub id : String
  pub user_id : ℕ
  pub payload : Payload
  pub generated_at : ℕ
  pub is_active : Bool

abbrev pub has_id : String → Prescription → Bool
has_id i p = str_eq i p.id

-- `Prescription.user_id == user_id, Prescription.is_active.is_(True)`
abbrev pub active_of : ℕ → Prescription → Bool
active_of user p = (p.user_id == user) && p.is_active

-- The `UPDATE` that turns the user's active rows off.
unfoldable pub deactivate : ℕ → List Prescription → List Prescription
deactivate user [] = []
deactivate user (p ∷ ps) =
    (if active_of user p then record p { is_active = false } else p) ∷ deactivate user ps

-- The row of this id, replaced.
unfoldable pub replace : String → Prescription → List Prescription → List Prescription
replace i new [] = []
replace i new (p ∷ ps) = (if has_id i p then new else p) ∷ replace i new ps

-- `prescription.get("prescription_id") or f"rx-..."`
abbrev pub id_or : Option String → String → String
id_or none drawn = drawn
id_or (some i) drawn = if str_eq i "" then drawn else i

-- `db.add(row)` and `db.flush()`: `none` where the id is stored, an `IntegrityError`.
abbrev pub insert : Prescription → List Prescription → Option (Prescription × List Prescription)
insert p ps = if any (has_id p.id) ps then none else some (p, p ∷ ps)

-- The row that is written, and the table after it.
unfoldable pub save_prescription :
    ℕ
    → String
    → String
    → ℕ
    → Payload
    → List Prescription
    → Option (Prescription × List Prescription)
unfolding deactivate replace
save_prescription now drawn again user payload rows =
    let off = deactivate user rows in
    let pid = id_or payload.prescription_id drawn in
    let row : String → Prescription = λ i. record {
      id = i;
      user_id = user;
      payload = payload;
      generated_at = now;
      is_active = true;
    } in
    elim (first (has_id pid) off) [
      | none ↦ insert (row pid) off
      | some e ↦
          if e.user_id == user
          then some (row e.id, replace pid (row e.id) off)
          else insert (row again) off
    ]

-- `order_by(Prescription.generated_at.desc())`
abbrev pub newer : Prescription → Prescription → Bool
newer a b = leb b.generated_at a.generated_at

abbrev head_of : List Prescription → Option Prescription
head_of [] = none
head_of (p ∷ ps) = some p

-- `order_by(...).limit(1)`
unfoldable pub newest : List Prescription → Option Prescription
unfolding sorted insort
newest rows = head_of (sorted newer rows)

unfoldable pub get_active_prescription : ℕ → List Prescription → Option Prescription
unfolding newest
get_active_prescription user rows = newest (keep (active_of user) rows)
