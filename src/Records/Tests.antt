-- ===== src/Records/Tests.antt =====
-- Stored records of two users, and the theorems at them.
use xeno_pre_test.Prelude.{ℕ, ◌≡◌, refl, Bool, true, false, none, some, List, [], ◌∷◌, String, keep}
use xeno_pre_test.Records.Prescriptions.{
  Payload, Prescription, active_of, save_prescription, get_active_prescription,
}
use xeno_pre_test.Records.Rows.{UniqueIds}
use xeno_pre_test.Records.Active.{save_prescription-get_active}
use xeno_pre_test.Records.Logs.{Log, MistakeLog, add_mistake_log}
use xeno_pre_test.Records.Overrides.{ReviewOverride}

abbrev payload : String → Payload
payload i = record { prescription_id = some i; document = "{}" }

abbrev prescription : String → ℕ → Bool → Prescription
prescription i user active = record {
  id = i;
  user_id = user;
  payload = payload i;
  generated_at = 1;
  is_active = active;
}

abbrev prescriptions : List Prescription
prescriptions =
    prescription "rx-1" 1 false ∷ prescription "rx-2" 1 true ∷ prescription "rx-3" 2 true ∷ []

prescriptions_unique : UniqueIds prescriptions
prescriptions_unique = (refl, (refl, (refl, tt)))

save_prescription-get_active_example :
    (r : Prescription) × (after : List Prescription) × (save_prescription 9 "rx-8" "rx-9" 1
        (payload "rx-1")
        prescriptions
      ≡ some (r, after))
    × (r.payload ≡ payload "rx-1")
    × (get_active_prescription 1 after ≡ some r)
    × (keep (active_of 1) after ≡ r ∷ [])
    × UniqueIds after
save_prescription-get_active_example =
    save_prescription-get_active 9 1 "rx-8" "rx-9" (payload "rx-1") prescriptions
      prescriptions_unique refl

abbrev log : String → Log
log i = record {
  log_id = i;
  problem_id = "p1";
  attempt_at = "2026-01-01";
  correct = true;
  time_seconds = 60;
  skipped = none;
  mistake_categories = none;
  self_note = none;
  session_id = none;
}

abbrev logs : List MistakeLog
logs = (add_mistake_log 1 1 (log "a") (add_mistake_log 2 2 (log "a") []).1).1

abbrev overrides : List ReviewOverride
overrides =
    record { ref_type = "term"; ref_id = "t1"; review_status = "draft"; reviewer = none } ∷ []
