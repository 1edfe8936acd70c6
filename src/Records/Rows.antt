-- ===== src/Records/Rows.antt =====
-- How the updates of cpa_first/db/repositories.py change the prescriptions: ids and active rows.
use xeno_pre_test.Prelude.{
  ℕ, ◌≡◌, ◌≢◌, refl, true, false, none, some, List, [], ◌∷◌, String, eq_iff, first, any, keep,
  arith, Bool-cases, inl, inr,
}
use xeno_pre_test.Records.Prescriptions.{Prescription, has_id, active_of, deactivate, replace}

-- Each id is stored once.
abbrev pub UniqueIds : List Prescription → Type 0
UniqueIds [] = Unit
UniqueIds (p ∷ ps) = (any (has_id p.id) ps ≡ false) × UniqueIds ps

pub keep-deactivate : (u : ℕ) (ps : List Prescription) → keep (active_of u) (deactivate u ps) ≡ []
unfolding deactivate
keep-deactivate u [] = refl
keep-deactivate u (p ∷ ps) = ground (arith, keep-deactivate u ps)

pub keep-deactivate_other :
    (u v : ℕ) (ps : List Prescription)
    → u ≢ v
    → keep (active_of v) (deactivate u ps) ≡ keep (active_of v) ps
unfolding deactivate
keep-deactivate_other u v [] h = refl
keep-deactivate_other u v (p ∷ ps) h = ground (arith, keep-deactivate_other u v ps h, h)

pub any-deactivate :
    (u : ℕ) (i : String) (ps : List Prescription)
    → any (has_id i) (deactivate u ps) ≡ any (has_id i) ps
unfolding deactivate
any-deactivate u i [] = refl
any-deactivate u i (p ∷ ps) = ground (arith, any-deactivate u i ps)

pub UniqueIds-deactivate :
    (u : ℕ) (ps : List Prescription) → UniqueIds ps → UniqueIds (deactivate u ps)
unfolding deactivate
UniqueIds-deactivate u [] h = tt
UniqueIds-deactivate u (p ∷ ps) h =
    ground (arith, any-deactivate u p.id ps, UniqueIds-deactivate u ps h.1)

pub first-any :
    (i : String) (ps : List Prescription) → first (has_id i) ps ≡ none → any (has_id i) ps ≡ false
first-any i [] h = refl
first-any i (p ∷ ps) h = ground (arith, first-any i ps)

pub first-id_eq :
    (i : String) (ps : List Prescription) (p : Prescription)
    → first (has_id i) ps ≡ some p
    → p.id ≡ i
first-id_eq i [] p h = absurd (ground arith)
first-id_eq i (x ∷ ps) p h = ground (arith, eq_iff i x.id, first-id_eq i ps p)

replace_absent :
    (i : String) (new : Prescription) (ps : List Prescription)
    → any (has_id i) ps ≡ false
    → replace i new ps ≡ ps
unfolding replace
replace_absent i new [] h = refl
replace_absent i new (p ∷ ps) h = ground (arith, replace_absent i new ps)

any-replace :
    (i j : String) (new : Prescription) (ps : List Prescription)
    → new.id ≡ i
    → any (has_id j) (replace i new ps) ≡ any (has_id j) ps
unfolding replace
any-replace i j new [] e = refl
any-replace i j new (p ∷ ps) e = ground (arith, eq_iff i p.id, any-replace i j new ps e, e)

pub UniqueIds-replace :
    (i : String) (new : Prescription) (ps : List Prescription)
    → new.id ≡ i
    → UniqueIds ps
    → UniqueIds (replace i new ps)
unfolding replace
UniqueIds-replace i new [] e h = tt
UniqueIds-replace i new (p ∷ ps) e h = ground (
  arith,
  eq_iff i p.id,
  any-replace i p.id new ps e,
  any-replace i new.id new ps e,
  UniqueIds-replace i new ps e h.1,
  e,
)

pub keep-replace :
    (u : ℕ) (i : String) (new e : Prescription) (ps : List Prescription)
    → active_of u new ≡ true
    → UniqueIds ps
    → first (has_id i) ps ≡ some e
    → keep (active_of u) ps ≡ []
    → keep (active_of u) (replace i new ps) ≡ new ∷ []
unfolding replace
keep-replace u i new e [] a h f k = absurd (ground arith)
keep-replace u i new e (p ∷ ps) a h f k = elim (Bool-cases (active_of u p)) [
  | inl t ↦ absurd (ground arith)
  | inr t ↦ elim (Bool-cases (has_id i p)) [
    | inl s ↦
        let same : i ≡ p.id = (eq_iff i p.id).0 s in
        let absent : any (has_id i) ps ≡ false = rw same h.0 in
        let rest = replace_absent i new ps absent in
        let none_left : keep (active_of u) ps ≡ [] = rw t at k in
        rw s (rw (rest, a, none_left) refl)
    | inr s ↦ rw (s, t) (keep-replace u i new e ps a h.1 (rw s at f) (rw t at k))
  ]
]

pub keep-replace_other :
    (u v : ℕ) (i : String) (new e : Prescription) (ps : List Prescription)
    → u ≢ v
    → new.user_id ≡ u
    → e.user_id ≡ u
    → UniqueIds ps
    → first (has_id i) ps ≡ some e
    → keep (active_of v) (replace i new ps) ≡ keep (active_of v) ps
unfolding replace
keep-replace_other u v i new e [] n a b h f = refl
keep-replace_other u v i new e (p ∷ ps) n a b h f = elim (Bool-cases (has_id i p)) [
  | inl s ↦
      let same : i ≡ p.id = (eq_iff i p.id).0 s in
      let absent : any (has_id i) ps ≡ false = rw same h.0 in
      let rest = replace_absent i new ps absent in
      let owner : p.user_id ≡ u = ground arith in rw s (rw rest (ground (arith, n, a, owner)))
  | inr s ↦
      let rest = keep-replace_other u v i new e ps n a b h.1 (rw s at f) in
      rw s (ground (arith, rest))
]
