-- ===== src/Solver/Majority.antt =====
-- Which answer `EnsembleSolver.solve` (cpa_first/solver/ensemble.py) gives, and when it is unanimous.
use xeno_pre_test.Prelude.{
  ℕ, suc, ◌≤◌, ◌<◌, ◌≡◌, refl, sym, ap, subst, ◌∙◌, ◌↔◌, Bool, true, false, ◌==◌, ==_iff, inl, inr,
  ◌⊎◌, Option, none, some, List, [], ◌∷◌, ◌++◌, length, all, any, first, arith, Bool-cases, All,
}
use mathlib.Core.Bool.{false≢true}
use xeno_pre_test.Solver.Ensemble.{votes, count, top_among, top_count, decide_votes, solve}

count-le-top_among : (vs ws : List ℕ) (v : ℕ) → 0 < count v ws → count v vs ≤ top_among vs ws
unfolding top_among
count-le-top_among vs [] v h = absurd (omega arith)
count-le-top_among vs (w ∷ ws) v h = elim (Bool-cases (w == v)) [
  | inl e ↦
      let same : count w vs ≡ count v vs = ap (λ x. count x vs) ((==_iff w v).0 e) in
      omega (arith, same)
  | inr e ↦ let rest = count-le-top_among vs ws v (ground arith) in omega (arith, rest)
]

-- Some candidate has the top count.
top_reached :
    (vs ws : List ℕ) (top : ℕ)
    → top ≡ top_among vs ws
    → 0 < length ws
    → any (λ w. count w vs == top) ws ≡ true
unfolding top_among
top_reached vs [] top e h = absurd (omega arith)
top_reached vs (w ∷ []) top e h = ground arith
top_reached vs (w ∷ u ∷ ws) top e h = elim (Bool-cases (count w vs == top)) [
  | inl t ↦ rw t
  | inr t ↦ rw t (top_reached vs (u ∷ ws) top (ground arith) (omega arith))
]

any-first : (p : ℕ → Bool) (xs : List ℕ) → any p xs ≡ true → (v : ℕ) × (first p xs ≡ some v)
any-first p [] h = absurd (ground arith)
any-first p (x ∷ xs) h = elim (Bool-cases (p x)) [
  | inl e ↦ (x, rw e)
  | inr e ↦ rw e (any-first p xs (rw e at h))
]

-- The first item that passes, with what stands before it.
record Found (p : ℕ → Bool) (xs : List ℕ) (v : ℕ) : Type 0 where
  earlier : List ℕ
  later : List ℕ
  split : xs ≡ earlier ++ v ∷ later
  fail : All (λ w. p w ≡ false) earlier
  pass : p v ≡ true

some_eq : (x v : ℕ) → some x ≡ some v → x ≡ v
some_eq x v e = ground (arith, e)

first-Found : (p : ℕ → Bool) (xs : List ℕ) (v : ℕ) → first p xs ≡ some v → Found p xs v
first-Found p [] v e = absurd (ground arith)
first-Found p (x ∷ xs) v e = elim (Bool-cases (p x)) [
  | inl h ↦
      let same : x ≡ v = some_eq x v (rw h at e) in
      record {
        earlier = [];
        later = xs;
        split = ap (λ y. y ∷ xs) same;
        fail = tt;
        pass = subst (λ y. p y ≡ true) same h;
      }
  | inr h ↦
      let f = first-Found p xs v (rw h at e) in
      record {
        earlier = x ∷ f.earlier;
        later = f.later;
        split = ap (λ l. x ∷ l) f.split;
        fail = (h, f.fail);
        pass = f.pass;
      }
]

abbrev Below : List ℕ → ℕ → List ℕ → Type 0
Below vs top = All (λ w. count w vs < top)

Below-of_fail :
    (vs : List ℕ) (top : ℕ) (ws : List ℕ)
    → ((w : ℕ) → count w vs ≤ top)
    → All (λ w. (count w vs == top) ≡ false) ws
    → Below vs top ws
Below-of_fail vs top [] b h = tt
Below-of_fail vs top (w ∷ ws) b h = (ground (arith, b w, h.0), Below-of_fail vs top ws b h.1)

count-le-top : (vs : List ℕ) (v : ℕ) → count v vs ≤ top_count vs
unfolding top_count
count-le-top vs v = elim (Bool-cases (0 == count v vs)) [
  | inl e ↦ ground arith
  | inr e ↦ count-le-top_among vs vs v (ground arith)
]

-- What the chosen answer is among the votes `vs`, in the order of the solvers: no answer has more votes,
-- and each answer that stands before its first vote has fewer.
pub record IsChoice (vs : List ℕ) (v : ℕ) : Type 0 where
  pub earlier : List ℕ
  pub later : List ℕ
  pub split : vs ≡ earlier ++ v ∷ later
  pub most : (w : ℕ) → count w vs ≤ count v vs
  pub before : All (λ w. count w vs < count v vs) earlier

choice : (vs : List ℕ) (v : ℕ) → first (λ w. count w vs == top_count vs) vs ≡ some v → IsChoice vs v
choice vs v e =
    let f = first-Found (λ w. count w vs == top_count vs) vs v e in
    let top : count v vs ≡ top_count vs = (==_iff _ _).0 f.pass in
    record {
      earlier = f.earlier;
      later = f.later;
      split = f.split;
      most = λ w. rw top (count-le-top vs w);
      before = rw top (Below-of_fail vs (top_count vs) f.earlier (count-le-top vs) f.fail);
    }

decide_votes-IsChoice :
    (n v : ℕ) (vs : List ℕ)
    → (w : ℕ) × ((decide_votes n (v ∷ vs)).chosen ≡ some w) × IsChoice (v ∷ vs) w
unfolding decide_votes top_count
decide_votes-IsChoice n v vs =
    let all_votes = v ∷ vs in
    let (w, e) =
      any-first (λ u. count u all_votes == top_count all_votes) all_votes
        (top_reached all_votes all_votes (top_count all_votes) refl (omega arith)) in
    (w, e, choice all_votes w e)

-- Either no solver answers and the ensemble has no answer, or it has an answer `v` such that no answer has
-- more votes, and each answer that stands before the first vote for `v` has fewer.
pub solve-IsChoice :
    (results : List (Option ℕ))
    → (votes results ≡ []) × ((solve results).chosen ≡ none)
      ⊎ ((v : ℕ) × ((solve results).chosen ≡ some v) × IsChoice (votes results) v)
unfolding solve
solve-IsChoice results = choose (votes results)
  where
    choose :
        (vs : List ℕ)
        → (vs ≡ []) × ((decide_votes (length results) vs).chosen ≡ none)
          ⊎ ((v : ℕ) × ((decide_votes (length results) vs).chosen ≡ some v) × IsChoice vs v)
    choose [] = inl (refl, refl)
    choose (v ∷ vs) = inr (decide_votes-IsChoice (length results) v vs)

-- All answers are `v`.
abbrev pub Unanimous : ℕ → List (Option ℕ) → Type 0
Unanimous v = All (λ r. r ≡ some v)

length-votes-le : (rs : List (Option ℕ)) → length (votes rs) ≤ length rs
unfolding votes
length-votes-le [] = omega arith
length-votes-le (none ∷ rs) = omega (arith, length-votes-le rs)
length-votes-le (some v ∷ rs) = omega (arith, length-votes-le rs)

Unanimous-of :
    (v : ℕ) (rs : List (Option ℕ))
    → all (λ w. w == v) (votes rs) ≡ true
    → length (votes rs) ≡ length rs
    → Unanimous v rs
unfolding votes
Unanimous-of v [] a e = tt
Unanimous-of v (none ∷ rs) a e = absurd (omega (arith, length-votes-le rs))
Unanimous-of v (some w ∷ rs) a e = elim (Bool-cases (w == v)) [
  | inl h ↦ (ap some ((==_iff w v).0 h), Unanimous-of v rs (rw h at a) (omega arith))
  | inr h ↦ absurd (ground arith)
]

same_of :
    (v : ℕ) (rs : List (Option ℕ))
    → Unanimous v rs
    → (all (λ w. w == v) (votes rs) ≡ true) × (length (votes rs) ≡ length rs)
unfolding votes
same_of v [] u = (refl, refl)
same_of v (none ∷ rs) u = absurd (ground arith)
same_of v (some w ∷ rs) u =
    let (a, l) = same_of v rs u.1 in
    let e : w ≡ v = some_eq w v u.0 in (rw e (ground arith), omega (arith, l))

-- Of at least one solver, the result is unanimous exactly when all solvers give one and the same answer.
pub solve-Unanimous :
    (r : Option ℕ) (rs : List (Option ℕ))
    → ((solve (r ∷ rs)).unanimous ≡ true) ↔ ((v : ℕ) × Unanimous v (r ∷ rs))
unfolding solve decide_votes votes
solve-Unanimous none rs = (
  λ h. absurd (false≢true (sym (unanimous_votes (length rs) (votes rs) (length-votes-le rs)) ∙ h)),
  λ (v, u). absurd (ground (arith, u.0)),
)
  where
    unanimous_votes :
        (n : ℕ) (vs : List ℕ) → length vs ≤ n → (decide_votes (suc n) vs).unanimous ≡ false
    unanimous_votes n [] l = refl
    unanimous_votes n (v ∷ vs) l = ground (arith, l)
solve-Unanimous (some v) rs = (
  λ h. (v, (refl, Unanimous-of v rs (ground (arith, h)) (ground (arith, h)))),
  λ (w, u). (let (a, l) = same_of w rs u.1 in ground (arith, a, l, u.0)),
)
