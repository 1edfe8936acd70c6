-- ===== src/Solver/Nearest.antt =====
-- The choice that `_closest_index` and its kin in cpa_first/solver/reasoned.py give is the first of the nearest.
use xeno_pre_test.Prelude.{
  ℕ, suc, ◌≤◌, ◌<◌, ◌≡◌, ◌⊎◌, refl, sym, ap, ◌∙◌, subst, ltb, ltb→lt, Option, none, some, List, [],
  ◌∷◌, ◌++◌, All, All-append, length, length-append, arith, Bool-cases, Option-cases, inl, inr,
}
use mathlib.Core.List.{append_assoc, append-nil}
use xeno_pre_test.Solver.Closest.{closest_from, closest_after, closest_index}

-- A distance, where there is one, that is greater than `d`, or at least `d`.
abbrev pub Beyond : ℕ → Option ℕ → Type 0
Beyond d none = Unit
Beyond d (some e) = d < e

abbrev pub AtLeast : ℕ → Option ℕ → Type 0
AtLeast d none = Unit
AtLeast d (some e) = d ≤ e

AtLeast-Beyond : (d e : ℕ) (o : Option ℕ) → e < d → AtLeast d o → Beyond e o
AtLeast-Beyond d e none h k = tt
AtLeast-Beyond d e (some x) h k = omega arith

Beyond-AtLeast : (d : ℕ) (o : Option ℕ) → Beyond d o → AtLeast d o
Beyond-AtLeast d none h = tt
Beyond-AtLeast d (some x) h = omega arith

module _ {ℓ} {A : Type ℓ} (distance : A → Option ℕ) where
  -- The choice of this index stands at distance `d`, all before it are farther, and none behind it is nearer.
  pub record IsNearest (choices : List A) (i d : ℕ) : Type ℓ where
    pub before : List A
    pub nearest : A
    pub behind : List A
    pub split : choices ≡ before ++ nearest ∷ behind
    pub index : i ≡ length before
    pub at_distance : distance nearest ≡ some d
    pub before_farther : All (λ c. Beyond d (distance c)) before
    pub behind_not_nearer : All (λ c. AtLeast d (distance c)) behind

  All-AtLeast-Beyond :
      (d e : ℕ) (cs : List A)
      → e < d
      → All (λ c. AtLeast d (distance c)) cs
      → All (λ c. Beyond e (distance c)) cs
  All-AtLeast-Beyond d e [] h k = tt
  All-AtLeast-Beyond d e (c ∷ cs) h k =
      (AtLeast-Beyond d e (distance c) h k.0, All-AtLeast-Beyond d e cs h k.1)

  All-Beyond-AtLeast :
      (d : ℕ) (cs : List A)
      → All (λ c. Beyond d (distance c)) cs
      → All (λ c. AtLeast d (distance c)) cs
  All-Beyond-AtLeast d [] k = tt
  All-Beyond-AtLeast d (c ∷ cs) k = (Beyond-AtLeast d (distance c) k.0, All-Beyond-AtLeast d cs k.1)

  -- All choices are at the distance at least.
  IsNearest-All :
      (choices : List A) (i d : ℕ)
      → IsNearest choices i d
      → All (λ c. AtLeast d (distance c)) choices
  IsNearest-All choices i d n =
      subst (λ l. All (λ c. AtLeast d (distance c)) l) (sym n.split)
        (All-append _ n.before (n.nearest ∷ n.behind)
          (All-Beyond-AtLeast d n.before n.before_farther)
          (subst (AtLeast d) (sym n.at_distance) (omega arith), n.behind_not_nearer))

  IsNearest-snoc :
      (choices : List A) (i d : ℕ) (c : A)
      → AtLeast d (distance c)
      → IsNearest choices i d
      → IsNearest (choices ++ c ∷ []) i d
  IsNearest-snoc choices i d c h n = record {
    before = n.before;
    nearest = n.nearest;
    behind = n.behind ++ c ∷ [];
    split = ap (λ l. l ++ c ∷ []) n.split ∙ append_assoc n.before (n.nearest ∷ n.behind) (c ∷ []);
    index = n.index;
    at_distance = n.at_distance;
    before_farther = n.before_farther;
    behind_not_nearer = All-append _ n.behind (c ∷ []) n.behind_not_nearer (h, tt);
  }

  IsNearest-last :
      (choices : List A) (d : ℕ) (c : A)
      → distance c ≡ some d
      → All (λ x. Beyond d (distance x)) choices
      → IsNearest (choices ++ c ∷ []) (length choices) d
  IsNearest-last choices d c e h = record {
    before = choices;
    nearest = c;
    behind = [];
    split = refl;
    index = refl;
    at_distance = e;
    before_farther = h;
    behind_not_nearer = tt;
  }

  length-snoc : (seen : List A) (c : A) → length (seen ++ c ∷ []) ≡ suc (length seen)
  length-snoc seen c = omega (arith, length-append seen (c ∷ []))

  closest_from-IsNearest :
      (cs seen : List A) (i d : ℕ)
      → IsNearest seen i d
      → let (j, e) = closest_from distance cs (length seen) (i, d) in IsNearest (seen ++ cs) j e
  unfolding closest_from
  closest_from-IsNearest [] seen i d n = subst (λ l. IsNearest l i d) (sym (append-nil seen)) n
  closest_from-IsNearest (c ∷ cs) seen i d n =
      let at : length (seen ++ c ∷ []) ≡ suc (length seen) = length-snoc seen c in
      let joined : (seen ++ c ∷ []) ++ cs ≡ seen ++ c ∷ cs = append_assoc seen (c ∷ []) cs in
      let ih = closest_from-IsNearest cs (seen ++ c ∷ []) in
      elim (Option-cases (distance c)) [
        | inl none_here ↦
            rw (none_here, closest_from)
              (onward ih at joined i d
                (IsNearest-snoc seen i d c (subst (AtLeast d) (sym none_here) tt) n))
        | inr (e, here) ↦ elim (Bool-cases (ltb e d)) [
          | inl nearer ↦
              rw (here, closest_from)
                (rw nearer (
                  onward ih at joined (length seen) e (
                    IsNearest-last seen e c here (
                      All-AtLeast-Beyond d e seen (ltb→lt e d nearer) (IsNearest-All seen i d n)))))
          | inr farther ↦
              rw (here, closest_from)
                (rw farther (
                  onward ih at joined i d (
                    IsNearest-snoc seen i d c
                      (subst (AtLeast d) (sym here) (ground (arith, farther))) n)))
        ]
      ]
    where
      onward :
          ((j e : ℕ)
            → IsNearest (seen ++ c ∷ []) j e
            → IsNearest
                ((seen ++ c ∷ []) ++ cs)
                (closest_from distance cs (length (seen ++ c ∷ [])) (j, e)).0
                (closest_from distance cs (length (seen ++ c ∷ [])) (j, e)).1)
          → length (seen ++ c ∷ []) ≡ suc (length seen)
          → (seen ++ c ∷ []) ++ cs ≡ seen ++ c ∷ cs
          → (j e : ℕ) → IsNearest (seen ++ c ∷ []) j e
          → let (k, f) = closest_from distance cs (suc (length seen)) (j, e) in
            IsNearest (seen ++ c ∷ cs) k f
      onward ih at joined j e m =
          subst
            (λ l.
              IsNearest l (closest_from distance cs (suc (length seen)) (j, e)).0
                (closest_from distance cs (suc (length seen)) (j, e)).1)
            joined
            (subst
              (λ k.
                IsNearest ((seen ++ c ∷ []) ++ cs) (closest_from distance cs k (j, e)).0
                  (closest_from distance cs k (j, e)).1)
              at (ih j e m))

  All-none-Beyond :
      (d : ℕ) (cs : List A) → All (λ c. distance c ≡ none) cs → All (λ c. Beyond d (distance c)) cs
  All-none-Beyond d [] h = tt
  All-none-Beyond d (c ∷ cs) h = (subst (Beyond d) (sym h.0) tt, All-none-Beyond d cs h.1)

  -- What is said of an answer: no choice has a number, or it is the first of the nearest.
  abbrev Answers : List A → Option ℕ → Type ℓ
  Answers choices o =
      ((o ≡ none) × All (λ c. distance c ≡ none) choices)
      ⊎ ((i : ℕ) × (d : ℕ) × (o ≡ some i) × IsNearest choices i d)

  closest_after-Answers :
      (cs seen : List A)
      → All (λ c. distance c ≡ none) seen
      → Answers (seen ++ cs) (closest_after distance cs (length seen))
  unfolding closest_after
  closest_after-Answers [] seen h =
      inl (refl, subst (λ l. All (λ c. distance c ≡ none) l) (sym (append-nil seen)) h)
  closest_after-Answers (c ∷ cs) seen h =
      let joined : (seen ++ c ∷ []) ++ cs ≡ seen ++ c ∷ cs = append_assoc seen (c ∷ []) cs in
      elim (Option-cases (distance c)) [
        | inl none_here ↦
            rw (none_here, closest_after)
              (subst (λ l. Answers l (closest_after distance cs (suc (length seen)))) joined
                (subst (λ k. Answers ((seen ++ c ∷ []) ++ cs) (closest_after distance cs k))
                  (length-snoc seen c)
                  (closest_after-Answers cs (seen ++ c ∷ [])
                    (All-append _ seen (c ∷ []) h (none_here, tt)))))
        | inr (d, here) ↦
            let start = IsNearest-last seen d c here (All-none-Beyond d seen h) in
            let found = closest_from-IsNearest cs (seen ++ c ∷ []) (length seen) d start in
            rw (here, closest_after)
              (inr (
                (closest_from distance cs (suc (length seen)) (length seen, d)).0,
                (closest_from distance cs (suc (length seen)) (length seen, d)).1,
                refl,
                subst
                    (λ l.
                      IsNearest l (closest_from distance cs (suc (length seen)) (length seen, d)).0
                        (closest_from distance cs (suc (length seen)) (length seen, d)).1)
                    joined
                    (subst
                      (λ k.
                        IsNearest ((seen ++ c ∷ []) ++ cs)
                          (closest_from distance cs k (length seen, d)).0
                          (closest_from distance cs k (length seen, d)).1)
                      (length-snoc seen c) found),
              ))
      ]

  -- Either no choice has a number and there is no answer, or the answer is the index of a choice at some distance `d`
  -- such that each choice before it is farther and none behind it is nearer.
  pub closest_index-IsNearest :
      (choices : List A)
      → ((closest_index distance choices ≡ none) × All (λ c. distance c ≡ none) choices)
        ⊎ ((i : ℕ) × (d : ℕ) × (closest_index distance choices ≡ some i) × IsNearest choices i d)
  unfolding closest_index
  closest_index-IsNearest choices = closest_after-Answers choices [] tt
