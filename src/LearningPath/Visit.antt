-- ===== src/LearningPath/Visit.antt =====
-- One round of `_trace_prerequisites` (cpa_first/engine/learning_path.py): what the visit of a term's
-- prerequisites does to the nodes and to the queue.
use xeno_pre_test.Prelude.{
  ℕ, suc, ◌+◌, ◌≤◌, ◌<◌, ◌≡◌, sym, subst, Bool, true, false, not, ◌&&◌, ◌||◌, leb, none, some, List,
  [], ◌∷◌, ◌++◌, String, any, tally, str_eq, eq_refl, eq_iff, length, length-append, arith, All,
  Bool-cases, Option-cases, inl, inr,
}
use xeno_pre_test.LearningPath.Trace.{
  Term, Node, Entry, Search, Why, get_term, visited, name_of, visit_one, visit, Why.prerequisite_of,
}

-- `term_id in terms_full`
abbrev pub known : String → List Term → Bool
known i terms = elim (get_term i terms) [ none ↦ false | some _ ↦ true ]

-- A node of this term has at most this depth.
abbrev pub within : ℕ → String → List Node → Bool
within d i = any (λ n. str_eq i n.term_id && leb n.depth d)

-- The terms that are not visited yet.
abbrev pub missing : List Term → List Node → ℕ
missing terms nodes = tally (λ t. not (visited t.term_id nodes)) terms

pub within-append :
    (d : ℕ) (i : String) (ns ms : List Node) → within d i ns ≡ true → within d i (ns ++ ms) ≡ true
within-append d i [] ms h = absurd (ground arith)
within-append d i (n ∷ ns) ms h = ground (arith, within-append d i ns ms)

pub within-last :
    (d : ℕ) (i : String) (w : Why) (ns : List Node)
    → within d i (ns ++ record { term_id = i; depth = d; why = w } ∷ []) ≡ true
within-last d i w [] = ground (arith, eq_refl i)
within-last d i w (n ∷ ns) = ground (arith, within-last d i w ns)

pub within-le :
    (d e : ℕ) (i : String) (ns : List Node) → d ≤ e → within d i ns ≡ true → within e i ns ≡ true
within-le d e i [] l h = absurd (ground arith)
within-le d e i (n ∷ ns) l h = ground (arith, within-le d e i ns l)

pub within_of_visited :
    (d : ℕ) (i : String) (ns : List Node)
    → All (λ n. n.depth ≤ d) ns
    → visited i ns ≡ true
    → within d i ns ≡ true
within_of_visited d i [] b h = absurd (ground arith)
within_of_visited d i (n ∷ ns) b h = ground (arith, b.0, within_of_visited d i ns b.1)

pub visited-append :
    (i j : String) (d : ℕ) (w : Why) (ns : List Node)
    → visited i (ns ++ record { term_id = j; depth = d; why = w } ∷ []) ≡ visited i ns || str_eq i j
visited-append i j d w [] = ground arith
visited-append i j d w (n ∷ ns) = ground (arith, visited-append i j d w ns)

missing-append-le :
    (j : String) (d : ℕ) (w : Why) (ns : List Node) (terms : List Term)
    → missing terms (ns ++ record { term_id = j; depth = d; why = w } ∷ []) ≤ missing terms ns
missing-append-le j d w ns [] = omega arith
missing-append-le j d w ns (t ∷ terms) =
    ground (arith, visited-append t.term_id j d w ns, missing-append-le j d w ns terms)

missing-append-lt :
    (j : String) (d : ℕ) (w : Why) (ns : List Node) (terms : List Term) (t : Term)
    → get_term j terms ≡ some t
    → visited j ns ≡ false
    → missing terms (ns ++ record { term_id = j; depth = d; why = w } ∷ []) < missing terms ns
missing-append-lt j d w ns [] t e h = absurd (ground arith)
missing-append-lt j d w ns (u ∷ terms) t e h = elim (Bool-cases (str_eq j u.term_id)) [
  | inl s ↦
      let same : j ≡ u.term_id = (eq_iff j u.term_id).0 s in
      let fresh : visited u.term_id ns ≡ false = subst (λ x. visited x ns ≡ false) same h in
      let self : str_eq u.term_id j ≡ true =
        subst (λ x. str_eq u.term_id x ≡ true) (sym same) (eq_refl u.term_id) in
      ground
        (arith, fresh, self, visited-append u.term_id j d w ns, missing-append-le j d w ns terms)
  | inr s ↦
      let rest = missing-append-lt j d w ns terms t (rw s at e) h in
      ground (arith, rest, visited-append u.term_id j d w ns)
]

-- What is visited stays visited, at its depth.
within-visit_one :
    (terms : List Term) (current : Term) (e : Entry) (p : String) (s : Search) (d : ℕ) (i : String)
    → within d i s.nodes ≡ true
    → within d i (visit_one terms current e p s).nodes ≡ true
within-visit_one terms current e p s d i h = elim (Bool-cases (visited p s.nodes)) [
  | inl v ↦ rw v h
  | inr v ↦ elim (Option-cases (get_term p terms)) [
    | inl g ↦ rw (v, g) h
    | inr (t, g) ↦ rw (v, g) (within-append d i s.nodes _ h)
  ]
]

pub within-visit :
    (terms : List Term) (current : Term) (e : Entry) (ps : List String) (s : Search) (d : ℕ)
    (i : String)
    → within d i s.nodes ≡ true
    → within d i (visit terms current e ps s).nodes ≡ true
unfolding visit
within-visit terms current e [] s d i h = h
within-visit terms current e (p ∷ ps) s d i h =
    within-visit terms current e ps (visit_one terms current e p s) d i
      (within-visit_one terms current e p s d i h)

-- A round needs no more fuel than it leaves: what enters the queue was not visited.
demand-visit_one :
    (terms : List Term) (current : Term) (e : Entry) (p : String) (s : Search)
    → length (visit_one terms current e p s).queue
        + missing terms (visit_one terms current e p s).nodes
      ≤ length s.queue + missing terms s.nodes
demand-visit_one terms current e p s = elim (Bool-cases (visited p s.nodes)) [
  | inl v ↦ rw v (omega arith)
  | inr v ↦ elim (Option-cases (get_term p terms)) [
    | inl g ↦ rw (v, g) (omega arith)
    | inr (t, g) ↦
        rw (v, g)
          (omega (
            arith,
            length-append s.queue
                (record { term_id = p; root_label = e.root_label; depth = suc e.depth } ∷ []),
            missing-append-lt p (suc e.depth)
                (prerequisite_of (name_of current) e.root_label (suc e.depth)) s.nodes terms t g v,
          ))
  ]
]

pub demand-visit :
    (terms : List Term) (current : Term) (e : Entry) (ps : List String) (s : Search)
    → length (visit terms current e ps s).queue + missing terms (visit terms current e ps s).nodes
      ≤ length s.queue + missing terms s.nodes
unfolding visit
demand-visit terms current e [] s = omega arith
demand-visit terms current e (p ∷ ps) s =
    let one = demand-visit_one terms current e p s in
    let rest = demand-visit terms current e ps (visit_one terms current e p s) in
    omega (arith, one, rest)
