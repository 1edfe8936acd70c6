-- ===== src/LearningPath/Chain.antt =====
-- Chains of prerequisites in the term graph of cpa_first/engine/learning_path.py, and what the visit of a
-- term's prerequisites adds of them to the nodes.
use xeno_pre_test.Prelude.{
  ℕ, suc, ◌≤◌, ◌<◌, ◌≡◌, sym, subst, Bool, true, false, ◌||◌, some, List, [], ◌∷◌, String, str_eq,
  eq_refl, eq_iff, mem_str, arith, All, All-append, Bool-cases, Option-cases, inl, inr,
}
use xeno_pre_test.LearningPath.Trace.{
  Term, Node, Entry, Search, get_term, visited, visit_one, visit,
}
use xeno_pre_test.LearningPath.Visit.{known, within, within_of_visited, within-last, within-visit}
use xeno_pre_test.LearningPath.Ready.{Ready, visit_one-Ready, known_of}

abbrev pub is_root : String → List (String × String) → Bool
is_root i [] = false
is_root i ((j, label) ∷ roots) = str_eq i j || is_root i roots

-- A chain of so many steps leads from a root to the term, each to a prerequisite that is a term.
pub data Chain (roots : List (String × String)) (terms : List Term) : String → ℕ → Type 0 where
  root : (i : String) → is_root i roots ≡ true → Chain roots terms i 0
  step :
      {i : String} {d : ℕ} (t : Term) (p : String)
      → Chain roots terms i d
      → get_term i terms ≡ some t
      → mem_str p t.prerequisite_terms ≡ true
      → known p terms ≡ true
      → Chain roots terms p (suc d)

-- The term, if it is known, is a node of the next depth or less.
abbrev pub Covered : List Term → ℕ → List Node → String → Type 0
Covered terms d ns p = known p terms ≡ true → within (suc d) p ns ≡ true

-- The prerequisites of this node were visited, if it is not at the last depth.
abbrev pub Closed : List Term → ℕ → List Node → String × ℕ → Type 0
Closed terms max_depth ns (i, d) =
    d < max_depth
    → (t : Term) → get_term i terms ≡ some t
    → All (Covered terms d ns) t.prerequisite_terms

-- From `ns` to `ms`, nothing is lost and no depth grows.
abbrev pub Keeps : List Node → List Node → Type 0
Keeps ns ms = (d : ℕ) (i : String) → within d i ns ≡ true → within d i ms ≡ true

pub Covered-Keeps :
    (terms : List Term) (d : ℕ) (ns ms : List Node) (ps : List String)
    → Keeps ns ms
    → All (Covered terms d ns) ps
    → All (Covered terms d ms) ps
Covered-Keeps terms d ns ms [] k h = tt
Covered-Keeps terms d ns ms (p ∷ ps) k h =
    (λ e. k (suc d) p (h.0 e), Covered-Keeps terms d ns ms ps k h.1)

pub Closed-Keeps :
    (terms : List Term) (max_depth : ℕ) (ns ms : List Node) (done : List (String × ℕ))
    → Keeps ns ms
    → All (Closed terms max_depth ns) done
    → All (Closed terms max_depth ms) done
Closed-Keeps terms m ns ms [] k h = tt
Closed-Keeps terms m ns ms ((i, d) ∷ done) k h = (
  λ l t g. Covered-Keeps terms d ns ms t.prerequisite_terms k (h.0 l t g),
  Closed-Keeps terms m ns ms done k h.1,
)

pub Covered-at :
    (terms : List Term) (d : ℕ) (ns : List Node) (p : String) (ps : List String)
    → mem_str p ps ≡ true
    → All (Covered terms d ns) ps
    → Covered terms d ns p
Covered-at terms d ns p [] m h = absurd (ground arith)
Covered-at terms d ns p (q ∷ ps) m h = elim (Bool-cases (str_eq p q)) [
  | inl e ↦ subst (Covered terms d ns) (sym ((eq_iff p q).0 e)) h.0
  | inr e ↦ Covered-at terms d ns p ps (rw e at m) h.1
]

visit_one-Covered :
    (terms : List Term) (current : Term) (e : Entry) (p : String) (done : List (String × ℕ))
    (s : Search)
    → Ready terms e.depth done s
    → Covered terms e.depth (visit_one terms current e p s).nodes p
visit_one-Covered terms current e p done s r = elim (Bool-cases (visited p s.nodes)) [
  | inl v ↦ rw v (λ k. within_of_visited (suc e.depth) p s.nodes r.shallow v)
  | inr v ↦ elim (Option-cases (get_term p terms)) [
    | inl g ↦ λ k. absurd (ground (arith, g))
    | inr (t, g) ↦ rw (v, g) (λ k. within-last (suc e.depth) p _ s.nodes)
  ]
]

pub visit-Covered :
    (terms : List Term) (current : Term) (e : Entry) (ps : List String) (done : List (String × ℕ))
    (s : Search)
    → Ready terms e.depth done s
    → All (Covered terms e.depth (visit terms current e ps s).nodes) ps
unfolding visit
visit-Covered terms current e [] done s r = tt
visit-Covered terms current e (p ∷ ps) done s r =
    let s' = visit_one terms current e p s in
    (
      λ k.
          within-visit terms current e ps s' (suc e.depth) p
            (visit_one-Covered terms current e p done s r k),
      visit-Covered terms current e ps done s' (visit_one-Ready terms current e p done s r),
    )

-- Each node and each queued entry stands at the end of a chain of its depth, at most the last depth.
pub record Sound (roots : List (String × String)) (terms : List Term) (max_depth : ℕ) (s : Search)
    : Type 0 where
  pub nodes : All (λ n. Chain roots terms n.term_id n.depth × (n.depth ≤ max_depth)) s.nodes
  pub queue : All (λ e. Chain roots terms e.term_id e.depth) s.queue

-- Each of these terms, if it is known, ends a chain of this length.
abbrev pub Chains : List (String × String) → List Term → ℕ → List String → Type 0
Chains roots terms d = All (λ p. known p terms ≡ true → Chain roots terms p d)

visit_one-Sound :
    (roots : List (String × String)) (terms : List Term) (max_depth : ℕ) (current : Term)
    (e : Entry) (p : String) (s : Search)
    → suc e.depth ≤ max_depth
    → (known p terms ≡ true → Chain roots terms p (suc e.depth))
    → Sound roots terms max_depth s
    → Sound roots terms max_depth (visit_one terms current e p s)
visit_one-Sound roots terms m current e p s l c h = elim (Bool-cases (visited p s.nodes)) [
  | inl v ↦ rw v h
  | inr v ↦ elim (Option-cases (get_term p terms)) [
    | inl g ↦ rw (v, g) h
    | inr (t, g) ↦
        let chain = c (known_of p terms t g) in
        rw (v, g)
          (record {
            nodes = All-append _ s.nodes _ h.nodes ((chain, l), tt);
            queue = All-append _ s.queue _ h.queue (chain, tt);
          })
  ]
]

pub visit-Sound :
    (roots : List (String × String)) (terms : List Term) (max_depth : ℕ) (current : Term)
    (e : Entry) (ps : List String) (s : Search)
    → suc e.depth ≤ max_depth
    → Chains roots terms (suc e.depth) ps
    → Sound roots terms max_depth s
    → Sound roots terms max_depth (visit terms current e ps s)
unfolding visit
visit-Sound roots terms m current e [] s l c h = h
visit-Sound roots terms m current e (p ∷ ps) s l c h =
    visit-Sound roots terms m current e ps (visit_one terms current e p s) l c.1
      (visit_one-Sound roots terms m current e p s l c.0 h)

-- The prerequisites of a term at the end of a chain end longer ones.
pub prerequisites-Chains :
    (roots : List (String × String)) (terms : List Term) (i : String) (d : ℕ) (t : Term)
    (ps : List String)
    → Chain roots terms i d
    → get_term i terms ≡ some t
    → ((p : String) → mem_str p ps ≡ true → mem_str p t.prerequisite_terms ≡ true)
    → Chains roots terms (suc d) ps
prerequisites-Chains roots terms i d t [] c g m = tt
prerequisites-Chains roots terms i d t (p ∷ ps) c g m = (
  λ k. step t p c g (m p (ground (arith, eq_refl p))) k,
  prerequisites-Chains roots terms i d t ps c g (λ q h. m q (ground (arith, h))),
)
