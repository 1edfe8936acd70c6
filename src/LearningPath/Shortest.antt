-- ===== src/LearningPath/Shortest.antt =====
-- What `_trace_prerequisites` (cpa_first/engine/learning_path.py) finds.
use xeno_pre_test.Prelude.{
  ℕ, suc, ◌+◌, ◌≤◌, ◌≡◌, refl, sym, subst, true, ◌&&◌, leb, List, [], ◌∷◌, String, str_eq, eq_refl,
  eq_iff, not, length, arith, tally-le-length, All, Bool-cases, inl, inr,
}
use xeno_pre_test.LearningPath.Trace.{
  Term, Node, Search, visited, Outcome.traced, roots_added, trace_prerequisites,
}
use xeno_pre_test.LearningPath.Visit.{known, within, within-le}
use xeno_pre_test.LearningPath.Ready.{Ready, Unique, node_keys}
use xeno_pre_test.LearningPath.Chain.{
  Chain, Chain.root, Chain.step, is_root, Closed, Covered-at, Sound,
}
use xeno_pre_test.LearningPath.Loop.{Answer, search_all-Answer, Shallow-le, ShallowQueue-le}
use xeno_pre_test.LearningPath.Roots.{Start, Roots, add_roots-Added, Shallow-of}

Start-Ready :
    (roots : List (String × String)) (terms : List Term) (s : Search)
    → Start roots terms s
    → Ready terms 0 [] s
Start-Ready roots terms s h = record {
  keys = h.keys;
  unique = h.unique;
  shallow = Shallow-le 0 1 s.nodes (omega arith) (Shallow-of roots terms s.nodes h.nodes);
  shallow_queue = ShallowQueue-le 0 1 s.queue (omega arith) h.at_zero;
  rising = h.rising;
  known_queue = h.known_queue;
}

Start-Sound :
    (roots : List (String × String)) (terms : List Term) (max_depth : ℕ) (s : Search)
    → Start roots terms s
    → Sound roots terms max_depth s
Start-Sound roots terms m s h = record {
  nodes = zero_sound roots terms m s.nodes h.nodes;
  queue = h.queue;
}
  where
    zero_sound :
        (roots : List (String × String)) (terms : List Term) (m : ℕ) (ns : List Node)
        → All (λ n. Chain roots terms n.term_id n.depth × (n.depth ≤ 0)) ns
        → All (λ n. Chain roots terms n.term_id n.depth × (n.depth ≤ m)) ns
    zero_sound roots terms m [] h = tt
    zero_sound roots terms m (n ∷ ns) h =
        ((h.0.0, omega (arith, h.0.1)), zero_sound roots terms m ns h.1)

Closed-at :
    (terms : List Term) (max_depth : ℕ) (i : String) (d : ℕ) (ns ms : List Node)
    → within d i ns ≡ true
    → All (Closed terms max_depth ms) (node_keys ns)
    → (e : ℕ) × (e ≤ d) × Closed terms max_depth ms (i, e)
Closed-at terms m i d [] ms w c = absurd (ground arith)
Closed-at terms m i d (n ∷ ns) ms w c = elim (Bool-cases (str_eq i n.term_id && leb n.depth d)) [
  | inl h ↦
      let same : str_eq i n.term_id ≡ true = ground (arith, h) in
      let low : n.depth ≤ d = ground (arith, h) in
      (
        n.depth,
        low,
        subst (λ x. Closed terms m ms (x, n.depth)) (sym ((eq_iff i n.term_id).0 same)) c.0,
      )
  | inr h ↦ Closed-at terms m i d ns ms (rw h at w) c.1
]

Chain-within :
    (roots : List (String × String)) (terms : List Term) (max_depth : ℕ) (ns : List Node)
    → ((i : String) → is_root i roots ≡ true → within 0 i ns ≡ true)
    → All (Closed terms max_depth ns) (node_keys ns)
    → (i : String) (d : ℕ) → Chain roots terms i d
    → d ≤ max_depth
    → within d i ns ≡ true
Chain-within roots terms m ns r c i _ (root _ h) l = r i h
Chain-within roots terms m ns r c p _ (step {i} {d} t _ chain g mem k) l =
    let at = Chain-within roots terms m ns r c i d chain (omega arith) in
    let (e, low, closed) = Closed-at terms m i d ns ns at c in
    within-le (suc e) (suc d) p ns (omega arith)
      (Covered-at terms e ns p t.prerequisite_terms mem (closed (omega arith) t g) k)

Roots-of :
    (all rs : List (String × String)) (terms : List Term)
    → ((i : String) → is_root i rs ≡ true → is_root i all ≡ true)
    → All (λ r. known r.0 terms ≡ true) rs
    → Roots all terms rs
Roots-of all [] terms m k = tt
Roots-of all ((j, label) ∷ rs) terms m k = (
  (m j (ground (arith, eq_refl j)), k.0),
  Roots-of all rs terms (λ i h. m i (ground (arith, h))) k.1,
)

-- The answer of the loop that `_trace_prerequisites` starts, and that it has the roots.
trace_prerequisites-Answer :
    (roots : List (String × String)) (terms : List Term) (max_depth : ℕ)
    → All (λ r. known r.0 terms ≡ true) roots
    → (a : Answer roots terms max_depth
        (roots_added roots).nodes
        (trace_prerequisites roots terms max_depth))
      × ((i : String) → is_root i roots ≡ true → within 0 i a.found ≡ true)
unfolding trace_prerequisites
trace_prerequisites-Answer roots terms m k =
    let empty : Search = record { nodes = []; queue = [] } in
    let a =
      add_roots-Added roots roots terms empty (Roots-of roots roots terms (λ i h. h) k) (record {
        keys = refl;
        unique = tt;
        nodes = tt;
        queue = tt;
        at_zero = tt;
        rising = tt;
        known_queue = tt;
      }) in
    let s = roots_added roots in
    let r =
      search_all-Answer (length roots + length terms) roots terms m 0 [] s.nodes s.queue
        (Start-Ready roots terms s a.start) (Start-Sound roots terms m s a.start) tt
        (omega (arith, a.few, tally-le-length (λ t. not (visited t.term_id s.nodes)) terms)) in
    (r, λ i h. r.keeps 0 i (a.roots i h))

-- Where each root is a term of the graph, `_trace_prerequisites` ends with the fuel given and without a
-- `KeyError`; no term is a node twice, and each node ends a chain of prerequisites from a root whose length
-- is the node's depth, at most `max_depth`.
pub trace_prerequisites_sound :
    (roots : List (String × String)) (terms : List Term) (max_depth : ℕ)
    → All (λ r. known r.0 terms ≡ true) roots
    → (nodes : List Node) × (trace_prerequisites roots terms max_depth ≡ traced nodes)
      × Unique nodes
      × All (λ n. Chain roots terms n.term_id n.depth × (n.depth ≤ max_depth)) nodes
trace_prerequisites_sound roots terms m k =
    let (a, r) = trace_prerequisites-Answer roots terms m k in
    (a.found, a.answer, a.unique, a.sound)

-- Where each root is a term of the graph, a term that ends a chain of `d` prerequisites from a root, `d` at
-- most `max_depth`, is a node that `_trace_prerequisites` returns, and its depth is at most `d`.
pub trace_prerequisites_nearest :
    (roots : List (String × String)) (terms : List Term) (max_depth : ℕ) (i : String) (d : ℕ)
    → All (λ r. known r.0 terms ≡ true) roots
    → Chain roots terms i d
    → d ≤ max_depth
    → (nodes : List Node) × (trace_prerequisites roots terms max_depth ≡ traced nodes)
      × (within d i nodes ≡ true)
trace_prerequisites_nearest roots terms m i d k chain l =
    let (a, r) = trace_prerequisites-Answer roots terms m k in
    (a.found, a.answer, Chain-within roots terms m a.found r a.closed i d chain l)
