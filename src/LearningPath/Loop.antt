-- ===== src/LearningPath/Loop.antt =====
-- The `while` loop of `_trace_prerequisites` (cpa_first/engine/learning_path.py).
use xeno_pre_test.Prelude.{
  ℕ, zero, suc, ◌+◌, ◌≤◌, ◌≡◌, refl, sym, subst, ap, ◌∙◌, leb, none, some, List, [], ◌∷◌, ◌++◌,
  String, length, arith, All, All-append, Bool-cases, Option-cases, inl, inr,
}
use mathlib.Core.List.{append_assoc, append-nil}
use xeno_pre_test.LearningPath.Trace.{
  Term, Node, Entry, Search, get_term, visit, search_all, Outcome, Outcome.traced,
}
use xeno_pre_test.LearningPath.Visit.{missing, within-visit, demand-visit}
use xeno_pre_test.LearningPath.Ready.{
  Ready, Unique, Shallow, ShallowQueue, node_keys, entry_keys, visit-Ready,
}
use xeno_pre_test.LearningPath.Chain.{
  Chain, Closed, Covered, Keeps, Closed-Keeps, visit-Covered, Sound, visit-Sound,
  prerequisites-Chains,
}

pub Shallow-le : (c d : ℕ) (ns : List Node) → c ≤ d → Shallow c ns → Shallow d ns
Shallow-le c d [] l h = tt
Shallow-le c d (n ∷ ns) l h = (omega (arith, h.0), Shallow-le c d ns l h.1)

pub ShallowQueue-le : (c d : ℕ) (q : List Entry) → c ≤ d → ShallowQueue c q → ShallowQueue d q
ShallowQueue-le c d [] l h = tt
ShallowQueue-le c d (e ∷ q) l h = (omega (arith, h.0), ShallowQueue-le c d q l h.1)

-- `popleft()` goes on to the depth of the entry it takes.
pop-Ready :
    (terms : List Term) (d : ℕ) (done : List (String × ℕ)) (nodes : List Node) (e : Entry)
    (q : List Entry)
    → Ready terms d done (record { nodes = nodes; queue = e ∷ q })
    → Ready terms e.depth (done ++ (e.term_id, e.depth) ∷ []) (record { nodes = nodes; queue = q })
pop-Ready terms d done nodes e q r = record {
  keys = r.keys ∙ sym (append_assoc done ((e.term_id, e.depth) ∷ []) (entry_keys q));
  unique = r.unique;
  shallow = Shallow-le (suc d) (suc e.depth) nodes (omega (arith, r.rising.0)) r.shallow;
  shallow_queue =
      ShallowQueue-le (suc d) (suc e.depth) q (omega (arith, r.rising.0)) r.shallow_queue.1;
  rising = r.rising.1;
  known_queue = r.known_queue.1;
}

Closed-of :
    (terms : List Term) (max_depth : ℕ) (i : String) (d : ℕ) (t : Term) (ns : List Node)
    → get_term i terms ≡ some t
    → All (Covered terms d ns) t.prerequisite_terms
    → Closed terms max_depth ns (i, d)
Closed-of terms m i d t ns g h l u k =
    let same : t ≡ u = ap (λ o. elim o [ none ↦ t | some x ↦ x ]) (sym g ∙ k) in
    subst (λ x. All (Covered terms d ns) x.prerequisite_terms) same h

-- What the loop answers from these nodes on.
pub record Answer (roots : List (String × String)) (terms : List Term) (max_depth : ℕ)
    (from : List Node) (o : Outcome) : Type 0 where
  pub found : List Node
  pub answer : o ≡ traced found
  pub sound : All (λ n. Chain roots terms n.term_id n.depth × (n.depth ≤ max_depth)) found
  pub closed : All (Closed terms max_depth found) (node_keys found)
  pub keeps : Keeps from found
  pub unique : Unique found

pub search_all-Answer :
    (fuel : ℕ) (roots : List (String × String)) (terms : List Term) (max_depth d : ℕ)
    (done : List (String × ℕ)) (nodes : List Node) (queue : List Entry)
    → Ready terms d done (record { nodes = nodes; queue = queue })
    → Sound roots terms max_depth (record { nodes = nodes; queue = queue })
    → All (Closed terms max_depth nodes) done
    → length queue + missing terms nodes ≤ fuel
    → Answer roots terms max_depth nodes (search_all fuel terms max_depth nodes queue)
unfolding search_all
search_all-Answer fuel roots terms m d done nodes [] r s c l = record {
  found = nodes;
  answer = refl;
  sound = s.nodes;
  closed = subst (All (Closed terms m nodes)) (sym (r.keys ∙ append-nil done)) c;
  keeps = λ d i h. h;
  unique = r.unique;
}
search_all-Answer zero roots terms m d done nodes (e ∷ q) r s c l = absurd (omega arith)
search_all-Answer (suc fuel) roots terms m d done nodes (e ∷ q) r s c l =
    let key : String × ℕ = (e.term_id, e.depth) in
    let ready = pop-Ready terms d done nodes e q r in
    elim (Bool-cases (leb m e.depth)) [
      | inl b ↦
          rw (search_all, b)
            (search_all-Answer fuel roots terms m e.depth (done ++ key ∷ []) nodes q ready
              (record { nodes = s.nodes; queue = s.queue.1 })
              (All-append _ done (key ∷ []) c ((λ l. absurd (ground arith)), tt)) (omega arith))
      | inr b ↦ elim (Option-cases (get_term e.term_id terms)) [
        | inl g ↦ absurd (ground (arith, g, r.known_queue.0))
        | inr (t, g) ↦
            let before : Search = record { nodes = nodes; queue = q } in
            let after = visit terms t e t.prerequisite_terms before in
            let keeps : Keeps nodes after.nodes =
              λ d i. within-visit terms t e t.prerequisite_terms before d i in
            let a =
              search_all-Answer fuel roots terms m e.depth (done ++ key ∷ []) after.nodes
                after.queue
                (visit-Ready terms t e t.prerequisite_terms (done ++ key ∷ []) before ready)
                (visit-Sound roots terms m t e t.prerequisite_terms before (ground arith)
                  (prerequisites-Chains roots terms e.term_id e.depth t t.prerequisite_terms
                    s.queue.0 g (λ p h. h))
                  (record { nodes = s.nodes; queue = s.queue.1 }))
                (All-append _ done (key ∷ []) (Closed-Keeps terms m nodes after.nodes done keeps c)
                  (
                    Closed-of terms m e.term_id e.depth t _ g (
                        visit-Covered terms t e t.prerequisite_terms (done ++ key ∷ []) before
                          ready),
                    tt,
                  ))
                (omega (arith, demand-visit terms t e t.prerequisite_terms before)) in
            rw (search_all, b, g)
              (record {
                found = a.found;
                answer = a.answer;
                sound = a.sound;
                closed = a.closed;
                keeps = λ d i h. a.keeps d i (keeps d i h);
                unique = a.unique;
              })
      ]
    ]
