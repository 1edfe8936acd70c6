-- ===== src/LearningPath/Roots.antt =====
-- The first loop of `_trace_prerequisites` (cpa_first/engine/learning_path.py), over the roots.
use xeno_pre_test.Prelude.{
  ◌+◌, ◌≤◌, ◌≡◌, sym, subst, ap, ◌∙◌, true, false, ◌||◌, List, [], ◌∷◌, ◌++◌, String, str_eq,
  eq_iff, length, arith, length-append, All, All-append, Bool-cases, inl, inr,
}
use xeno_pre_test.LearningPath.Trace.{
  Term, Node, Entry, Search, Why.matched, visited, add_roots, enqueue,
}
use xeno_pre_test.LearningPath.Visit.{known, within, within-append, within-last, within_of_visited}
use xeno_pre_test.LearningPath.Ready.{
  node_keys-append, entry_keys-append, Rising-append, Unique, Unique-append, Rising, Shallow,
  ShallowQueue, KnownQueue, node_keys, entry_keys,
}
use xeno_pre_test.LearningPath.Chain.{Chain, Chain.root, is_root, Keeps}

-- The state before the `while` loop: the roots are queued, at depth 0.
pub record Start (all : List (String × String)) (terms : List Term) (s : Search) : Type 0 where
  pub keys : node_keys s.nodes ≡ entry_keys s.queue
  pub unique : Unique s.nodes
  pub nodes : All (λ n. Chain all terms n.term_id n.depth × (n.depth ≤ 0)) s.nodes
  pub queue : All (λ e. Chain all terms e.term_id e.depth) s.queue
  pub at_zero : ShallowQueue 0 s.queue
  pub rising : Rising 0 s.queue
  pub known_queue : KnownQueue terms s.queue

-- These are roots, and terms.
abbrev pub Roots : List (String × String) → List Term → List (String × String) → Type 0
Roots all terms = All (λ r. (is_root r.0 all ≡ true) × (known r.0 terms ≡ true))

enqueue-Start :
    (all : List (String × String)) (terms : List Term) (i label : String) (s : Search)
    → is_root i all ≡ true
    → known i terms ≡ true
    → visited i s.nodes ≡ false
    → Start all terms s
    → Start all terms (enqueue i label 0 (matched label) s)
enqueue-Start all terms i label s m k v h =
    let e : Entry = record { term_id = i; root_label = label; depth = 0 } in
    let n : Node = record { term_id = i; depth = 0; why = matched label } in
    record {
      keys =
          node_keys-append s.nodes n
          ∙ ap (λ l. l ++ (i, 0) ∷ []) h.keys
          ∙ sym (entry_keys-append s.queue e);
      unique = Unique-append i 0 (matched label) s.nodes v h.unique;
      nodes = All-append _ s.nodes (n ∷ []) h.nodes ((root i m, omega arith), tt);
      queue = All-append _ s.queue (e ∷ []) h.queue (root i m, tt);
      at_zero = All-append _ s.queue (e ∷ []) h.at_zero (omega arith, tt);
      rising = Rising-append 0 e s.queue (omega arith) h.rising h.at_zero;
      known_queue = All-append _ s.queue (e ∷ []) h.known_queue (k, tt);
    }

-- What adding these roots gives.
pub record Added (all rs : List (String × String)) (terms : List Term) (s s' : Search)
    : Type 0 where
  pub start : Start all terms s'
  pub few : length s'.queue ≤ length s.queue + length rs
  pub keeps : Keeps s.nodes s'.nodes
  pub roots : (i : String) → is_root i rs ≡ true → within 0 i s'.nodes ≡ true

pub Shallow-of :
    (all : List (String × String)) (terms : List Term) (ns : List Node)
    → All (λ n. Chain all terms n.term_id n.depth × (n.depth ≤ 0)) ns
    → Shallow 0 ns
Shallow-of all terms [] h = tt
Shallow-of all terms (n ∷ ns) h = (h.0.1, Shallow-of all terms ns h.1)

root_at :
    (j : String) (rs : List (String × String)) (ns : List Node) (i : String)
    → str_eq i j || is_root i rs ≡ true
    → ((i : String) → is_root i rs ≡ true → within 0 i ns ≡ true)
    → within 0 j ns ≡ true
    → within 0 i ns ≡ true
root_at j rs ns i e f w = elim (Bool-cases (str_eq i j)) [
  | inl h ↦ subst (λ x. within 0 x ns ≡ true) (sym ((eq_iff i j).0 h)) w
  | inr h ↦ f i (rw h at e)
]

pub add_roots-Added :
    (all rs : List (String × String)) (terms : List Term) (s : Search)
    → Roots all terms rs
    → Start all terms s
    → Added all rs terms s (add_roots rs s)
unfolding add_roots
add_roots-Added all [] terms s k h = record {
  start = h;
  few = omega arith;
  keeps = λ d i w. w;
  roots = λ i e. absurd (ground arith);
}
add_roots-Added all ((j, label) ∷ rs) terms s k h = elim (Bool-cases (visited j s.nodes)) [
  | inl v ↦
      let a = add_roots-Added all rs terms s k.1 h in
      rw (add_roots, v)
        (record {
          start = a.start;
          few = omega (arith, a.few);
          keeps = a.keeps;
          roots = λ i e. root_at j rs _ i e a.roots (
              a.keeps 0 j (within_of_visited 0 j s.nodes (Shallow-of all terms s.nodes h.nodes) v));
        })
  | inr v ↦
      let s' = enqueue j label 0 (matched label) s in
      let a =
        add_roots-Added all rs terms s' k.1 (enqueue-Start all terms j label s k.0.0 k.0.1 v h) in
      rw (add_roots, v)
        (record {
          start = a.start;
          few = omega (
            arith,
            a.few,
            length-append s.queue (record { term_id = j; root_label = label; depth = 0 } ∷ []),
          );
          keeps = λ d i w. a.keeps d i (within-append d i s.nodes _ w);
          roots = λ i e.
              root_at j rs _ i e a.roots (a.keeps 0 j (within-last 0 j (matched label) s.nodes));
        })
]
