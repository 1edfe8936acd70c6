-- ===== src/LearningPath/Trace.antt =====
-- `_trace_prerequisites` of cpa_first/engine/learning_path.py and the selection in `build_learning_path`. A term
-- graph `terms_full` is the list of its terms.
use xeno_pre_test.Prelude.{
  ℕ, zero, suc, ◌+◌, Bool, true, false, ◌&&◌, ◌||◌, ◌==◌, ltb, leb, if◌then◌else◌, Option, none,
  some, List, [], ◌∷◌, ◌++◌, String, any, first, take, str_eq, str_leb, length, sorted,
}

pub record Term : Type 0 where
  pub term_id : String
  pub name_ko : Option String
  pub prerequisite_terms : List String

-- The two texts of `why`, as data.
pub data Why : Type 0 where
  matched : String → Why
  -- The name of the term it is a prerequisite of, the root's label, and the steps from it.
  prerequisite_of : String → String → ℕ → Why

pub record Node : Type 0 where
  pub term_id : String
  pub depth : ℕ
  pub why : Why

-- An entry of the queue.
pub record Entry : Type 0 where
  pub term_id : String
  pub root_label : String
  pub depth : ℕ

pub record Search : Type 0 where
  pub nodes : List Node
  pub queue : List Entry

abbrev pub is_term : String → Term → Bool
is_term i t = str_eq i t.term_id

abbrev pub is_node : String → Node → Bool
is_node i n = str_eq i n.term_id

-- `terms_full.get(term_id)`
abbrev pub get_term : String → List Term → Option Term
get_term i = first (is_term i)

-- `term_id in nodes`
abbrev pub visited : String → List Node → Bool
visited i = any (is_node i)

-- `nodes[term_id] = ...` and `queue.append(...)`
abbrev pub enqueue : String → String → ℕ → Why → Search → Search
enqueue i label d why s = record {
  nodes = s.nodes ++ record { term_id = i; depth = d; why = why } ∷ [];
  queue = s.queue ++ record { term_id = i; root_label = label; depth = d } ∷ [];
}

-- The first loop, over the roots.
unfoldable pub add_roots : List (String × String) → Search → Search
add_roots [] s = s
add_roots ((i, label) ∷ roots) s =
    add_roots roots (if visited i s.nodes then s else enqueue i label 0 (matched label) s)

-- `current.get("name_ko", term_id)`
abbrev pub name_of : Term → String
name_of t = elim t.name_ko [ none ↦ t.term_id | some n ↦ n ]

-- The body of the loop over the prerequisites of `current`.
abbrev pub visit_one : List Term → Term → Entry → String → Search → Search
visit_one terms current e p s = if visited p s.nodes then s else (elim (get_term p terms) [
  | none ↦ s
  | some _ ↦
      enqueue p e.root_label (suc e.depth)
        (prerequisite_of (name_of current) e.root_label (suc e.depth)) s
])

unfoldable pub visit : List Term → Term → Entry → List String → Search → Search
visit terms current e [] s = s
visit terms current e (p ∷ ps) s = visit terms current e ps (visit_one terms current e p s)

pub data Outcome : Type 0 where
  traced : List Node → Outcome
  key_error : String → Outcome
  out_of_fuel : Outcome

-- The `while` loop.
unfoldable pub search_all : ℕ → List Term → ℕ → List Node → List Entry → Outcome
unfolding visit
search_all fuel terms max_depth nodes [] = traced nodes
search_all zero terms max_depth nodes (e ∷ queue) = out_of_fuel
search_all (suc fuel) terms max_depth nodes (e ∷ queue) = elim (leb max_depth e.depth) [
  | true ↦ search_all fuel terms max_depth nodes queue
  | false ↦ elim (get_term e.term_id terms) [
    | none ↦ key_error e.term_id
    | some current ↦
        let s =
          visit terms current e current.prerequisite_terms
            (record { nodes = nodes; queue = queue }) in
        search_all fuel terms max_depth s.nodes s.queue
  ]
]

abbrev pub roots_added : List (String × String) → Search
roots_added roots = add_roots roots (record { nodes = []; queue = [] })

-- `_trace_prerequisites`: each term and each root enters the queue at most once, so their number is enough fuel.
unfoldable pub trace_prerequisites : List (String × String) → List Term → ℕ → Outcome
unfolding add_roots search_all
trace_prerequisites roots terms max_depth =
    let s = roots_added roots in
    search_all (length roots + length terms) terms max_depth s.nodes s.queue

-- The keys `(nodes[t]["depth"], t)` and `(-nodes[t]["depth"], t)`.
abbrev pub nearer : Node → Node → Bool
nearer a b = ltb a.depth b.depth || ((a.depth == b.depth) && str_leb a.term_id b.term_id)

abbrev pub deeper : Node → Node → Bool
deeper a b = ltb b.depth a.depth || ((a.depth == b.depth) && str_leb a.term_id b.term_id)

-- `selected`, the nearest `max_nodes` terms, and their order in the path.
unfoldable pub ordered_path : ℕ → List Node → List Node
ordered_path max_nodes nodes = sorted deeper (take max_nodes (sorted nearer nodes))
