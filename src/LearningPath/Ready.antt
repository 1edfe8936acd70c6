-- ===== src/LearningPath/Ready.antt =====
-- The invariant of the search of `_trace_prerequisites` (cpa_first/engine/learning_path.py), under the visit of a
-- term's prerequisites.
use xeno_pre_test.Prelude.{
  ℕ, suc, ◌≤◌, ◌≡◌, refl, sym, subst, ap, ◌∙◌, true, false, some, List, [], ◌∷◌, ◌++◌, String,
  str_eq, eq_refl, eq_iff, arith, All, All-append, Bool-cases, Option-cases, inl, inr,
}
use mathlib.Core.List.{append_assoc}
use xeno_pre_test.LearningPath.Trace.{
  Term, Node, Entry, Search, Why, get_term, visited, enqueue, visit_one, visit,
}
use xeno_pre_test.LearningPath.Visit.{known, visited-append}
use mathlib.Core.Bool.{false≢true}

-- The queue's depths do not fall, from `d` on.
abbrev pub Rising : ℕ → List Entry → Type 0
Rising d [] = Unit
Rising d (e ∷ q) = (d ≤ e.depth) × Rising e.depth q

abbrev pub Shallow : ℕ → List Node → Type 0
Shallow d = All (λ n. n.depth ≤ d)

abbrev pub ShallowQueue : ℕ → List Entry → Type 0
ShallowQueue d = All (λ e. e.depth ≤ d)

abbrev pub KnownQueue : List Term → List Entry → Type 0
KnownQueue terms = All (λ e. known e.term_id terms ≡ true)

pub Rising-append :
    (d : ℕ) (e : Entry) (q : List Entry)
    → d ≤ e.depth
    → Rising d q
    → ShallowQueue e.depth q
    → Rising d (q ++ e ∷ [])
Rising-append d e [] l r s = (l, tt)
Rising-append d e (x ∷ q) l r s = (r.0, Rising-append x.depth e q s.0 r.1 s.1)

abbrev pub node_keys : List Node → List (String × ℕ)
node_keys [] = []
node_keys (n ∷ ns) = (n.term_id, n.depth) ∷ node_keys ns

abbrev pub entry_keys : List Entry → List (String × ℕ)
entry_keys [] = []
entry_keys (e ∷ q) = (e.term_id, e.depth) ∷ entry_keys q

pub node_keys-append :
    (ns : List Node) (n : Node)
    → node_keys (ns ++ n ∷ []) ≡ node_keys ns ++ (n.term_id, n.depth) ∷ []
node_keys-append [] n = refl
node_keys-append (x ∷ ns) n = ap (λ l. (x.term_id, x.depth) ∷ l) (node_keys-append ns n)

pub entry_keys-append :
    (q : List Entry) (e : Entry)
    → entry_keys (q ++ e ∷ []) ≡ entry_keys q ++ (e.term_id, e.depth) ∷ []
entry_keys-append [] e = refl
entry_keys-append (x ∷ q) e = ap (λ l. (x.term_id, x.depth) ∷ l) (entry_keys-append q e)

-- Each term is a node once.
abbrev pub Unique : List Node → Type 0
Unique [] = Unit
Unique (n ∷ ns) = (visited n.term_id ns ≡ false) × Unique ns

str_eq-sym : (a b : String) → str_eq a b ≡ false → str_eq b a ≡ false
str_eq-sym a b h = elim (Bool-cases (str_eq b a)) [
  | inl e ↦
      absurd
        (false≢true (sym h ∙ subst (λ x. str_eq a x ≡ true) (sym ((eq_iff b a).0 e)) (eq_refl a)))
  | inr e ↦ e
]

pub Unique-append :
    (p : String) (d : ℕ) (w : Why) (ns : List Node)
    → visited p ns ≡ false
    → Unique ns
    → Unique (ns ++ record { term_id = p; depth = d; why = w } ∷ [])
Unique-append p d w [] v u = (refl, tt)
Unique-append p d w (n ∷ ns) v u =
    let fresh : visited p ns ≡ false = ground (arith, v) in
    let other : str_eq p n.term_id ≡ false = ground (arith, v) in
    let sym_other = str_eq-sym p n.term_id other in
    (
      ground (arith, u.0, sym_other, visited-append n.term_id p d w ns),
      Unique-append p d w ns fresh u.1,
    )

-- The invariant of the search at depth `d`, after the entries `done`: the nodes are these and the queued
-- ones; those queued are terms, in rising depth; none is deeper than the next round.
pub record Ready (terms : List Term) (d : ℕ) (done : List (String × ℕ)) (s : Search) : Type 0 where
  pub keys : node_keys s.nodes ≡ done ++ entry_keys s.queue
  pub unique : Unique s.nodes
  pub shallow : Shallow (suc d) s.nodes
  pub shallow_queue : ShallowQueue (suc d) s.queue
  pub rising : Rising d s.queue
  pub known_queue : KnownQueue terms s.queue

pub known_of :
    (p : String) (terms : List Term) (t : Term) → get_term p terms ≡ some t → known p terms ≡ true
known_of p terms t e = ground (arith, e)

enqueue-Ready :
    (terms : List Term) (d : ℕ) (done : List (String × ℕ)) (s : Search) (p label : String) (w : Why)
    → Ready terms d done s
    → visited p s.nodes ≡ false
    → known p terms ≡ true
    → Ready terms d done (enqueue p label (suc d) w s)
enqueue-Ready terms d done s p label w r v k =
    let e : Entry = record { term_id = p; root_label = label; depth = suc d } in
    let n : Node = record { term_id = p; depth = suc d; why = w } in
    record {
      keys =
          node_keys-append s.nodes n
          ∙ ap (λ l. l ++ (p, suc d) ∷ []) r.keys
          ∙ append_assoc done (entry_keys s.queue) ((p, suc d) ∷ [])
          ∙ ap (λ l. done ++ l) (sym (entry_keys-append s.queue e));
      unique = Unique-append p (suc d) w s.nodes v r.unique;
      shallow = All-append _ s.nodes (n ∷ []) r.shallow (omega arith, tt);
      shallow_queue = All-append _ s.queue (e ∷ []) r.shallow_queue (omega arith, tt);
      rising = Rising-append d e s.queue (omega arith) r.rising r.shallow_queue;
      known_queue = All-append _ s.queue (e ∷ []) r.known_queue (k, tt);
    }

pub visit_one-Ready :
    (terms : List Term) (current : Term) (e : Entry) (p : String) (done : List (String × ℕ))
    (s : Search)
    → Ready terms e.depth done s
    → Ready terms e.depth done (visit_one terms current e p s)
visit_one-Ready terms current e p done s r = elim (Bool-cases (visited p s.nodes)) [
  | inl v ↦ rw v r
  | inr v ↦ elim (Option-cases (get_term p terms)) [
    | inl g ↦ rw (v, g) r
    | inr (t, g) ↦
        rw (v, g) (enqueue-Ready terms e.depth done s p e.root_label _ r v (known_of p terms t g))
  ]
]

pub visit-Ready :
    (terms : List Term) (current : Term) (e : Entry) (ps : List String) (done : List (String × ℕ))
    (s : Search)
    → Ready terms e.depth done s
    → Ready terms e.depth done (visit terms current e ps s)
unfolding visit
visit-Ready terms current e [] done s r = r
visit-Ready terms current e (p ∷ ps) done s r =
    visit-Ready terms current e ps done (visit_one terms current e p s)
      (visit_one-Ready terms current e p done s r)
