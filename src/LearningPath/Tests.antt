-- ===== src/LearningPath/Tests.antt =====
-- `_trace_prerequisites` (cpa_first/engine/learning_path.py) on a graph with a cycle.
use xeno_pre_test.Prelude.{◌≡◌, refl, ◌≤◌, none, List, [], ◌∷◌, String, arith, All, true}
use xeno_pre_test.LearningPath.Trace.{Term, Node, traced, trace_prerequisites}
use xeno_pre_test.LearningPath.Visit.{within}
use xeno_pre_test.LearningPath.Ready.{Unique}
use xeno_pre_test.LearningPath.Chain.{Chain, root, step}
use xeno_pre_test.LearningPath.Shortest.{trace_prerequisites_sound, trace_prerequisites_nearest}
use xeno_pre_test.Prelude.{sorted, insort, some}
use xeno_pre_test.LearningPath.Match.{Forms, match_concept, candidates, candidates_of}

abbrev term : String → List String → Term
term i prerequisites = record { term_id = i; name_ko = none; prerequisite_terms = prerequisites }

abbrev graph : List Term
graph =
    term "bond" ("interest" ∷ "present_value" ∷ "gone" ∷ [])
    ∷ term "present_value" ("interest" ∷ "bond" ∷ [])
    ∷ term "interest" []
    ∷ []

abbrev weak : List (String × String)
weak = ("bond", "Bonds") ∷ []

to_interest : Chain weak graph "interest" 1
to_interest =
    step (term "bond" ("interest" ∷ "present_value" ∷ "gone" ∷ [])) "interest" (root "bond" refl)
      refl refl refl

trace_prerequisites_sound_example :
    (nodes : List Node) × (trace_prerequisites weak graph 3 ≡ traced nodes)
    × Unique nodes
    × All (λ n. Chain weak graph n.term_id n.depth × (n.depth ≤ 3)) nodes
trace_prerequisites_sound_example = trace_prerequisites_sound weak graph 3 (refl, tt)

trace_prerequisites_nearest_example :
    (nodes : List Node) × (trace_prerequisites weak graph 3 ≡ traced nodes)
    × (within 1 "interest" nodes ≡ true)
trace_prerequisites_nearest_example =
    trace_prerequisites_nearest weak graph 3 "interest" 1 (refl, tt) to_interest (omega arith)

abbrev forms : List Forms
forms =
    record { term_id = "bond"; forms = "bond" ∷ "bonds payable" ∷ [] }
    ∷ record { term_id = "interest"; forms = "interest" ∷ [] }
    ∷ []

bonds_match : match_concept ("tax: bonds" ∷ "bonds" ∷ []) forms ≡ some "bond"
unfolding match_concept candidates candidates_of sorted insort
bonds_match = refl
