-- ===== src/LearningPath/Resources.antt =====
-- `_resources_index` and `_confusables` of cpa_first/engine/learning_path.py: what a term's node in the path
-- lists. Weights are in ten-thousandths.
use xeno_pre_test.Prelude.{
  ℕ, Bool, ◌&&◌, ◌||◌, ◌==◌, ltb, Option, none, some, List, [], ◌∷◌, String, str_eq, str_leb, keep,
  take, sorted,
}
use mathlib.Core.Option.{get_or}
use xeno_pre_test.LearningPath.Trace.{Term, get_term}

pub record Edge : Type 0 where
  pub from_term : String
  pub to_kind : String
  pub to_id : String
  pub weight : ℕ

-- The key `(-weight, id)`.
abbrev pub heavier : Edge → Edge → Bool
heavier a b = ltb b.weight a.weight || ((a.weight == b.weight) && str_leb a.to_id b.to_id)

abbrev pub leads : String → String → Edge → Bool
leads kind i e = str_eq e.to_kind kind && str_eq e.from_term i

-- A term's bucket of one kind, at most MAX_RESOURCES_PER_KIND of it.
unfoldable pub bucket : String → String → List Edge → List Edge
bucket kind i edges = take 3 (sorted heavier (keep (leads kind i) edges))

pub record Resources : Type 0 where
  pub chunks : List Edge
  pub problems : List Edge
  pub tutorials : List Edge

-- `resources_by_term.get(term_id, _empty_resources())`
unfoldable pub resources_of : String → List Edge → Resources
unfolding bucket
resources_of i edges = record {
  chunks = bucket "rag_chunk" i edges;
  problems = bucket "problem" i edges;
  tutorials = bucket "tutorial" i edges;
}

-- An item of `confusable_with`, whose id and reason may be missing.
pub record Confusable : Type 0 where
  pub term_id : Option String
  pub reason : Option String

pub record Confused : Type 0 where
  pub term_id : String
  pub name_ko : String
  pub reason : String

unfoldable pub confusables : List Confusable → List Term → List Confused
confusables [] terms = []
confusables (c ∷ cs) terms = elim (get_term (get_or c.term_id "") terms) [
  | none ↦ confusables cs terms
  | some t ↦
      record {
        term_id = get_or c.term_id "";
        name_ko = get_or t.name_ko (get_or c.term_id "");
        reason = get_or c.reason "";
      }
      ∷ confusables cs terms
]
