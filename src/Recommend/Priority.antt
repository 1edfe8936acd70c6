-- ===== src/Recommend/Priority.antt =====
-- The order of the scores of cpa_first/engine/recommend.py, for subjects at risk of failing and others.
use xeno_pre_test.Prelude.{◌≡◌, Bool, true, Option, none, some, List, String, mem_str, leb, arith}
use xeno_pre_test.Recommend.Score.{Item, SubjectState, score_item, lower, is_failing}

-- Not a subject at risk: one without a state, or whose accuracy is not below the line.
abbrev pub is_safe : Option SubjectState → Bool
is_safe none = true
is_safe (some s) = leb 4000 s.accuracy

-- A problem of a subject at risk of failing has a higher score than a problem of a subject that is not, if both
-- were attempted before or neither was.
pub score_item_failing :
    (i j : Item) (s : SubjectState) (other : Option SubjectState) (attempted : List String)
    → is_failing s ≡ true
    → is_safe other ≡ true
    → mem_str i.question_id attempted ≡ mem_str j.question_id attempted
    → lower (score_item j other attempted) (score_item i (some s) attempted) ≡ true
unfolding score_item
score_item_failing i j s none attempted f g e = ground (arith, e)
score_item_failing i j s (some t) attempted f g e = ground (arith, e)
