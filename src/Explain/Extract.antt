-- ===== src/Explain/Extract.antt =====
-- `extract_json_object` of cpa_first/eval_gen/_json_extract.py. The parser of the standard library, `json.loads`,
-- and the search for a code block are parameters.
use Prim.Native.Char.{code}
use Prim.Native.String.{[] as nil, ◌∷◌}
use xeno_pre_test.Prelude.{◌==◌, if◌then◌else◌, Option, none, some, String}

-- `raw[raw.find("{"):]`, where there is one.
unfoldable pub from_brace : String → Option String
from_brace nil = none
from_brace (c ∷ s) = if code c == 123 then some (c ∷ s) else from_brace s

-- `s[:s.rfind("}") + 1]`, where there is one.
unfoldable pub to_brace : String → Option String
to_brace nil = none
to_brace (c ∷ s) = elim (to_brace s) [
  | some t ↦ some (c ∷ t)
  | none ↦ if code c == 125 then some (c ∷ nil) else none
]

-- `raw[start : end + 1]`, where `end > start`.
unfoldable pub braces : String → Option String
unfolding from_brace to_brace
braces raw = elim (from_brace raw) [ none ↦ none | some s ↦ to_brace s ]

module _ {ℓ} {J : Type ℓ} (loads : String → Option J) (code_block : String → Option String) where
  -- `json.loads` of a part, where there is one.
  abbrev pub loads_part : Option String → Option J
  loads_part none = none
  loads_part (some s) = loads s

  -- The first value that is there.
  abbrev pub or_else : Option J → Option J → Option J
  or_else (some j) o = some j
  or_else none o = o

  unfoldable pub extract_json_object : String → Option J
  unfolding braces
  extract_json_object nil = none
  extract_json_object (c ∷ s) =
      or_else (loads_part (code_block (c ∷ s)))
        (or_else (loads_part (braces (c ∷ s))) (loads (c ∷ s)))
