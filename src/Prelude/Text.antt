-- ===== src/Prelude/Text.antt =====
-- Texts that the program only compares: equality, and the order by code points that Python sorts by.
use Prim.Native.Nat.{Ordering}
use Prim.Native.String.{String, compare}
use mathlib.Core.Path.{◌≡◌, sym, ◌∙◌}
use mathlib.Core.Logic.{inl, inr}
use mathlib.Core.Bool.{Bool, true, false, ◌||◌, false≢true}
use xeno_pre_test.Prelude.Tests.{Bool-cases}
use mathlib.Core.List.{List, [], ◌∷◌}
pub use text.Mathlib.Text.{◌==◌ as str_eq}
pub use text.Mathlib.TextEquality.{eq_iff}
pub use text.Mathlib.TextPositions.{eq_refl}

-- `s <= t`
abbrev pub str_leb : String → String → Bool
str_leb s t = elim (compare s t) [ Ordering.gt ↦ false | _ ↦ true ]

-- `s in xs`
abbrev pub mem_str : String → List String → Bool
mem_str s [] = false
mem_str s (x ∷ xs) = str_eq s x || mem_str s xs

pub str_neq_sym : (s t : String) → str_eq s t ≡ false → str_eq t s ≡ false
str_neq_sym s t h = elim (Bool-cases (str_eq t s)) [
  | inl e ↦
      let same : t ≡ s = (eq_iff t s).0 e in absurd (false≢true (sym h ∙ (eq_iff s t).1 (sym same)))
  | inr e ↦ e
]
