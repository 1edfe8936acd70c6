-- ===== src/Tools/Floats.antt =====
-- `calculator` and `amortization_table` of cpa_first/solver/tools.py, over any type of floats with the operations
-- that they use. Python's floats are a parameter.
use xeno_pre_test.Prelude.{
  ℕ, zero, suc, Bool, if◌then◌else◌, List, [], ◌∷◌, String, str_eq, any, length,
}

-- What a tool gives, or the text of its `ValueError`. `invalid` is an input that its model refuses.
pub data Result {ℓ} (A : Type ℓ) : Type ℓ where
  ok : A → Result A
  invalid : Result A
  value_error : String → Result A

pub record FloatOps : Type 1 where
  pub Float : Type 0
  pub add : Float → Float → Float
  pub sub : Float → Float → Float
  pub mul : Float → Float → Float
  pub div : Float → Float → Float
  pub pow : Float → Float → Float
  pub is_zero : Float → Bool
  pub of_number : ℕ → Float
  pub round4 : Float → Float

module _ (F : FloatOps) where
  abbrev pub fold : (F.Float → F.Float → F.Float) → F.Float → List F.Float → F.Float
  fold f a [] = a
  fold f a (x ∷ xs) = fold f (f a x) xs

  -- `sum(nums)`
  abbrev pub sum : List F.Float → F.Float
  sum = fold F.add (F.of_number 0)

  -- `nums[0] ** nums[1]` of exactly two.
  abbrev pub power : List F.Float → Result F.Float
  power (x ∷ y ∷ []) = ok (F.pow x y)
  power _ = value_error "pow requires exactly 2 operands"

  unfoldable pub calculator : String → List F.Float → Result F.Float
  calculator op [] = invalid
  calculator op (n ∷ nums) =
      if str_eq op "add"
      then ok (sum (n ∷ nums))
      else if str_eq op "sub"
      then ok (F.sub n (sum nums))
      else if str_eq op "mul"
      then ok (fold F.mul (F.of_number 1) (n ∷ nums))
      else if str_eq op "div"
      then if any F.is_zero nums then value_error "division by zero" else ok (fold F.div n nums)
      else if str_eq op "pow"
      then power (n ∷ nums)
      else if str_eq op "sum"
      then ok (sum (n ∷ nums))
      else if str_eq op "avg"
      then ok (F.div (sum (n ∷ nums)) (F.of_number (length (n ∷ nums))))
      else invalid

  pub record Bond : Type 0 where
    pub face_value : F.Float
    pub coupon_rate : F.Float
    pub effective_rate : F.Float
    pub periods : ℕ
    pub initial_book_value : F.Float

  pub record Row : Type 0 where
    pub period : ℕ
    pub interest_revenue : F.Float
    pub cash_interest : F.Float
    pub amortization : F.Float
    pub ending_book_value : F.Float

  -- The row of a period that starts with this book value.
  unfoldable pub row_of : Bond → ℕ → F.Float → Row
  row_of b period book =
      let interest = F.round4 (F.mul book b.effective_rate) in
      let cash = F.round4 (F.mul b.face_value b.coupon_rate) in
      let amortization = F.round4 (F.sub interest cash) in
      record {
        period = period;
        interest_revenue = interest;
        cash_interest = cash;
        amortization = amortization;
        ending_book_value = F.round4 (F.add book amortization);
      }

  -- The rows of so many periods from this one on, and the final book value.
  unfoldable pub rows_from : Bond → ℕ → ℕ → F.Float → List Row × F.Float
  unfolding row_of
  rows_from b zero period book = ([], book)
  rows_from b (suc n) period book =
      let row = row_of b period book in
      let (rows, final) = rows_from b n (suc period) row.ending_book_value in (row ∷ rows, final)

  -- Of a bond that its model accepts.
  unfoldable pub amortization_table : Bond → List Row × F.Float
  unfolding rows_from
  amortization_table b = rows_from b b.periods 1 b.initial_book_value
