-- ===== src/Api/Pages.antt =====
-- A client that follows `next_cursor` through `list_practice` of cpa_first/api/main.py.
use xeno_pre_test.Prelude.{
  ℕ, zero, suc, ◌+◌, ◌<◌, ◌≤◌, min, ◌≡◌, refl, sym, ap, ◌∙◌, subst, Bool, true, false, ◌==◌,
  if◌then◌else◌, Option, none, some, List, [], ◌∷◌, ◌++◌, map, String, length, length-map, max, ◌-◌,
  ==_iff, take, keep, arith, Bool-cases, inl, inr, length-append,
}
use xeno_pre_test.Api.Model.{Question, id_of}
use xeno_pre_test.Api.Order.{
  Ascending, collect_lem, Ascending-keep, keep_behind, take-Cut, take_short,
}
use xeno_pre_test.Api.Practice.{
  Brief, practice_brief, Filters, passes, is_after, collect, capped, last_id, list_practice,
}

-- What follows a page with this cursor.
abbrev pub next_pages : (String → List Brief) → Option String → List Brief
next_pages go none = []
next_pages go (some cursor) = go cursor

-- The pages from a cursor on, at most so many.
unfoldable pub pages : ℕ → List Question → Filters → ℕ → String → List Brief
unfolding list_practice
pages zero questions f limit after = []
pages (suc n) questions f limit after =
    let page = list_practice questions f limit after in
    page.questions ++ next_pages (pages n questions f limit) page.next_cursor

last_id-map :
    (ms : List Question) (m : Question)
    → last_id (map practice_brief (ms ++ m ∷ [])) ≡ some (id_of m)
unfolding last_id practice_brief
last_id-map [] m = refl
last_id-map (x ∷ []) m = refl
last_id-map (x ∷ y ∷ ms) m = last_id-map (y ∷ ms) m

map_join :
    (xs ys : List Question) (m : Question)
    → map practice_brief (xs ++ m ∷ []) ++ map practice_brief ys ≡ map practice_brief (xs ++ m ∷ ys)
map_join [] ys m = refl
map_join (x ∷ xs) ys m = ap (λ l. practice_brief x ∷ l) (map_join xs ys m)

capped-suc : (limit : ℕ) → (k : ℕ) × (capped limit ≡ suc k)
unfolding capped
capped-suc limit = (max 1 (min limit 50) - 1, omega arith)

append_assoc : (xs ys zs : List Question) → (xs ++ ys) ++ zs ≡ xs ++ (ys ++ zs)
append_assoc [] ys zs = refl
append_assoc (x ∷ xs) ys zs = ap (λ l. x ∷ l) (append_assoc xs ys zs)

-- A page and what follows it.
abbrev resume : (String → List Brief) → ℕ → List Brief → List Brief
resume go n out = out ++ next_pages go (if length out == n then last_id out else none)

append_nil : (bs : List Brief) → bs ++ [] ≡ bs
append_nil [] = refl
append_nil (b ∷ bs) = ap (λ l. b ∷ l) (append_nil bs)

resume_end :
    (go : String → List Brief) (n : ℕ) (out : List Brief)
    → (length out == n) ≡ false
    → resume go n out ≡ out
resume_end go n out h = rw h (append_nil out)

resume_full :
    (go : String → List Brief) (n : ℕ) (before later : List Question) (m : Question)
    → (length (map practice_brief (before ++ m ∷ [])) == n) ≡ true
    → go (id_of m) ≡ map practice_brief later
    → resume go n (map practice_brief (before ++ m ∷ [])) ≡ map practice_brief (before ++ m ∷ later)
resume_full go n before later m h e = rw (h, last_id-map before m, e) (map_join before later m)

resume_lem :
    (go : String → List Brief) (k : ℕ) (later : List Question)
    → ((bs : List Question) (m : Question) (ls : List Question)
        → later ≡ bs ++ m ∷ ls
        → go (id_of m) ≡ map practice_brief ls)
    → resume go (suc k) (map practice_brief (take (suc k) later)) ≡ map practice_brief later
resume_lem go k later next = elim (Bool-cases (length (take (suc k) later) == suc k)) [
  | inl full ↦
      let cut = take-Cut k later ((==_iff (length (take (suc k) later)) (suc k)).0 full) in
      let counted : (length (map practice_brief (cut.before ++ cut.final ∷ [])) == suc k) ≡ true =
        subst (λ ms. (length (map practice_brief ms) == suc k) ≡ true) cut.page
          (rw (length-map (take (suc k) later) practice_brief) full) in
      ap (λ ms. resume go (suc k) (map practice_brief ms)) cut.page
      ∙ resume_full go (suc k) cut.before cut.later cut.final counted
          (next cut.before cut.final cut.later cut.split)
      ∙ ap (λ ms. map practice_brief ms) (sym cut.split)
  | inr short ↦
      let some_left : (length (map practice_brief (take (suc k) later)) == suc k) ≡ false =
        rw (length-map (take (suc k) later) practice_brief) short in
      resume_end go (suc k) _ some_left
      ∙ ap (λ ms. map practice_brief ms) (take_short (suc k) later short)
]

-- What stands behind the item `m`.
behind_of :
    (found before later bs : List Question) (m : Question) (ls : List Question)
    → Ascending found
    → found ≡ before ++ later
    → later ≡ bs ++ m ∷ ls
    → (found ≡ ((before ++ bs) ++ (m ∷ [])) ++ ls)
      × (keep (is_after (id_of m)) found ≡ ls)
      × (length ls < length later)
behind_of found before later bs m ls a s split =
    let at_m : found ≡ (before ++ bs) ++ (m ∷ ls) =
      s ∙ ap (λ x. before ++ x) split ∙ sym (append_assoc before bs (m ∷ ls)) in
    let shorter : length later ≡ length bs + suc (length ls) =
      ap (λ x. length x) split ∙ length-append bs (m ∷ ls) in
    (
      at_m ∙ sym (append_assoc (before ++ bs) (m ∷ []) ls),
      ap (λ x. keep (is_after (id_of m)) x) at_m
          ∙ keep_behind (before ++ bs) ls m (subst Ascending at_m a),
      omega (arith, shorter),
    )

-- From a cursor behind which stand `later`, of all questions `found` that match.
pages_from :
    (n : ℕ) (questions : List Question) (f : Filters) (limit : ℕ) (after : String)
    (found before later : List Question)
    → Ascending found
    → keep (passes f) questions ≡ found
    → found ≡ before ++ later
    → keep (is_after after) found ≡ later
    → length later < n
    → pages n questions f limit after ≡ map practice_brief later
unfolding pages list_practice
pages_from zero questions f limit after found before later a k s c l = absurd (omega arith)
pages_from (suc n) questions f limit after found before later a k s c l =
    let (size, cap) = capped-suc limit in
    let go = pages n questions f limit in
    let out : collect f after (capped limit) questions
        ≡ map practice_brief (take (capped limit) later) =
      collect_lem f after (capped limit) questions
      ∙ ap (λ ms. map practice_brief (take (capped limit) (keep (is_after after) ms))) k
      ∙ ap (λ ms. map practice_brief (take (capped limit) ms)) c in
    ap (resume go (capped limit)) out
    ∙ subst (λ c. resume go c (map practice_brief (take c later)) ≡ map practice_brief later)
        (sym cap)
        (resume_lem go size later (λ bs m ls split.
          (let (behind, rest, shorter) = behind_of found before later bs m ls a s split in
            pages_from n questions f limit (id_of m) found ((before ++ bs) ++ (m ∷ [])) ls a k
              behind rest (omega (arith, shorter)))))

length-keep-le : (p : Question → Bool) (ms : List Question) → length (keep p ms) ≤ length ms
length-keep-le p [] = omega arith
length-keep-le p (m ∷ ms) = ground (arith, length-keep-le p ms)

keep_none : (ms : List Question) → keep (is_after "") ms ≡ ms
keep_none [] = refl
keep_none (m ∷ ms) = ap (λ l. m ∷ l) (keep_none ms)

-- Where the questions stand in the strict order of their ids, and no id is empty, a client that starts
-- without a cursor and follows each next one gets, in one call more than there are questions at most,
-- the brief of each question that passes the filters, once and in order, whatever the limit.
pub pages_lem :
    (questions : List Question) (f : Filters) (limit : ℕ)
    → Ascending questions
    → pages (suc (length questions)) questions f limit ""
      ≡ map practice_brief (keep (passes f) questions)
pages_lem questions f limit a =
    let found = keep (passes f) questions in
    pages_from (suc (length questions)) questions f limit "" found [] found
      (Ascending-keep (passes f) questions a) refl refl (keep_none found)
      (omega (arith, length-keep-le (passes f) questions))
