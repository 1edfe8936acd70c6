-- ===== src/Recommend/Fair.antt =====
-- The entries that the turns of `_balanced_solve_entries` in cpa_first/engine/recommend.py give.
use mathlib.Core.List.Perm
use mathlib.Core.List.{append_assoc, perm_append_comm}
use mathlib.Core.Bool.{false≢true}
use xeno_pre_test.Prelude.{
  ℕ, zero, suc, ◌+◌, ◌≤◌, ◌<◌, ◌≡◌, ◌⊎◌, refl, sym, ap, subst, true, false, any, List, [], ◌∷◌,
  ◌++◌, Perm, length, length-append, drop, arith, inl, inr,
}
use xeno_pre_test.Recommend.Score.{Item}
use xeno_pre_test.Recommend.Balanced.{Groups, is_left, turn}

abbrev pub all_items : Groups → List Item
all_items [] = []
all_items ((s, items) ∷ groups) = items ++ all_items groups

-- Each of the groups without its first `k` items.
abbrev pub Exactly : ℕ → Groups → Groups → Type 0
Exactly k [] [] = Unit
Exactly k [] (h ∷ later) = ⊥
Exactly k (g ∷ groups) [] = ⊥
Exactly k ((s, items) ∷ groups) ((t, left) ∷ later) = (left ≡ drop k items) × Exactly k groups later

-- Each of the groups without its first `k` items, or without one more.
abbrev pub Served : ℕ → Groups → Groups → Type 0
Served k [] [] = Unit
Served k [] (h ∷ later) = ⊥
Served k (g ∷ groups) [] = ⊥
Served k ((s, items) ∷ groups) ((t, left) ∷ later) =
    ((left ≡ drop k items) ⊎ (left ≡ drop (suc k) items)) × Served k groups later

pub Exactly-Served :
    (k : ℕ) (groups later : Groups) → Exactly k groups later → Served k groups later
Exactly-Served k [] [] h = tt
Exactly-Served k [] (l ∷ later) h = absurd h
Exactly-Served k (g ∷ groups) [] h = absurd h
Exactly-Served k (g ∷ groups) (l ∷ later) h = (inl h.0, Exactly-Served k groups later h.1)

drop_none : (k : ℕ) (items : List Item) → [] ≡ drop k items → [] ≡ drop (suc k) items
drop_none zero [] h = refl
drop_none zero (i ∷ items) h =
    absurd (false≢true (ap (λ l. elim l [ [] ↦ false | x ∷ xs ↦ true ]) h))
drop_none (suc k) [] h = refl
drop_none (suc k) (i ∷ items) h = drop_none k items h

drop_one :
    (k : ℕ) (i : Item) (left items : List Item)
    → i ∷ left ≡ drop k items
    → left ≡ drop (suc k) items
drop_one zero i left [] h =
    absurd (false≢true (sym (ap (λ l. elim l [ [] ↦ false | x ∷ xs ↦ true ]) h)))
drop_one zero i left (j ∷ items) h = ap (λ l. elim l [ [] ↦ [] | x ∷ xs ↦ xs ]) h
drop_one (suc k) i left [] h =
    absurd (false≢true (sym (ap (λ l. elim l [ [] ↦ false | x ∷ xs ↦ true ]) h)))
drop_one (suc k) i left (j ∷ items) h = drop_one k i left items h

pub turn-Served :
    (k room : ℕ) (groups now : Groups) → Exactly k groups now → Served k groups (turn room now).1
unfolding turn
turn-Served k room [] [] h = tt
turn-Served k room [] (l ∷ now) h = absurd h
turn-Served k room (g ∷ groups) [] h = absurd h
turn-Served k zero (g ∷ groups) (l ∷ now) h = Exactly-Served k (g ∷ groups) (l ∷ now) h
turn-Served k (suc room) ((s, items) ∷ groups) ((t, []) ∷ now) h =
    (inl h.0, turn-Served k (suc room) groups now h.1)
turn-Served k (suc room) ((s, items) ∷ groups) ((t, i ∷ left) ∷ now) h =
    (inr (drop_one k i left items h.0), turn-Served k room groups now h.1)

-- A turn with room to spare gets through all of the groups.
pub turn-Exactly :
    (k room : ℕ) (groups now : Groups)
    → Exactly k groups now
    → length (turn room now).0 < room
    → Exactly (suc k) groups (turn room now).1
unfolding turn
turn-Exactly k room [] [] h l = tt
turn-Exactly k room [] (n ∷ now) h l = absurd h
turn-Exactly k room (g ∷ groups) [] h l = absurd h
turn-Exactly k zero (g ∷ groups) (n ∷ now) h l = absurd (omega (arith, l))
turn-Exactly k (suc room) ((s, items) ∷ groups) ((t, []) ∷ now) h l =
    (drop_none k items h.0, turn-Exactly k (suc room) groups now h.1 l)
turn-Exactly k (suc room) ((s, items) ∷ groups) ((t, i ∷ left) ∷ now) h l =
    (drop_one k i left items h.0, turn-Exactly k room groups now h.1 (omega (arith, l)))

pub length-turn : (room : ℕ) (now : Groups) → length (turn room now).0 ≤ room
unfolding turn
length-turn room [] = omega arith
length-turn zero (g ∷ now) = omega arith
length-turn (suc room) ((s, []) ∷ now) = length-turn (suc room) now
length-turn (suc room) ((s, i ∷ left) ∷ now) = omega (arith, length-turn room now)

pub turn_progress :
    (room : ℕ) (now : Groups) → any is_left now ≡ true → 0 < room → 0 < length (turn room now).0
unfolding turn
turn_progress room [] a r = absurd (false≢true a)
turn_progress zero (g ∷ now) a r = absurd (omega (arith, r))
turn_progress (suc room) ((s, []) ∷ now) a r = turn_progress (suc room) now a r
turn_progress (suc room) ((s, i ∷ left) ∷ now) a r = omega arith

pub nothing_left : (now : Groups) → any is_left now ≡ false → all_items now ≡ []
nothing_left [] a = refl
nothing_left ((s, []) ∷ now) a = nothing_left now a
nothing_left ((s, i ∷ left) ∷ now) a = absurd (false≢true (sym a))

-- A list is moved behind another one.
pub move : (xs ys zs : List Item) → Perm (xs ++ (ys ++ zs)) (ys ++ (xs ++ zs))
move xs ys zs =
    subst (λ l. Perm l (ys ++ (xs ++ zs))) (append_assoc xs ys zs)
      (subst (λ l. Perm ((xs ++ ys) ++ zs) l) (append_assoc ys xs zs)
        (Perm.append_right zs (perm_append_comm xs ys)))

pub turn-Perm :
    (room : ℕ) (now : Groups)
    → Perm ((turn room now).0 ++ all_items (turn room now).1) (all_items now)
unfolding turn
turn-Perm room [] = Perm.refl _
turn-Perm zero (g ∷ now) = Perm.refl _
turn-Perm (suc room) ((s, []) ∷ now) = turn-Perm (suc room) now
turn-Perm (suc room) ((s, i ∷ left) ∷ now) = Perm.cons i (
    Perm.trans (move (turn room now).0 left (all_items (turn room now).1))
      (Perm.append_left left (turn-Perm room now)))

pub turn-count :
    (room : ℕ) (now : Groups)
    → length (turn room now).0 + length (all_items (turn room now).1) ≡ length (all_items now)
unfolding turn
turn-count room [] = omega arith
turn-count zero (g ∷ now) = omega arith
turn-count (suc room) ((s, []) ∷ now) = turn-count (suc room) now
turn-count (suc room) ((s, i ∷ left) ∷ now) = omega (
  arith,
  turn-count room now,
  length-append left (all_items (turn room now).1),
  length-append left (all_items now),
)
