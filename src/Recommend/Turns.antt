-- ===== src/Recommend/Turns.antt =====
-- `_balanced_solve_entries` of cpa_first/engine/recommend.py ends, is as long as it may be, and is fair.
use mathlib.Core.List.Perm
use mathlib.Core.Nat as Unary
use mathlib.Core.List as UnaryList
use mathlib.Core.List.{append_assoc, append-nil, perm_append_comm, perm_append_singleton}
use xeno_pre_test.Prelude.{
  ℕ, zero, suc, ◌-◌, ◌<◌, ◌≡◌, ◌⊎◌, refl, sym, ap, ◌∙◌, subst, min, true, ◌||◌, ◌==◌, ==_iff, not,
  any, Option, some, List, [], ◌∷◌, ◌++◌, Perm, String, ltb, ltb→lt, str_eq, str_leb, length,
  length-append, sorted, insort, sorted-perm, arith, Bool-cases, inl, inr,
}
use xeno_pre_test.Recommend.Score.{Item}
use xeno_pre_test.Recommend.Balanced.{
  Groups, append_item, group_items, by_id, by_subject_name, subject_groups, is_left, turn, turns,
  before_rest, balanced_solve_entries,
}
use xeno_pre_test.Recommend.Fair.{
  all_items, Exactly, Served, Exactly-Served, turn-Served, turn-Exactly, length-turn, turn_progress,
  nothing_left, move, turn-Perm, turn-count,
}

-- What is left after `k` full turns, or after the last one.
abbrev Ready : ℕ → ℕ → Groups → Groups → Type 0
Ready k room groups now = Exactly k groups now ⊎ ((room ≡ 0) × Served k groups now)

-- The entries and what is left of the groups: as many entries as asked for, if there are so many items; nothing is
-- lost or taken twice; and each group has given its first `k` items or one more.
pub record IsFair (room : ℕ) (groups now : Groups) (found : Option (List Item × Groups))
    : Type 0 where
  pub entries : List Item
  pub left : Groups
  pub is_found : found ≡ some (entries, left)
  pub count : length entries ≡ min room (length (all_items now))
  pub kept : Perm (entries ++ all_items left) (all_items now)
  pub turns_taken : ℕ
  pub served : Served turns_taken groups left

no_more :
    (k fuel room : ℕ) (groups now : Groups)
    → Ready k room groups now
    → min room (length (all_items now)) ≡ 0
    → (room == 0 || not (any is_left now)) ≡ true
    → IsFair room groups now (turns (suc fuel) room now)
unfolding turns
no_more k fuel room groups now r none_more stop = rw stop record {
  entries = [];
  left = now;
  is_found = refl;
  count = sym none_more;
  kept = Perm.refl _;
  turns_taken = k;
  served = by_ready r;
}
  where
    by_ready : Ready k room groups now → Served k groups now
    by_ready (inl e) = Exactly-Served k groups now e
    by_ready (inr (z, s)) = s

-- A turn, and what the later ones find.
turn_more :
    (room : ℕ) (groups now : Groups) (found : Option (List Item × Groups))
    → IsFair (room - length (turn room now).0) groups (turn room now).1 found
    → IsFair room groups now (before_rest (turn room now).0 found)
turn_more room groups now found f =
    let entries = (turn room now).0 in
    record {
      entries = entries ++ f.entries;
      left = f.left;
      is_found = ap (before_rest entries) f.is_found;
      count = ground (
        arith,
        length-append entries f.entries,
        f.count,
        turn-count room now,
        length-turn room now,
      );
      kept =
          subst (λ l. Perm l (all_items now))
            (sym (append_assoc entries f.entries (all_items f.left)))
            (Perm.trans (Perm.append_left entries f.kept) (turn-Perm room now));
      turns_taken = f.turns_taken;
      served = f.served;
    }

more_to_give :
    (k room : ℕ) (groups now : Groups)
    → Exactly k groups now
    → (j : ℕ) × Ready j (room - length (turn room now).0) groups (turn room now).1
more_to_give k room groups now h = elim (Bool-cases (ltb (length (turn room now).0) room)) [
  | inl e ↦ (suc k, inl (turn-Exactly k room groups now h (ltb→lt _ _ e)))
  | inr e ↦ (k, inr (ground (arith, e, length-turn room now), turn-Served k room groups now h))
]

turns-IsFair :
    (k fuel room : ℕ) (groups now : Groups)
    → room < fuel
    → Ready k room groups now
    → IsFair room groups now (turns fuel room now)
unfolding turns
turns-IsFair k zero room groups now enough r = absurd (omega (arith, enough))
turns-IsFair k (suc fuel) room groups now enough (inr (none_left, s)) =
    no_more k fuel room groups now (inr (none_left, s)) (omega (arith, none_left))
      (rw none_left refl)
turns-IsFair k (suc fuel) room groups now enough (inl h) = elim (Bool-cases (room == 0)) [
  | inl z ↦ no_more k fuel room groups now (inl h) (omega (arith, (==_iff room 0).0 z)) (rw z refl)
  | inr z ↦ elim (Bool-cases (any is_left now)) [
    | inr a ↦
        no_more k fuel room groups now (inl h) (rw (nothing_left now a) (omega arith))
          (rw (z, a) refl)
    | inl a ↦
        let (j, ready) = more_to_give k room groups now h in
        let positive : 0 < room = ground (arith, z) in
        let some_entry = turn_progress room now a positive in
        rw (z, a)
          (turn_more room groups now _ (
            turns-IsFair j fuel (room - length (turn room now).0) groups (turn room now).1
              (omega (arith, some_entry, positive, enough)) ready))
  ]
]

Exactly-none : (groups : Groups) → Exactly 0 groups groups
Exactly-none [] = tt
Exactly-none ((s, items) ∷ groups) = (refl, Exactly-none groups)

append_item-Perm :
    (i : Item) (groups : Groups) → Perm (all_items (append_item i groups)) (i ∷ all_items groups)
unfolding append_item
append_item-Perm i [] = Perm.refl _
append_item-Perm i ((s, items) ∷ groups) = elim (Bool-cases (str_eq i.subject s)) [
  | inl e ↦ rw e (Perm.append_right (all_items groups) (perm_append_singleton i items))
  | inr e ↦ rw e (
      Perm.trans (Perm.append_left items (append_item-Perm i groups))
        (move items (i ∷ []) (all_items groups)))
]

group_items-Perm :
    (items : List Item) (groups : Groups)
    → Perm (all_items (group_items items groups)) (items ++ all_items groups)
unfolding group_items
group_items-Perm [] groups = Perm.refl _
group_items-Perm (i ∷ items) groups = Perm.trans (group_items-Perm items (append_item i groups)) (
    Perm.trans (Perm.append_left items (append_item-Perm i groups))
      (move items (i ∷ []) (all_items groups)))

insort-all_items :
    (g : String × List Item) (groups : Groups)
    → Perm (all_items (insort by_subject_name g groups)) (g.1 ++ all_items groups)
unfolding insort
insort-all_items g [] = Perm.refl _
insort-all_items g ((t, items) ∷ groups) = elim (Bool-cases (str_leb g.0 t)) [
  | inl e ↦ rw e (Perm.refl _)
  | inr e ↦ rw e (
      Perm.trans (Perm.append_left items (insort-all_items g groups))
        (move items g.1 (all_items groups)))
]

sorted-all_items :
    (groups : Groups) → Perm (all_items (sorted by_subject_name groups)) (all_items groups)
unfolding sorted
sorted-all_items [] = Perm.refl _
sorted-all_items ((s, items) ∷ groups) =
    Perm.trans (insort-all_items (s, items) (sorted by_subject_name groups))
      (Perm.append_left items (sorted-all_items groups))

subject_groups-Perm : (items : List Item) → Perm (all_items (subject_groups items)) items
unfolding subject_groups
subject_groups-Perm items = Perm.trans (sorted-all_items (group_items (sorted by_id items) [])) (
    Perm.trans (group_items-Perm (sorted by_id items) [])
      (subst (λ l. Perm l items) (sym (append-nil (sorted by_id items))) (sorted-perm by_id items)))

-- A unary number, as a native one.
abbrev count_up : Unary.ℕ → ℕ
count_up Unary.zero = 0
count_up (Unary.suc n) = suc (count_up n)

length-count_up : (items : List Item) → count_up (UnaryList.length items) ≡ length items
length-count_up [] = refl
length-count_up (i ∷ items) = ap suc (length-count_up items)

length_Perm : (xs ys : List Item) → Perm xs ys → length xs ≡ length ys
length_Perm xs ys p = sym (length-count_up xs) ∙ ap count_up (Perm.length-eq p) ∙ length-count_up ys

-- For a user without any subject the loop ends with the fuel given, with `n_solve` entries, or all items where they
-- are fewer. The entries and what is left of the groups are together the items; and for some number `k` of turns,
-- each subject's group has given its first `k` items or its first `k + 1`.
pub balanced_solve_entries_lem :
    (items : List Item) (n_solve : ℕ)
    → (entries : List Item) × (left : Groups) × (balanced_solve_entries items n_solve
        ≡ some (entries, left))
      × (length entries ≡ min n_solve (length items))
      × Perm (entries ++ all_items left) items
      × ((k : ℕ) × Served k (subject_groups items) left)
unfolding balanced_solve_entries
balanced_solve_entries_lem items n_solve =
    let groups = subject_groups items in
    let f =
      turns-IsFair 0 (suc n_solve) n_solve groups groups (omega arith)
        (inl (Exactly-none groups)) in
    let same = subject_groups-Perm items in
    (
      f.entries,
      f.left,
      f.is_found,
      f.count ∙ ap (min n_solve) (length_Perm (all_items groups) items same),
      Perm.trans f.kept same,
      (f.turns_taken, f.served),
    )
