-- ===== src/Solver/RouteText.antt =====
-- Routes that are written as a text and parsed again (cpa_first/solver/routing.py).
use xeno_pre_test.Prelude.{
  ℕ, ◌≡◌, refl, sym, ap, ◌∙◌, false, ◌==◌, ==_iff, some, List, [], ◌∷◌, ◌++◌, map, All,
}
use mathlib.Core.Bool.{false≢true}
use mathlib.Core.List.{append_assoc, append-nil}
use xeno_pre_test.Solver.Routing.{
  Text, text_eq, is_empty, split_on, split_first, comma, colon, Routes, route, add_pair, add_pairs,
  parse_routes,
}

-- `c not in s`
abbrev pub HasNo : ℕ → Text → Type 0
HasNo c = All (λ x. (x == c) ≡ false)

abbrev pub pair_text : Text → Text → Text
pair_text s b = s ++ (colon ∷ b)

-- `",".join(s + ":" + b for s, b in routes)`
abbrev pub print_routes : Routes → Text
print_routes [] = []
print_routes ((s, b) ∷ []) = pair_text s b
print_routes ((s, b) ∷ r ∷ routes) = pair_text s b ++ (comma ∷ print_routes (r ∷ routes))

abbrev pub pair_texts : Routes → List Text
pair_texts = map (λ (s, b). pair_text s b)

split_on-append :
    (c : ℕ) (s rest : Text) → HasNo c s → split_on c (s ++ (c ∷ rest)) ≡ s ∷ split_on c rest
unfolding split_on
split_on-append c [] rest h = rw ((==_iff c c).1 refl)
split_on-append c (x ∷ s) rest h = rw (h.0, split_on-append c s rest h.1) refl

split_on_whole : (c : ℕ) (s : Text) → HasNo c s → split_on c s ≡ s ∷ []
unfolding split_on
split_on_whole c [] h = refl
split_on_whole c (x ∷ s) h = rw (h.0, split_on_whole c s h.1) refl

split_first-append :
    (c : ℕ) (s rest : Text) → HasNo c s → split_first c (s ++ (c ∷ rest)) ≡ some (s, rest)
unfolding split_first
split_first-append c [] rest h = rw ((==_iff c c).1 refl)
split_first-append c (x ∷ s) rest h = rw (h.0, split_first-append c s rest h.1) refl

HasNo-append : (c : ℕ) (s t : Text) → HasNo c s → HasNo c t → HasNo c (s ++ t)
HasNo-append c [] t hs ht = ht
HasNo-append c (x ∷ s) t hs ht = (hs.0, HasNo-append c s t hs.1 ht)

module _ (strip lower : Text → Text) where
  -- A route whose text is read back: neither part is empty, has spaces at its ends, a comma or, in the subject, a
  -- colon, and the backend is in lower case.
  pub record IsPlain (s b : Text) : Type 0 where
    pub subject : is_empty s ≡ false
    pub backend : is_empty b ≡ false
    pub stripped : strip (pair_text s b) ≡ pair_text s b
    pub subject_stripped : strip s ≡ s
    pub backend_stripped : strip b ≡ b
    pub backend_lower : lower b ≡ b
    pub subject_comma : HasNo comma s
    pub backend_comma : HasNo comma b
    pub subject_colon : HasNo colon s

  abbrev pub AllPlain : Routes → Type 0
  AllPlain [] = Unit
  AllPlain ((s, b) ∷ routes) = IsPlain s b × AllPlain routes

  -- No subject stands twice.
  abbrev pub Distinct : Routes → Type 0
  Distinct [] = Unit
  Distinct ((s, b) ∷ routes) = All (λ r. text_eq r.0 s ≡ false) routes × Distinct routes

  route_new :
      (s b : Text) (routes : Routes)
      → All (λ r. text_eq s r.0 ≡ false) routes
      → route s b routes ≡ routes ++ ((s, b) ∷ [])
  unfolding route
  route_new s b [] h = refl
  route_new s b ((t, c) ∷ routes) h = rw (h.0, route_new s b routes h.1) refl

  not_empty : (s t : Text) → is_empty s ≡ false → is_empty (s ++ t) ≡ false
  not_empty [] t h = absurd (false≢true (sym h))
  not_empty (x ∷ s) t h = refl

  add_pair_lem :
      (s b : Text) (routes : Routes)
      → IsPlain s b
      → All (λ r. text_eq s r.0 ≡ false) routes
      → add_pair strip lower (pair_text s b) routes ≡ some (routes ++ ((s, b) ∷ []))
  unfolding add_pair
  add_pair_lem s b routes p new =
      rw
        (
          p.stripped,
          not_empty s (colon ∷ b) p.subject,
          split_first-append colon s b p.subject_colon,
        )
        (rw (p.subject_stripped, p.backend_stripped)
          (rw p.backend_lower (rw (p.subject, p.backend) (ap some (route_new s b routes new)))))

  -- No subject of `later` is one of `found`.
  abbrev Apart : Routes → Routes → Type 0
  Apart found [] = Unit
  Apart found ((s, b) ∷ later) = All (λ r. text_eq s r.0 ≡ false) found × Apart found later

  Apart-snoc :
      (s b : Text) (found later : Routes)
      → All (λ r. text_eq r.0 s ≡ false) later
      → Apart found later
      → Apart (found ++ ((s, b) ∷ [])) later
  Apart-snoc s b found [] h a = tt
  Apart-snoc s b found ((t, c) ∷ later) h a = (snoc found a.0, Apart-snoc s b found later h.1 a.1)
    where
      snoc :
          (xs : Routes)
          → All (λ r. text_eq t r.0 ≡ false) xs
          → All (λ r. text_eq t r.0 ≡ false) (xs ++ ((s, b) ∷ []))
      snoc [] k = (h.0, tt)
      snoc (x ∷ xs) k = (k.0, snoc xs k.1)

  add_pairs_lem :
      (later found : Routes)
      → AllPlain later
      → Distinct later
      → Apart found later
      → add_pairs strip lower (pair_texts later) found ≡ some (found ++ later)
  unfolding add_pairs
  add_pairs_lem [] found p d a = ap some (sym (append-nil found))
  add_pairs_lem ((s, b) ∷ later) found p d a =
      rw (add_pair_lem s b found p.0 a.0, add_pairs)
        (add_pairs_lem later (found ++ ((s, b) ∷ [])) p.1 d.1 (Apart-snoc s b found later d.0 a.1)
          ∙ ap some (append_assoc found ((s, b) ∷ []) later))

  split_on-print_routes :
      (r : Text × Text) (routes : Routes)
      → AllPlain (r ∷ routes)
      → split_on comma (print_routes (r ∷ routes)) ≡ pair_texts (r ∷ routes)
  split_on-print_routes (s, b) [] p =
      split_on_whole comma (pair_text s b)
        (HasNo-append comma s (colon ∷ b) p.0.subject_comma (refl, p.0.backend_comma))
  split_on-print_routes (s, b) (r ∷ routes) p =
      split_on-append comma (pair_text s b) (print_routes (r ∷ routes))
        (HasNo-append comma s (colon ∷ b) p.0.subject_comma (refl, p.0.backend_comma))
      ∙ ap (λ ts. pair_text s b ∷ ts) (split_on-print_routes r routes p.1)

  parse_nonempty :
      (t : Text)
      → is_empty t ≡ false
      → parse_routes strip lower (some t) ≡ add_pairs strip lower (split_on comma t) []
  unfolding parse_routes
  parse_nonempty [] h = absurd (false≢true (sym h))
  parse_nonempty (c ∷ s) h = refl

  print_not_empty :
      (s b : Text) (routes : Routes)
      → is_empty s ≡ false
      → is_empty (print_routes ((s, b) ∷ routes)) ≡ false
  print_not_empty s b [] h = not_empty s (colon ∷ b) h
  print_not_empty s b (r ∷ routes) h = not_empty (pair_text s b) _ (not_empty s (colon ∷ b) h)

  no_one_found : (later : Routes) → Apart [] later
  no_one_found [] = tt
  no_one_found ((s, b) ∷ later) = (tt, no_one_found later)

  -- Plain routes of distinct subjects, written as `subject:backend` with commas between them, are parsed back in
  -- their order.
  pub parse_routes-print_routes :
      (routes : Routes)
      → AllPlain routes
      → Distinct routes
      → parse_routes strip lower (some (print_routes routes)) ≡ some routes
  unfolding parse_routes
  parse_routes-print_routes [] p d = refl
  parse_routes-print_routes ((s, b) ∷ routes) p d =
      parse_nonempty (print_routes ((s, b) ∷ routes)) (print_not_empty s b routes p.0.subject)
      ∙ ap (λ ts. add_pairs strip lower ts []) (split_on-print_routes (s, b) routes p)
      ∙ add_pairs_lem ((s, b) ∷ routes) [] p d (no_one_found ((s, b) ∷ routes))
