-- ===== src/Solver/Routing.antt =====
-- `parse_routes`, `RoutingSolver.solve` and `create_routing_solver` of cpa_first/solver/routing.py. A text of the
-- environment is the list of its characters' codes; `strip` and `lower` are the methods of texts. The
-- loading of chunks is I/O.
use xeno_pre_test.Prelude.{
  ℕ, Bool, true, false, ◌&&◌, ◌||◌, ◌==◌, if◌then◌else◌, Option, none, some, List, [], ◌∷◌, map,
}

abbrev pub Text : Type 0
Text = List ℕ

abbrev pub text_eq : Text → Text → Bool
text_eq [] [] = true
text_eq [] (d ∷ t) = false
text_eq (c ∷ s) [] = false
text_eq (c ∷ s) (d ∷ t) = (c == d) && text_eq s t

abbrev pub is_empty {ℓ} : {A : Type ℓ} → List A → Bool
is_empty [] = true
is_empty (c ∷ s) = false

-- The character put before the first part.
abbrev pub push : ℕ → List Text → List Text
push c [] = (c ∷ []) ∷ []
push c (t ∷ ts) = (c ∷ t) ∷ ts

-- `s.split(c)`
unfoldable pub split_on : ℕ → Text → List Text
split_on c [] = [] ∷ []
split_on c (x ∷ s) = let rest = split_on c s in if x == c then [] ∷ rest else push x rest

abbrev pub before : ℕ → Option (Text × Text) → Option (Text × Text)
before c none = none
before c (some (a, b)) = some (c ∷ a, b)

-- `s.split(c, 1)`, where `c` is in `s`.
unfoldable pub split_first : ℕ → Text → Option (Text × Text)
split_first c [] = none
split_first c (x ∷ s) = let rest = split_first c s in if x == c then some ([], s) else before x rest

abbrev pub comma : ℕ
comma = b','

abbrev pub colon : ℕ
colon = b':'

abbrev pub Routes : Type 0
Routes = List (Text × Text)

-- `routes[subject] = backend`
unfoldable pub route : Text → Text → Routes → Routes
route s b [] = (s, b) ∷ []
route s b ((t, c) ∷ routes) = if text_eq s t then (t, b) ∷ routes else (t, c) ∷ route s b routes

module _ (strip lower : Text → Text) where
  abbrev pub add_route : Text → Text → Routes → Routes
  unfolding route
  add_route s b routes = if is_empty s || is_empty b then routes else route s b routes

  -- The routes with one pair more; `none` where it has no colon.
  unfoldable pub add_pair : Text → Routes → Option Routes
  unfolding split_first route
  add_pair pair routes =
      let p = strip pair in
      if is_empty p then some routes else (elim (split_first colon p) [
        | none ↦ none
        | some (s, b) ↦ some (add_route (strip s) (lower (strip b)) routes)
      ])

  unfoldable pub add_pairs : List Text → Routes → Option Routes
  unfolding add_pair
  add_pairs [] routes = some routes
  add_pairs (p ∷ ps) routes = elim (add_pair p routes) [ none ↦ none | some r ↦ add_pairs ps r ]

  -- `none` is the `ValueError`.
  unfoldable pub parse_routes : Option Text → Option Routes
  unfolding split_on add_pairs
  parse_routes none = some []
  parse_routes (some []) = some []
  parse_routes (some (c ∷ s)) = add_pairs (split_on comma (c ∷ s)) []

-- `routes.get(subject, default)`
unfoldable pub route_of {ℓ} : {S : Type ℓ} → Text → List (Text × S) → S → S
route_of subject [] default = default
route_of subject ((s, solver) ∷ routes) default =
    if text_eq subject s then solver else route_of subject routes default

-- The backends, with their solvers by `make`; the given ones come before those of the environment.
module _ {ℓ} {S : Type ℓ} (strip lower : Text → Text) (make : Text → S) where
  pub record RoutingSolver : Type ℓ where
    pub routes : List (Text × S)
    pub default : S
    pub route_labels : Routes

  abbrev given_or : Option Text → Text → Text
  given_or none t = t
  given_or (some []) t = t
  given_or (some (c ∷ s)) t = c ∷ s

  -- "ollama"
  abbrev ollama : Text
  ollama = b'o' ∷ b'l' ∷ b'l' ∷ b'a' ∷ b'm' ∷ b'a' ∷ []

  abbrev pub made : Routes → Option Text → Option Text → RoutingSolver
  made backends default_backend env_backend = record {
    routes = map (λ (s, b). (s, make b)) backends;
    default = make (lower (given_or default_backend (given_or env_backend ollama)));
    route_labels = backends;
  }

  unfoldable pub create_routing_solver :
      Routes → Option Text → Option Text → Option Text → Option RoutingSolver
  unfolding parse_routes
  create_routing_solver (r ∷ backends) default_backend env_routes env_backend =
      some (made (r ∷ backends) default_backend env_backend)
  create_routing_solver [] default_backend env_routes env_backend =
      elim (parse_routes strip lower env_routes) [
        | none ↦ none
        | some backends ↦ some (made backends default_backend env_backend)
      ]

  unfoldable pub solve_routed {κ} :
      {Q : Type κ} {R : Type κ} → (S → Q → R) → (Q → Text) → RoutingSolver → Q → R
  unfolding route_of
  solve_routed solve subject_of r q = solve (route_of (subject_of q) r.routes r.default) q
