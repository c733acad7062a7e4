-- ===== src/Routing/Apart.antt =====
-- No path is for two routes of a table, so that their order does not matter.
use esp32_music_server.Prelude.{
  ◌≤◌, ◌≡◌, refl, Bool, true, false, not, ◌&&◌, List, [], ◌∷◌, same, length, Bool-cases, inl, inr,
  arith,
}
use esp32_music_server.Routing.{
  Segment, literal, Route, PathMatch, handlers_of, device_routes, development_routes,
}

-- Do two paths of routes differ in their first part: two texts that are not the same, or a text and
-- the end?
abbrev pub are_apart : List Segment → List Segment → Bool
are_apart [] (literal y ∷ ys) = true
are_apart (literal x ∷ xs) [] = true
are_apart (literal x ∷ xs) (literal y ∷ ys) = not (same x y)
are_apart _ _ = false

-- What the tables rely on: no path matches two routes whose first parts differ.
pub record MatchLaws {P : Type 0} (m : PathMatch P) : Type 0 where
  pub apart_differ :
      (xs ys : List Segment) (path : P)
      → are_apart xs ys ≡ true
      → m.matches xs path ≡ true
      → m.matches ys path ≡ false

abbrev apart_from : List Segment → List Route → Bool
apart_from path [] = true
apart_from path (r ∷ routes) = are_apart path r.path && apart_from path routes

abbrev all_apart : List Route → Bool
all_apart [] = true
all_apart (r ∷ routes) = apart_from r.path routes && all_apart routes

module _ {P : Type 0} {m : PathMatch P} (laws : MatchLaws m) (path : P) where
  none_besides :
      (xs : List Segment) (routes : List Route)
      → apart_from xs routes ≡ true
      → m.matches xs path ≡ true
      → length (handlers_of m routes path) ≡ 0
  unfolding handlers_of
  none_besides xs [] h k = refl
  none_besides xs (r ∷ routes) h k =
      rw (laws.apart_differ xs r.path path (ground (arith, h)) k)
        (none_besides xs routes (ground (arith, h)) k)

  at_most_one :
      (routes : List Route) → all_apart routes ≡ true → length (handlers_of m routes path) ≤ 1
  unfolding handlers_of
  at_most_one [] h = omega arith
  at_most_one (r ∷ routes) h = elim (Bool-cases (m.matches r.path path)) [
    | inl here ↦
        let none = none_besides r.path routes (ground (arith, h)) here in
        rw here (omega (arith, none))
    | inr elsewhere ↦ rw elsewhere (at_most_one routes (ground (arith, h)))
  ]

  -- A path is for one route of the device, and of the development server, at most: the order of the
  -- routes does not matter, and no route hides another one.
  pub routes_unique :
      (length (handlers_of m device_routes path) ≤ 1)
      × (length (handlers_of m development_routes path) ≤ 1)
  routes_unique = (at_most_one device_routes refl, at_most_one development_routes refl)
