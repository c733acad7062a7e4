-- ===== src/Tests/RouteTests.antt =====
-- The tables of routes, over paths that are cut at their slashes.
use esp32_music_server.Prelude.{
  ◌≤◌, ◌≡◌, refl, sym, ap, ◌∙◌, Bool, true, false, ◌&&◌, List, [], ◌∷◌, Bytes, codes, same,
  same_refl, same_sound, length, Bool-cases, inl, inr, arith,
}
use esp32_music_server.Routing.{
  Segment, literal, segment, remainder, handle_fs, PathMatch, handlers_of, device_routes,
  development_routes,
}
use esp32_music_server.Routing.Apart.{are_apart, MatchLaws, routes_unique}

abbrev parts_match : List Segment → List Bytes → Bool
parts_match [] [] = true
parts_match [] (p ∷ ps) = false
parts_match (literal x ∷ xs) [] = false
parts_match (literal x ∷ xs) (p ∷ ps) = same x p && parts_match xs ps
parts_match (segment ∷ xs) [] = false
parts_match (segment ∷ xs) (p ∷ ps) = parts_match xs ps
parts_match (remainder ∷ xs) ps = true

abbrev by_parts : PathMatch (List Bytes)
by_parts = record { matches = parts_match }

-- One text is not the same as two that differ.
not_both : (x y p : Bytes) → same x y ≡ false → same x p ≡ true → same y p ≡ false
not_both x y p differ h = elim (Bool-cases (same y p)) [
  | inl k ↦
      let e : x ≡ y = same_sound x p h ∙ sym (same_sound y p k) in
      absurd (ground (arith, sym differ ∙ ap (same x) (sym e) ∙ same_refl x))
  | inr k ↦ k
]

parts_differ :
    (xs ys : List Segment) (path : List Bytes)
    → are_apart xs ys ≡ true
    → parts_match xs path ≡ true
    → parts_match ys path ≡ false
parts_differ [] [] path h k = absurd (ground (arith, h))
parts_differ [] (literal y ∷ ys) [] h k = refl
parts_differ [] (literal y ∷ ys) (p ∷ ps) h k = absurd (ground (arith, k))
parts_differ [] (segment ∷ ys) path h k = absurd (ground (arith, h))
parts_differ [] (remainder ∷ ys) path h k = absurd (ground (arith, h))
parts_differ (literal x ∷ xs) ys [] h k = absurd (ground (arith, k))
parts_differ (literal x ∷ xs) [] (p ∷ ps) h k = refl
parts_differ (literal x ∷ xs) (literal y ∷ ys) (p ∷ ps) h k =
    let other : same y p ≡ false = not_both x y p (ground (arith, h)) (ground (arith, k)) in
    rw other refl
parts_differ (literal x ∷ xs) (segment ∷ ys) (p ∷ ps) h k = absurd (ground (arith, h))
parts_differ (literal x ∷ xs) (remainder ∷ ys) (p ∷ ps) h k = absurd (ground (arith, h))
parts_differ (segment ∷ xs) ys path h k = absurd (ground (arith, h))
parts_differ (remainder ∷ xs) ys path h k = absurd (ground (arith, h))

by_parts-MatchLaws : MatchLaws by_parts
by_parts-MatchLaws = record { apart_differ = parts_differ }

abbrev a_page : List Bytes
a_page = codes "fs" ∷ codes "music" ∷ codes "1.mp3" ∷ []

page_routed : handlers_of by_parts device_routes a_page ≡ handle_fs ∷ []
unfolding handlers_of
page_routed = refl

routes_unique_example :
    (length (handlers_of by_parts device_routes a_page) ≤ 1)
    × (length (handlers_of by_parts development_routes a_page) ≤ 1)
routes_unique_example = routes_unique by_parts-MatchLaws a_page
