-- ===== src/Gtfs/Store/Lines.antt =====
-- The index of routes by line that `UpdateAll` of internal/store/gtfs_store.go builds.
use wabus_backend.Prelude.{
  ◌≡◌, ◌≢◌, ◌⊎◌, ◌∙◌, refl, inl, inr, Option, none, some, List, [], ◌∷◌, arith, String, string_key,
  string_discrete, In, All,
}
use wabus_backend.Domain.{Time}
use wabus_backend.GoMap.{GoMap, lookup, insert, values}
use wabus_backend.GoMap.Laws.{lookup-insert}
use wabus_backend.Gtfs.{Route, Feed}
use wabus_backend.Gtfs.Store.{GtfsStore, line_loop, update_all, get_route_by_line}

-- What a lookup of the line may give: a route of the list with that name, or else what the index
-- held before, when no route of the list has the name.
abbrev pub IsFor : String → List Route → Option Route → Option Route → Type 0
IsFor line routes before found =
    ((route : Route) × (found ≡ some route) × In route routes × (route.short_name ≡ line))
    ⊎ ((found ≡ before) × All (λ route. route.short_name ≢ line) routes)

line_loop-IsFor :
    (line : String) (routes : List Route) (m : GoMap String Route)
    → IsFor line routes (lookup line m) (lookup line (line_loop routes m))
unfolding line_loop
line_loop-IsFor line [] m = inr (refl, tt)
line_loop-IsFor line (route ∷ routes) m =
    elim (line_loop-IsFor line routes (insert route.short_name route m)) [
      | inl (found, e, i, n) ↦ inl (found, e, inr i, n)
      | inr (e, all) ↦ elim (string_discrete route.short_name line) [
        | yes p ↦
            inl (
              route,
              e ∙ ground (arith, p, lookup-insert line route.short_name route m),
              inl refl,
              p,
            )
        | no n ↦ inr (e ∙ ground (arith, n, lookup-insert line route.short_name route m), (n, all))
      ]
    ]

module _ {F : Type 0} where
  -- After `UpdateAll` a line is found exactly when a route of the feed has its name, and the route
  -- found is one of those.
  pub route_by_line_lem :
      (line : String) (feed : Feed F) (now : Time) (s : GtfsStore F)
      → IsFor line (values feed.routes) none (get_route_by_line line (update_all feed now s))
  unfolding update_all get_route_by_line lookup
  route_by_line_lem line feed now s = line_loop-IsFor line (values feed.routes) []
