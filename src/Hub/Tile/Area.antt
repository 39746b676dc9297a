-- ===== src/Hub/Tile/Area.antt =====
-- internal/hub/tile.go: the bounds of a tile, the tile that a name gives, and the tiles of a bounding
-- box. The loops of `TilesInBBox` run on fuel, `none` when it is used up; Hub/Tile/Rectangle says how
-- much is enough.
use mathlib.Core.Option as Option
use wabus_backend.Prelude.{
  ℕ, zero, suc, ◌≡◌, refl, Option, none, some, List, [], ◌∷◌, ◌++◌, map, String, ℤ, pos, negsuc,
  ◌+ℤ◌, leb_ℤ, not, int_key, same, if◌then◌else◌, max_int, scan_int, skip_space, read_digits,
  expect,
}
use wabus_backend.Hub.Tile.{FloatMath, tile_span, tile_name, tile_id}

-- The first part to fail makes the whole fail.
infixl 5 ◌>>=◌
abbrev ◌>>=◌ : {A B : Type 0} → Option A → (A → Option B) → Option B
none >>= f = none
some a >>= f = f a

-- `ParseTileID`, with `none` for its results 0, 0, 0 and false.
unfoldable pub parse_tile_id : String → Option (ℤ × ℤ × ℤ)
parse_tile_id tile_id = scan_int tile_id >>= λ a. expect 47 a.1 >>= λ s.
    scan_int s >>= λ b. expect 47 b.1 >>= λ t. scan_int t >>= λ c. some (a.0, b.0, c.0)

parsed :
    (parse_tile_id "14/9152/5396" ≡ some (pos 14, pos 9152, pos 5396))
    × (parse_tile_id " -1/+2/ 3x" ≡ some (negsuc 0, pos 2, pos 3))
    × (parse_tile_id "14/9152" ≡ none)
    × (parse_tile_id "14-9152-5396" ≡ none)
unfolding parse_tile_id scan_int skip_space read_digits
parsed = (refl, refl, refl, refl)

module _ {F : Type 0} ⦃g : FloatMath F⦄ where
  abbrev number : ℕ → F
  number n = g.to_float (pos n)

  abbrev bound_lon : ℤ → F → F
  bound_lon x n = g.minus (g.times (g.over (g.to_float x) n) (number 360)) (number 180)

  abbrev bound_lat : ℤ → F → F
  bound_lat y n =
      let rad = g.atan (
        g.sinh
          (g.times g.pi (g.minus (number 1) (g.over (g.times (number 2) (g.to_float y)) n)))) in
      g.over (g.times rad (number 180)) g.pi

  -- `TileBounds`: the least latitude and longitude, then the greatest.
  unfoldable pub tile_bounds : ℤ → ℤ → ℤ → F × F × F × F
  tile_bounds zoom x y =
      let n = tile_span zoom in
      (bound_lat (y +ℤ pos 1) n, bound_lon x n, bound_lat y n, bound_lon (x +ℤ pos 1) n)

-- `n++`
unfoldable pub next_int : ℤ → ℤ
next_int n = if same n (pos max_int) then negsuc max_int else n +ℤ pos 1

-- The values that `n` takes in `for n := from; n <= last; n++`.
unfoldable pub for_values : ℕ → ℤ → ℤ → Option (List ℤ)
for_values zero n last = if leb_ℤ n last then none else some []
for_values (suc fuel) n last =
    let rest = for_values fuel (next_int n) last in
    if leb_ℤ n last then Option.map (λ ns. n ∷ ns) rest else some []

-- The body of the outer loop of `TilesInBBox`, for each value of `x`.
unfoldable pub columns : ℕ → ℤ → List ℤ → ℤ → ℤ → Option (List String)
columns fuel zoom [] y1 y2 = some []
columns fuel zoom (x ∷ xs) y1 y2 =
    let rest = columns fuel zoom xs y1 y2 in
    for_values fuel y1 y2 >>= λ ys. Option.map (λ tiles. map (tile_name zoom x) ys ++ tiles) rest

-- `TilesInBBox` after the two corners were read.
unfoldable pub tiles_between :
    ℕ → ℤ → Option (ℤ × ℤ × ℤ) → Option (ℤ × ℤ × ℤ) → Option (List String)
tiles_between fuel zoom none bottom_right = some []
tiles_between fuel zoom (some (z1, x1, y1)) none = some []
tiles_between fuel zoom (some (z1, x1, y1)) (some (z2, x2, y2)) =
    if not (same z1 z2)
    then some []
    else (for_values fuel x1 x2 >>= λ xs. columns fuel zoom xs y1 y2)

-- `TilesInBBox`
unfoldable pub tiles_in_bbox :
    (F : Type 0) ⦃g : FloatMath F⦄ → ℕ → F → F → F → F → ℤ → Option (List String)
tiles_in_bbox F fuel min_lat min_lon max_lat max_lon zoom =
    tiles_between fuel zoom (parse_tile_id (tile_id max_lat min_lon zoom))
      (parse_tile_id (tile_id min_lat max_lon zoom))
