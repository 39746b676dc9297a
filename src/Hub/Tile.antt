-- ===== src/Hub/Tile.antt =====
-- internal/hub/tile.go: the tile of a position, and the tiles around a tile. Go's floating point
-- and package math are a type with the operations that the code calls.
pub mod Adjacent
pub mod Area
pub mod Rectangle
use wabus_backend.Prelude.{
  ◌≡◌, refl, Bool, ◌||◌, List, [], ◌∷◌, ◌++◌, map, String, ℤ, pos, negsuc, ◌+ℤ◌, ◌-ℤ◌, ltb_ℤ,
  if◌then◌else◌, decimal_ℤ, ◌<>◌,
}

-- `to_float` is `float64(n)`, `to_int` is `int(x)`.
pub record FloatMath (F : Type 0) : Type 0 where
  pub to_float : ℤ → F
  pub to_int : F → ℤ
  pub plus : F → F → F
  pub minus : F → F → F
  pub times : F → F → F
  pub over : F → F → F
  pub power : F → F → F
  pub floor : F → F
  pub log : F → F
  pub tan : F → F
  pub cos : F → F
  pub sinh : F → F
  pub atan : F → F
  pub pi : F

-- `if n < 0 { n = 0 }; if n > maxTile { n = maxTile }`
unfoldable pub clamp : ℤ → ℤ → ℤ
clamp max_tile n =
    let n' = if ltb_ℤ n (pos 0) then pos 0 else n in if ltb_ℤ max_tile n' then max_tile else n'

-- `fmt.Sprintf("%d/%d/%d", zoom, x, y)`
unfoldable pub tile_name : ℤ → ℤ → ℤ → String
tile_name zoom x y = decimal_ℤ zoom <> "/" <> decimal_ℤ x <> "/" <> decimal_ℤ y

-- The inner loop's body of `AdjacentTiles`.
unfoldable pub adjacent_tile : ℤ → ℤ × ℤ → ℤ × ℤ → List (ℤ × ℤ)
adjacent_tile max_tile (x, y) (dx, dy) =
    let nx = x +ℤ dx in
    let ny = y +ℤ dy in
    if ltb_ℤ nx (pos 0) || ltb_ℤ max_tile nx || ltb_ℤ ny (pos 0) || ltb_ℤ max_tile ny
    then []
    else (nx, ny) ∷ []

unfoldable pub adjacent_row : ℤ → ℤ × ℤ → ℤ → List (ℤ × ℤ)
adjacent_row max_tile p dx =
    adjacent_tile max_tile p (dx, negsuc 0)
    ++ adjacent_tile max_tile p (dx, pos 0)
    ++ adjacent_tile max_tile p (dx, pos 1)

module _ {F : Type 0} ⦃g : FloatMath F⦄ where
  -- `math.Pow(2, float64(zoom))`
  unfoldable pub tile_span : ℤ → F
  tile_span zoom = g.power (g.to_float (pos 2)) (g.to_float zoom)

  unfoldable pub tile_x : F → ℤ → ℤ
  tile_x lon zoom =
      let n = tile_span zoom in
      clamp (g.to_int n -ℤ pos 1) (
        g.to_int
          (g.floor (g.times (g.over (g.plus lon (g.to_float (pos 180))) (g.to_float (pos 360))) n)))

  unfoldable pub tile_y : F → ℤ → ℤ
  tile_y lat zoom =
      let n = tile_span zoom in
      let one = g.to_float (pos 1) in
      let lat_rad = g.over (g.times lat g.pi) (g.to_float (pos 180)) in
      clamp (g.to_int n -ℤ pos 1) (
        g.to_int (
          g.floor (
            g.times
              (g.over
                (g.minus one
                  (g.over (g.log (g.plus (g.tan lat_rad) (g.over one (g.cos lat_rad)))) g.pi))
                (g.to_float (pos 2)))
              n)))

  -- `TileID`
  unfoldable pub tile_id : F → F → ℤ → String
  tile_id lat lon zoom = tile_name zoom (tile_x lon zoom) (tile_y lat zoom)

-- The coordinates of the tiles of `AdjacentTiles`, in the loops' order.
unfoldable pub adjacent_coords : (F : Type 0) ⦃g : FloatMath F⦄ → ℤ → ℤ → ℤ → List (ℤ × ℤ)
adjacent_coords F ⦃g⦄ zoom x y =
    let max_tile = g.to_int (tile_span zoom) -ℤ pos 1 in
    adjacent_row max_tile (x, y) (negsuc 0)
    ++ adjacent_row max_tile (x, y) (pos 0)
    ++ adjacent_row max_tile (x, y) (pos 1)

-- `AdjacentTiles`
unfoldable pub adjacent_tiles : (F : Type 0) ⦃g : FloatMath F⦄ → ℤ → ℤ → ℤ → List String
adjacent_tiles F zoom x y = map (λ p. tile_name zoom p.0 p.1) (adjacent_coords F zoom x y)
