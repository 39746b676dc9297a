-- ===== src/Hub/Tile/Adjacent.antt =====
-- Which tiles `AdjacentTiles` of internal/hub/tile.go lists, and the range of the tile of a position.
use wabus_backend.Prelude.{
  ◌≡◌, refl, ◌↔◌, ◌⊎◌, inl, inr, Bool-cases, List, ◌++◌, In, In-map, In-append, In-append_left,
  In-append_right, arith, ℤ, pos, negsuc, ◌+ℤ◌, ◌-ℤ◌, ◌≤ℤ◌, ltb_ℤ, +ℤ_parts, eq_of_parts,
}
use wabus_backend.Hub.Tile.{
  FloatMath, clamp, tile_name, tile_span, tile_x, tile_y, tile_id, adjacent_tile, adjacent_row,
  adjacent_coords, adjacent_tiles,
}

-- The coordinate is one of a tile of the map.
abbrev pub Fits : ℤ → ℤ → Type 0
Fits max_tile n = (pos 0 ≤ℤ n) × (n ≤ℤ max_tile)

-- The coordinates differ by one at most.
abbrev pub Near : ℤ → ℤ → Type 0
Near n m = (n ≤ℤ (m +ℤ pos 1)) × (m ≤ℤ (n +ℤ pos 1))

clamp-Fits : (max_tile n : ℤ) → pos 0 ≤ℤ max_tile → Fits max_tile (clamp max_tile n)
unfolding clamp
clamp-Fits max_tile n h = ground arith

-- One of the steps of the loops.
abbrev IsStep : ℤ → Type 0
IsStep d = (negsuc 0 ≤ℤ d) × (d ≤ℤ pos 1)

-- What a listed tile is.
abbrev pub IsAround : ℤ → ℤ × ℤ → ℤ × ℤ → Type 0
IsAround m p q = Fits m q.0 × Fits m q.1 × Near q.0 p.0 × Near q.1 p.1

adjacent_tile-In :
    (m x y dx dy : ℤ) (q : ℤ × ℤ)
    → In q (adjacent_tile m (x, y) (dx, dy))
    → (q.0 ≡ x +ℤ dx) × (q.1 ≡ y +ℤ dy) × Fits m q.0 × Fits m q.1
unfolding adjacent_tile
adjacent_tile-In m x y dx dy q h = ground (arith, h)

In-adjacent_tile :
    (m x y dx dy : ℤ) (q : ℤ × ℤ)
    → q.0 ≡ x +ℤ dx
    → q.1 ≡ y +ℤ dy
    → Fits m q.0
    → Fits m q.1
    → In q (adjacent_tile m (x, y) (dx, dy))
unfolding adjacent_tile
In-adjacent_tile m x y dx dy q e f h k = ground (arith, e, f)

Near-steps : (n m : ℤ) → Near n m → (n ≡ m +ℤ negsuc 0) ⊎ (n ≡ m +ℤ pos 0) ⊎ (n ≡ m +ℤ pos 1)
Near-steps n m h = elim (Bool-cases (ltb_ℤ n m)) [
  | inl below ↦ inl (
      eq_of_parts n (m +ℤ negsuc 0)
        (ground (arith, below, h, +ℤ_parts m (negsuc 0), +ℤ_parts n (pos 1))))
  | inr not_below ↦ elim (Bool-cases (ltb_ℤ m n)) [
    | inl above ↦
        inr (inr (eq_of_parts n (m +ℤ pos 1) (ground (arith, above, h, +ℤ_parts m (pos 1)))))
    | inr not_above ↦ inr (
        inl (eq_of_parts n (m +ℤ pos 0) (ground (arith, not_above, not_below, +ℤ_parts m (pos 0)))))
  ]
]

step-Near : (n m d : ℤ) → IsStep d → n ≡ m +ℤ d → Near n m
step-Near n m d s e = ground (arith, e, +ℤ_parts m d, +ℤ_parts m (pos 1), +ℤ_parts n (pos 1))

-- The three rounds of a loop.
In-three :
    {A : Type 0} (a : A) (xs ys zs : List A) → In a (xs ++ ys ++ zs) → In a xs ⊎ In a ys ⊎ In a zs
In-three a xs ys zs h = elim (In-append a (xs ++ ys) zs h) [
  | inl i ↦ elim (In-append a xs ys i) [ inl j ↦ inl j | inr j ↦ inr (inl j) ]
  | inr i ↦ inr (inr i)
]

three-In :
    {A : Type 0} (a : A) (xs ys zs : List A) → In a xs ⊎ In a ys ⊎ In a zs → In a (xs ++ ys ++ zs)
three-In a xs ys zs (inl i) = In-append_left a (xs ++ ys) zs (In-append_left a xs ys i)
three-In a xs ys zs (inr (inl i)) = In-append_left a (xs ++ ys) zs (In-append_right a xs ys i)
three-In a xs ys zs (inr (inr i)) = In-append_right a (xs ++ ys) zs i

module _ (m x y dx : ℤ) (q : ℤ × ℤ) where
  tile_step : ℤ → List (ℤ × ℤ)
  tile_step dy = adjacent_tile m (x, y) (dx, dy)

  tile_step-IsAround : (dy : ℤ) → IsStep dx → IsStep dy → In q (tile_step dy) → IsAround m (x, y) q
  unfolding tile_step
  tile_step-IsAround dy s t h =
      let (e, f, a, b) = adjacent_tile-In m x y dx dy q h in
      (a, b, step-Near q.0 x dx s e, step-Near q.1 y dy t f)

  adjacent_row-In : IsStep dx → In q (adjacent_row m (x, y) dx) → IsAround m (x, y) q
  unfolding adjacent_row tile_step
  adjacent_row-In s h =
      elim (In-three q (tile_step (negsuc 0)) (tile_step (pos 0)) (tile_step (pos 1)) h) [
        | inl i ↦ tile_step-IsAround (negsuc 0) s (ground arith) i
        | inr (inl i) ↦ tile_step-IsAround (pos 0) s (ground arith) i
        | inr (inr i) ↦ tile_step-IsAround (pos 1) s (ground arith) i
      ]

  In-adjacent_row : q.0 ≡ x +ℤ dx → IsAround m (x, y) q → In q (adjacent_row m (x, y) dx)
  unfolding adjacent_row tile_step
  In-adjacent_row e (a, b, c, d) =
      three-In q (tile_step (negsuc 0)) (tile_step (pos 0)) (tile_step (pos 1))
        (elim (Near-steps q.1 y d) [
          | inl f ↦ inl (In-adjacent_tile m x y dx (negsuc 0) q e f a b)
          | inr (inl f) ↦ inr (inl (In-adjacent_tile m x y dx (pos 0) q e f a b))
          | inr (inr f) ↦ inr (inr (In-adjacent_tile m x y dx (pos 1) q e f a b))
        ])

module _ (F : Type 0) ⦃g : FloatMath F⦄ where
  abbrev pub max_tile : ℤ → ℤ
  max_tile zoom = g.to_int (tile_span zoom) -ℤ pos 1

  -- The coordinates listed are those on the map that differ from the given ones by one at most.
  pub adjacent_coords_lem :
      (zoom x y : ℤ) (q : ℤ × ℤ)
      → In q (adjacent_coords F zoom x y) ↔ IsAround (max_tile zoom) (x, y) q
  unfolding adjacent_coords
  adjacent_coords_lem zoom x y q = (listed, around)
    where
      m : ℤ
      m = max_tile zoom

      row : ℤ → List (ℤ × ℤ)
      row dx = adjacent_row (max_tile zoom) (x, y) dx

      listed : In q (adjacent_coords F zoom x y) → IsAround (max_tile zoom) (x, y) q
      listed h = elim (In-three q (row (negsuc 0)) (row (pos 0)) (row (pos 1)) h) [
        | inl i ↦ adjacent_row-In m x y (negsuc 0) q (ground arith) i
        | inr (inl i) ↦ adjacent_row-In m x y (pos 0) q (ground arith) i
        | inr (inr i) ↦ adjacent_row-In m x y (pos 1) q (ground arith) i
      ]

      around : IsAround (max_tile zoom) (x, y) q → In q (adjacent_coords F zoom x y)
      around (a, b, c, d) =
          three-In q (row (negsuc 0)) (row (pos 0)) (row (pos 1)) (elim (Near-steps q.0 x c) [
            | inl e ↦ inl (In-adjacent_row m x y (negsuc 0) q e (a, b, c, d))
            | inr (inl e) ↦ inr (inl (In-adjacent_row m x y (pos 0) q e (a, b, c, d)))
            | inr (inr e) ↦ inr (inr (In-adjacent_row m x y (pos 1) q e (a, b, c, d)))
          ])

module _ {F : Type 0} ⦃g : FloatMath F⦄ where
  -- At a zoom level with a tile, the tile of every position is on the map, and is listed among the
  -- tiles around it.
  pub tile_id-adjacent :
      (lat lon : F) (zoom : ℤ)
      → pos 0 ≤ℤ max_tile F zoom
      → Fits (max_tile F zoom) (tile_x lon zoom)
        × Fits (max_tile F zoom) (tile_y lat zoom)
        × In (tile_id lat lon zoom) (adjacent_tiles F zoom (tile_x lon zoom) (tile_y lat zoom))
  unfolding tile_x tile_y tile_id adjacent_tiles
  tile_id-adjacent lat lon zoom h =
      let x = clamp-Fits (max_tile F zoom) _ h in
      let y = clamp-Fits (max_tile F zoom) _ h in
      (
        x,
        y,
        (In-map (λ p. tile_name zoom p.0 p.1) _ _).1 (
          (tile_x lon zoom, tile_y lat zoom),
          (adjacent_coords_lem F zoom (tile_x lon zoom) (tile_y lat zoom)
                (tile_x lon zoom, tile_y lat zoom)).1
              (x, y, near _, near _),
          refl,
        ),
      )
    where
      near : (n : ℤ) → Near n n
      near n = ground (arith, +ℤ_parts n (pos 1))
