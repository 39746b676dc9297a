-- ===== src/Hub/Tile/Rectangle.antt =====
-- Which tiles `TilesInBBox` of internal/hub/tile.go lists, and that its loops end.
use wabus_backend.Prelude.{
  ℕ, zero, suc, false, ◌≡◌, ◌↔◌, ◌∙◌, ap, refl, inl, inr, Option, some, List, [], ◌∷◌, ◌++◌, map,
  String, ℤ, pos, negsuc, ◌+ℤ◌, ◌≤ℤ◌, ◌<ℤ◌, leb_ℤ, +ℤ_parts, eq_of_parts, arith, In, In-map, same,
  int_key, true, In-append, In-append_left, In-append_right, max_int, Bool-cases, IsInt,
  scan_int-decimal, scan_int-decimal_end, slash_next, slash-IsStopped, decimal_ℤ, ◌<>◌,
}
use wabus_backend.Hub.Tile.{FloatMath, tile_x, tile_y, tile_name, tile_id}
use wabus_backend.Hub.Tile.Adjacent.{Fits, max_tile, tile_id-adjacent}
use wabus_backend.Hub.Tile.Area.{
  parse_tile_id, next_int, for_values, columns, tiles_between, tiles_in_bbox,
}

-- The name of a tile with `int` coordinates is read back.
pub parse_tile_id-tile_name :
    (zoom x y : ℤ)
    → IsInt zoom
    → IsInt x
    → IsInt y
    → parse_tile_id (tile_name zoom x y) ≡ some (zoom, x, y)
unfolding parse_tile_id tile_name
parse_tile_id-tile_name zoom x y hz hx hy =
    rw
      (
        scan_int-decimal zoom ("/" <> decimal_ℤ x <> "/" <> decimal_ℤ y) hz
            (slash-IsStopped (decimal_ℤ x <> "/" <> decimal_ℤ y)),
        slash_next (decimal_ℤ x <> "/" <> decimal_ℤ y),
        scan_int-decimal x ("/" <> decimal_ℤ y) hx (slash-IsStopped (decimal_ℤ y)),
        slash_next (decimal_ℤ y),
        scan_int-decimal_end y hy,
      )
      refl

abbrev pub Between : ℤ → ℤ → ℤ → Type 0
Between low high n = (low ≤ℤ n) × (n ≤ℤ high)

next_int-below : (n : ℤ) → n <ℤ pos max_int → next_int n ≡ n +ℤ pos 1
unfolding next_int
next_int-below n h = ground (arith, h)

-- What is asked of the result of a loop: it ended, and its list holds just what `P` says.
abbrev pub Ends : {A : Type 0} → Option (List A) → (A → Type 0) → Type 0
Ends {A} o P = (results : List A) × (o ≡ some results) × ((a : A) → In a results ↔ P a)

-- A loop to a number below the greatest `int` ends, and its variable takes each value up to it.
for_values_lem :
    (fuel : ℕ) (n last : ℤ)
    → last <ℤ pos max_int
    → last <ℤ n +ℤ pos fuel
    → Ends (for_values fuel n last) (Between n last)
unfolding for_values
for_values_lem zero n last h k =
    let past : leb_ℤ n last ≡ false = ground (arith, k, +ℤ_parts n (pos 0)) in
    rw past ([], refl, λ a. (λ i. absurd i, λ b. absurd (ground (arith, past, b))))
for_values_lem (suc fuel) n last h k = elim (Bool-cases (leb_ℤ n last)) [
  | inr past ↦ rw past ([], refl, λ a. (λ i. absurd i, λ b. absurd (ground (arith, past, b))))
  | inl more ↦
      let next : next_int n ≡ n +ℤ pos 1 = next_int-below n (ground (arith, more, h)) in
      let (ns, e, listed) = for_values_lem fuel (n +ℤ pos 1) last h (
        omega (
          arith,
          k,
          +ℤ_parts n (pos (suc fuel)),
          +ℤ_parts n (pos 1),
          +ℤ_parts (n +ℤ pos 1) (pos fuel),
        )) in
      rw (more, next, e)
        (
          n ∷ ns,
          refl,
          λ a. (
            λ i. elim i [
              | inl here ↦ (ground (arith, here), ground (arith, here, more))
              | inr later ↦
                  let b = (listed a).0 later in (omega (arith, b.0, +ℤ_parts n (pos 1)), b.1)
            ],
            λ b. elim (Bool-cases (leb_ℤ a n)) [
              | inl least ↦ inl (eq_of_parts a n (ground (arith, least, b)))
              | inr above ↦ inr ((listed a).1 (ground (arith, above, +ℤ_parts n (pos 1)), b.1))
            ],
          ),
        )
]

-- A name in the column of one of `xs`.
abbrev IsInColumns : ℤ → List ℤ → ℤ → ℤ → String → Type 0
IsInColumns zoom xs y1 y2 t =
    (p : ℤ × ℤ) × In p.0 xs × Between y1 y2 p.1 × (t ≡ tile_name zoom p.0 p.1)

columns_lem :
    (fuel : ℕ) (zoom : ℤ) (xs : List ℤ) (y1 y2 : ℤ)
    → y2 <ℤ pos max_int
    → y2 <ℤ y1 +ℤ pos fuel
    → Ends (columns fuel zoom xs y1 y2) (IsInColumns zoom xs y1 y2)
unfolding columns
columns_lem fuel zoom [] y1 y2 h k = ([], refl, λ t. (λ i. absurd i, λ (p, i, b, named). absurd i))
columns_lem fuel zoom (x ∷ xs) y1 y2 h k =
    let (ys, e, values) = for_values_lem fuel y1 y2 h k in
    let (ts, e', listed) = columns_lem fuel zoom xs y1 y2 h k in
    rw (e, e')
      (
        map (tile_name zoom x) ys ++ ts,
        refl,
        λ t. (
          λ i. elim (In-append t (map (tile_name zoom x) ys) ts i) [
            | inl here ↦
                let (y, j, named) = (In-map (tile_name zoom x) t ys).0 here in
                ((x, y), inl refl, (values y).0 j, named)
            | inr there ↦ let (p, j, b, named) = (listed t).0 there in (p, inr j, b, named)
          ],
          λ (p, i, b, named). elim i [
            | inl here ↦ In-append_left t (map (tile_name zoom x) ys) ts (
                (In-map (tile_name zoom x) t ys).1
                  (p.1, (values p.1).1 b, named ∙ ap (λ n. tile_name zoom n p.1) here))
            | inr there ↦
                In-append_right t (map (tile_name zoom x) ys) ts ((listed t).1 (p, there, b, named))
          ],
        ),
      )

-- A name of a tile between two corners.
abbrev pub IsInRectangle : ℤ → ℤ × ℤ → ℤ × ℤ → String → Type 0
IsInRectangle zoom a b t =
    (p : ℤ × ℤ) × Between a.0 b.0 p.0 × Between a.1 b.1 p.1 × (t ≡ tile_name zoom p.0 p.1)

tiles_between_lem :
    (fuel : ℕ) (zoom : ℤ) (a b : ℤ × ℤ)
    → b.0 <ℤ pos max_int
    → b.1 <ℤ pos max_int
    → b.0 <ℤ a.0 +ℤ pos fuel
    → b.1 <ℤ a.1 +ℤ pos fuel
    → Ends
        (tiles_between fuel zoom (some (zoom, a.0, a.1)) (some (zoom, b.0, b.1)))
        (IsInRectangle zoom a b)
unfolding tiles_between
tiles_between_lem fuel zoom a b hx hy kx ky =
    let (xs, e, values) = for_values_lem fuel a.0 b.0 hx kx in
    let (ts, e', listed) = columns_lem fuel zoom xs a.1 b.1 hy ky in
    let same_zoom : same zoom zoom ≡ true = ground arith in
    rw (same_zoom, e, e')
      (
        ts,
        refl,
        λ t. (
          λ i. let (p, j, b, named) = (listed t).0 i in (p, (values p.0).0 j, b, named),
          λ (p, c, b, named). (listed t).1 (p, (values p.0).1 c, b, named),
        ),
      )

corner_below :
    (n m high : ℤ) (fuel : ℕ) → pos 0 ≤ℤ n → m ≤ℤ high → high <ℤ pos fuel → m <ℤ n +ℤ pos fuel
corner_below n m high fuel h k l = omega (arith, h, k, l, +ℤ_parts n (pos fuel))

Fits-IsInt : (high n : ℤ) → high <ℤ pos max_int → Fits high n → IsInt n
Fits-IsInt high (pos n) h f = (omega (arith, h, f), omega arith)
Fits-IsInt high (negsuc n) h f = absurd (omega (arith, f))

module _ {F : Type 0} ⦃g : FloatMath F⦄ where
  tile_x-Fits :
      (lon : F) (zoom : ℤ) → pos 0 ≤ℤ max_tile F zoom → Fits (max_tile F zoom) (tile_x lon zoom)
  tile_x-Fits lon zoom h = (tile_id-adjacent lon lon zoom h).0

  tile_y-Fits :
      (lat : F) (zoom : ℤ) → pos 0 ≤ℤ max_tile F zoom → Fits (max_tile F zoom) (tile_y lat zoom)
  tile_y-Fits lat zoom h = (tile_id-adjacent lat lat zoom h).1

  -- The name of the tile of a position is read back as its zoom level and its coordinates.
  parse_tile_id-tile_id :
      (lat lon : F) (zoom : ℤ)
      → IsInt zoom
      → pos 0 ≤ℤ max_tile F zoom
      → max_tile F zoom <ℤ pos max_int
      → parse_tile_id (tile_id lat lon zoom) ≡ some (zoom, tile_x lon zoom, tile_y lat zoom)
  unfolding tile_id
  parse_tile_id-tile_id lat lon zoom hz h k =
      parse_tile_id-tile_name zoom (tile_x lon zoom) (tile_y lat zoom) hz
        (Fits-IsInt (max_tile F zoom) _ k (tile_x-Fits lon zoom h))
        (Fits-IsInt (max_tile F zoom) _ k (tile_y-Fits lat zoom h))

  -- For an `int` zoom level whose greatest coordinate is not negative and below the greatest `int`,
  -- the loops end, and more rounds for each than that coordinate are enough. The tiles are those
  -- whose coordinates lie between the coordinates of the tiles of the box's corners.
  pub tiles_in_bbox_lem :
      (fuel : ℕ) (min_lat min_lon max_lat max_lon : F) (zoom : ℤ)
      → IsInt zoom
      → pos 0 ≤ℤ max_tile F zoom
      → max_tile F zoom <ℤ pos max_int
      → max_tile F zoom <ℤ pos fuel
      → Ends (tiles_in_bbox F fuel min_lat min_lon max_lat max_lon zoom) (
          IsInRectangle zoom
            (tile_x min_lon zoom, tile_y max_lat zoom)
            (tile_x max_lon zoom, tile_y min_lat zoom))
  unfolding tiles_in_bbox
  tiles_in_bbox_lem fuel min_lat min_lon max_lat max_lon zoom hz h k l =
      let high = max_tile F zoom in
      let x1 = tile_x-Fits min_lon zoom h in
      let y1 = tile_y-Fits max_lat zoom h in
      let x2 = tile_x-Fits max_lon zoom h in
      let y2 = tile_y-Fits min_lat zoom h in
      rw
        (
          parse_tile_id-tile_id max_lat min_lon zoom hz h k,
          parse_tile_id-tile_id min_lat max_lon zoom hz h k,
        )
        (tiles_between_lem fuel zoom (tile_x min_lon zoom, tile_y max_lat zoom)
          (tile_x max_lon zoom, tile_y min_lat zoom) (omega (arith, x2, k)) (omega (arith, y2, k))
          (corner_below (tile_x min_lon zoom) (tile_x max_lon zoom) high fuel x1.0 x2.1 l)
          (corner_below (tile_y max_lat zoom) (tile_y min_lat zoom) high fuel y1.0 y2.1 l))
