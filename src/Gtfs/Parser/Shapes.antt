-- ===== src/Gtfs/Parser/Shapes.antt =====
-- The shapes that parseShapes of pkg/gtfs/parser.go builds from the rows of shapes.txt.
use mathlib.Core.List.{Permᴰ, append_assoc}
use wabus_backend.Prelude.{
  ℕ, ◌≡◌, ◌≢◌, ◌∙◌, ap, refl, true, Option, none, some, List, [], ◌∷◌, ◌++◌, arith, String,
  string_key, string_discrete, ite,
}
use wabus_backend.GoMap.{GoMap, lookup, insert_each, Distinct}
use wabus_backend.GoMap.Laws.{lookup-insert, insert-Distinct, lookup-insert_each}
use wabus_backend.Sorting.{SliceSort, IsSorted, IsWeakOrder}
use wabus_backend.Gtfs.{ShapePoint, Shape, Feed}
use wabus_backend.Gtfs.Parser.{Record, make_index, get_field, append_at, ids_or_nil}
use wabus_backend.Gtfs.Parser.Rows.{
  rows_loop, read_point, point_row, shape_of, earlier_point, parse_shapes,
}

-- A list that a map holds under a key, with more elements appended, if there are any.
abbrev extended : {A : Type 0} → Option (List A) → List A → Option (List A)
extended o [] = o
extended o (x ∷ xs) = some (ids_or_nil o ++ x ∷ xs)

module _ {F : Type 0} (parse_float : String → F) where
  -- The points of the rows of one shape, in the order of the file.
  unfoldable pub points_of : String → GoMap String ℕ → List (Option Record) → List (ShapePoint F)
  points_of k idx [] = []
  points_of k idx (none ∷ rows) = points_of k idx rows
  points_of k idx (some row ∷ rows) =
      let rest = points_of k idx rows in
      ite (string_discrete (get_field row idx "shape_id") k) (read_point parse_float row idx ∷ rest)
        rest

  lookup-point_row :
      (k : String) (idx : GoMap String ℕ) (row : Record) (m : GoMap String (List (ShapePoint F)))
      → lookup k (point_row parse_float idx row m)
        ≡ ite
            (string_discrete (get_field row idx "shape_id") k)
            (some (ids_or_nil (lookup k m) ++ read_point parse_float row idx ∷ []))
            (lookup k m)
  unfolding point_row append_at
  lookup-point_row k idx row m =
      let shape = get_field row idx "shape_id" in
      let point = read_point parse_float row idx in
      elim (string_discrete shape k) [
        | yes p ↦ ground (
          arith,
          p,
          ap (λ x. lookup x m) p,
          lookup-insert k shape (ids_or_nil (lookup shape m) ++ point ∷ []) m,
        )
        | no p ↦
            ground (arith, p, lookup-insert k shape (ids_or_nil (lookup shape m) ++ point ∷ []) m)
      ]

  extended-cons :
      (o : Option (List (ShapePoint F))) (x : ShapePoint F) (xs : List (ShapePoint F))
      → extended (some (ids_or_nil o ++ x ∷ [])) xs ≡ extended o (x ∷ xs)
  extended-cons o x [] = refl
  extended-cons o x (y ∷ ys) = ap some (append_assoc (ids_or_nil o) (x ∷ []) (y ∷ ys))

  lookup-rows_loop :
      (k : String) (idx : GoMap String ℕ) (rows : List (Option Record))
      (m : GoMap String (List (ShapePoint F)))
      → (rows_loop (point_row parse_float idx) rows m).1 ≡ true
      → lookup k (rows_loop (point_row parse_float idx) rows m).0
        ≡ extended (lookup k m) (points_of k idx rows)
  unfolding rows_loop points_of
  lookup-rows_loop k idx [] m ok = refl
  lookup-rows_loop k idx (none ∷ rows) m ok = cc
  lookup-rows_loop k idx (some row ∷ rows) m ok =
      let rest = lookup-rows_loop k idx rows (point_row parse_float idx row m) ok in
      elim (string_discrete (get_field row idx "shape_id") k) [
        | yes p ↦ ground (
          arith,
          p,
          rest,
          lookup-point_row k idx row m,
          extended-cons (lookup k m) (read_point parse_float row idx) (points_of k idx rows),
        )
        | no p ↦ ground (arith, p, rest, lookup-point_row k idx row m)
      ]

  rows_loop-Distinct :
      (idx : GoMap String ℕ) (rows : List (Option Record)) (m : GoMap String (List (ShapePoint F)))
      → Distinct m
      → Distinct (rows_loop (point_row parse_float idx) rows m).0
  unfolding rows_loop point_row append_at
  rows_loop-Distinct idx [] m d = d
  rows_loop-Distinct idx (none ∷ rows) m d = d
  rows_loop-Distinct idx (some row ∷ rows) m d =
      rows_loop-Distinct idx rows (point_row parse_float idx row m) (insert-Distinct _ _ m d)

  earlier_point-IsWeakOrder : IsWeakOrder (earlier_point {F = F})
  unfolding earlier_point
  earlier_point-IsWeakOrder = (λ a b h. ground (arith, h), λ a b c h k. ground (arith, h, k))

  -- The shape with these points, if there are any.
  abbrev shape_or : SliceSort → String → Option (Shape F) → List (ShapePoint F) → Option (Shape F)
  shape_or slices k old [] = old
  shape_or slices k old (x ∷ xs) = some (shape_of slices k (x ∷ xs))

  shapes_after :
      (slices : SliceSort) (header : List String) (rows : List (Option Record)) (feed : Feed F)
      (k : String)
      → (parse_shapes parse_float slices header rows feed).1 ≡ true
      → lookup k (parse_shapes parse_float slices header rows feed).0.shapes
        ≡ shape_or slices k (lookup k feed.shapes) (points_of k (make_index header) rows)
  unfolding parse_shapes lookup
  shapes_after slices header rows feed k ok =
      let idx = make_index header in
      let read = rows_loop (point_row parse_float idx) rows [] in
      let whole : read.1 ≡ true = ground (arith, ok) in
      let stored : (parse_shapes parse_float slices header rows feed).0.shapes
          ≡ insert_each (shape_of slices) read.0 feed.shapes =
        ground (arith, whole) in
      ap (lookup k) stored
      ∙ lookup-insert_each (shape_of slices) k read.0 feed.shapes
          (rows_loop-Distinct idx rows [] tt)
      ∙ by_points (points_of k idx rows) (lookup k read.0) (lookup-rows_loop k idx rows [] whole)
    where
      by_points :
          (ps : List (ShapePoint F)) (o : Option (List (ShapePoint F)))
          → o ≡ extended none ps
          → elim o [ none ↦ lookup k feed.shapes | some v ↦ some (shape_of slices k v) ]
            ≡ shape_or slices k (lookup k feed.shapes) ps
      by_points [] o e = rw e refl
      by_points (x ∷ xs) o e = rw e refl

  -- When shapes.txt is read to its end, a shape with a row is stored: its points are those of its
  -- rows, each as often as it has a row, and no point has a lower sequence number than one before
  -- it.
  pub parse_shapes_lem :
      (slices : SliceSort) (header : List String) (rows : List (Option Record)) (feed : Feed F)
      (k : String)
      → (parse_shapes parse_float slices header rows feed).1 ≡ true
      → points_of k (make_index header) rows ≢ []
      → (shape : Shape F) × (lookup k (parse_shapes parse_float slices header rows feed).0.shapes
          ≡ some shape)
        × (shape.id ≡ k)
        × Permᴰ shape.points (points_of k (make_index header) rows)
        × IsSorted earlier_point shape.points
  unfolding shape_of
  parse_shapes_lem slices header rows feed k ok =
      described (points_of k (make_index header) rows) (shapes_after slices header rows feed k ok)
    where
      described :
          (ps : List (ShapePoint F))
          → lookup k (parse_shapes parse_float slices header rows feed).0.shapes
            ≡ shape_or slices k (lookup k feed.shapes) ps
          → (ps ≢ [])
          → (shape : Shape F) × (lookup k
                (parse_shapes parse_float slices header rows feed).0.shapes
              ≡ some shape)
            × (shape.id ≡ k)
            × Permᴰ shape.points ps
            × IsSorted earlier_point shape.points
      described [] e h = absurd (h refl)
      described (x ∷ xs) e h = (
        shape_of slices k (x ∷ xs),
        e,
        refl,
        slices.sort-perm earlier_point (x ∷ xs),
        slices.sort-IsSorted earlier_point (x ∷ xs) earlier_point-IsWeakOrder,
      )
