-- ===== src/Handler/Vehicles/Parameters.antt =====
-- The parameters of a request for vehicles of internal/handler/http.go: what their texts mean, and how
-- they are read.
use wabus_backend.Prelude.{
  ◌≡◌, ◌≢◌, ◌∙◌, ◌↔◌, ◌⊎◌, ap, refl, sym, subst, inl, inr, int_key, true, false, Option, none, some,
  List, [], ◌∷◌, ◌<>◌, arith, String, string_key, same, atoi, split, Bool-cases,
}
use wabus_backend.Domain.{Float64, Vehicle, VehicleType, BoundingBox, bus, tram, contains}
use wabus_backend.Store.Query.{in_bbox}
use wabus_backend.Store.Query.Candidates.{of_type, of_line}
use wabus_backend.Handler.Vehicles.{
  Parsed, parsed, not_parsed, parse_type, parse_bbox, bbox_of_parts, parse_bbox_param,
}

-- No type, or the number of one of the two.
abbrev pub IsGoodType : String → Type 0
IsGoodType text = (text ≡ "") ⊎ (atoi text ≡ (bus, true)) ⊎ (atoi text ≡ (tram, true))

abbrev pub FitsType : {F : Type 0} → String → Vehicle F → Type 0
FitsType text v = (text ≡ "") ⊎ (atoi text ≡ (v.vehicle_type, true))

abbrev pub FitsLine : {F : Type 0} → String → Vehicle F → Type 0
FitsLine text v = (text ≡ "") ⊎ (v.line ≡ text)

pub of_line_lem :
    {F : Type 0} (text : String) (v : Vehicle F) → (of_line text v ≡ true) ↔ FitsLine text v
unfolding of_line
of_line_lem text v = elim (Bool-cases (same text "")) [
  | inl empty ↦ (λ h. inl (ground (arith, empty)), λ h. ground (arith, empty))
  | inr named ↦ (
    λ h. inr (ground (arith, named, h)),
    λ h. elim h [ inl e ↦ absurd (ground (arith, named, e)) | inr e ↦ ground (arith, named, e) ],
  )
]

module _ (F : Type 0) where
  -- A type that is read, and the vehicles that have it.
  abbrev pub ReadsType : String → Option VehicleType → Type 0
  ReadsType text kind =
      IsGoodType text × ((v : Vehicle F) → (of_type kind v ≡ true) ↔ FitsType text v)

  number-FitsType :
      (text : String) (n : VehicleType)
      → same text "" ≡ false
      → atoi text ≡ (n, true)
      → (v : Vehicle F) → (of_type (some n) v ≡ true) ↔ FitsType text v
  unfolding of_type
  number-FitsType text n named e v = (
    λ h. let is_n : n ≡ v.vehicle_type = ground (arith, h) in inr (e ∙ ap (λ m. (m, true)) is_n),
    λ h. elim h [
      | inl empty ↦ absurd (ground (arith, named, empty))
      | inr f ↦ let is_n : v.vehicle_type ≡ n = ap (λ r. r.0) (sym f ∙ e) in ground (arith, is_n)
    ],
  )

  bad_type :
      (text : String)
      → same text "" ≡ false
      → ((n : VehicleType) → (n ≡ bus) ⊎ (n ≡ tram) → atoi text ≢ (n, true))
      → ¬ IsGoodType text
  bad_type text named bad (inl e) = ground (arith, named, e)
  bad_type text named bad (inr (inl e)) = bad bus (inl refl) e
  bad_type text named bad (inr (inr e)) = bad tram (inr refl) e

  pub parse_type_lem :
      (text : String)
      → ((parse_type text ≡ none) × ¬ IsGoodType text)
        ⊎ ((kind : Option VehicleType) × (parse_type text ≡ some kind) × ReadsType text kind)
  unfolding parse_type of_type
  parse_type_lem text =
      let n = (atoi text).0 in
      elim (Bool-cases (same text "")) [
        | inl empty ↦
            let is_empty : text ≡ "" = ground (arith, empty) in
            inr (none, rw empty refl, (inl is_empty, λ v. (λ h. inl is_empty, λ h. refl)))
        | inr named ↦ elim (Bool-cases (atoi text).1) [
          | inr bad ↦ inl (
            ground (arith, named, bad),
            bad_type text named (λ m w e. let ok : (atoi text).1 ≡ true = ap (λ r. r.1) e in cc),
          )
          | inl ok ↦
              let read : atoi text ≡ (n, true) = ap (λ b. (n, b)) ok in
              elim (Bool-cases (same n bus)) [
                | inl b ↦
                    let is_bus : n ≡ bus = ground (arith, b) in
                    inr (
                      some n,
                      rw (named, ok, b) refl,
                      (
                        inr (inl (read ∙ ap (λ m. (m, true)) is_bus)),
                        number-FitsType text n named read,
                      ),
                    )
                | inr b ↦ elim (Bool-cases (same n tram)) [
                  | inl t ↦
                      let is_tram : n ≡ tram = ground (arith, t) in
                      inr (
                        some n,
                        rw (named, ok, b, t) refl,
                        (
                          inr (inr (read ∙ ap (λ m. (m, true)) is_tram)),
                          number-FitsType text n named read,
                        ),
                      )
                  | inr t ↦ inl (
                    rw (named, ok, b, t) refl,
                    bad_type text named (λ m w e.
                        let is_m : n ≡ m = ap (λ r. r.0) e in
                        elim w [
                          | inl p ↦ ground (arith, b, is_m ∙ p)
                          | inr p ↦ ground (arith, t, is_m ∙ p)
                        ]),
                  )
                ]
              ]
        ]
      ]

abbrev pub Inside : {F : Type 0} ⦃f : Float64 F⦄ → F × F × F × F → Vehicle F → Type 0
Inside ⦃f⦄ (south, west, north, east) v =
    (f.le south v.lat ≡ true)
    × (f.le v.lat north ≡ true)
    × (f.le west v.lon ≡ true)
    × (f.le v.lon east ≡ true)

module _ {F : Type 0} (parse_float : String → Parsed F) where
  -- The four parts are numbers, in the order minimal latitude and longitude, maximal latitude and
  -- longitude.
  abbrev pub Numbers : List String → F × F × F × F → Type 0
  Numbers (p ∷ q ∷ r ∷ t ∷ []) (south, west, north, east) =
      (parse_float p ≡ parsed south)
      × (parse_float q ≡ parsed west)
      × (parse_float r ≡ parsed north)
      × (parse_float t ≡ parsed east)
  Numbers _ corners = ⊥

  abbrev pub IsGoodBox : String → Type 0
  IsGoodBox text = (text ≡ "") ⊎ ((corners : F × F × F × F) × Numbers (split 44 text) corners)

  module _ ⦃f : Float64 F⦄ where
    abbrev pub IsIn : List String → Vehicle F → Type 0
    IsIn parts v = (corners : F × F × F × F) × Numbers parts corners × Inside corners v

    abbrev pub FitsBox : String → Vehicle F → Type 0
    FitsBox text v = (text ≡ "") ⊎ IsIn (split 44 text) v

Parsed-cases :
    {A : Type 0} (p : Parsed A) → ((e : String) × (p ≡ not_parsed e)) ⊎ ((a : A) × (p ≡ parsed a))
Parsed-cases (parsed a) = inr (a, refl)
Parsed-cases (not_parsed e) = inl (e, refl)

parsed-injective : {A : Type 0} {a b : A} → parsed a ≡ parsed b → a ≡ b
parsed-injective e = cc

module _ {F : Type 0} ⦃f : Float64 F⦄ (parse_float : String → Parsed F) where
  box_of : F × F × F × F → BoundingBox F
  box_of (south, west, north, east) = record {
    min_lat = south;
    min_lon = west;
    max_lat = north;
    max_lon = east;
  }

  -- Parts that are refused, or read as a box.
  abbrev ReadsParts : List String → Type 0
  ReadsParts parts =
      ((e : String) × (bbox_of_parts parse_float parts ≡ not_parsed e)
        × ¬ ((corners : F × F × F × F) × Numbers parse_float parts corners))
      ⊎ ((box : BoundingBox F) × (bbox_of_parts parse_float parts ≡ parsed (some box))
          × ((corners : F × F × F × F) × Numbers parse_float parts corners)
          × ((v : Vehicle F) → (contains box v.lat v.lon ≡ true) ↔ IsIn parse_float parts v))

  contains_lem :
      (corners : F × F × F × F) (v : Vehicle F)
      → (contains (box_of corners) v.lat v.lon ≡ true) ↔ Inside corners v
  unfolding contains box_of
  contains_lem corners v = (λ h. ground (arith, h), λ h. ground (arith, h))

  four_parts :
      (p q r t : String) (corners : F × F × F × F)
      → Numbers parse_float (p ∷ q ∷ r ∷ t ∷ []) corners
      → ReadsParts (p ∷ q ∷ r ∷ t ∷ [])
  unfolding bbox_of_parts parse_bbox box_of
  four_parts p q r t corners n = inr (
    box_of corners,
    rw (n.0, n.1, n.2, n.3, bbox_of_parts, parse_bbox) refl,
    (corners, n),
    λ v. (
      λ h. (corners, n, (contains_lem corners v).0 h),
      λ (other, m, inside).
          let same_corners : other ≡ corners =
            corners_path (parsed-injective (sym m.0 ∙ n.0)) (parsed-injective (sym m.1 ∙ n.1))
              (parsed-injective (sym m.2 ∙ n.2)) (parsed-injective (sym m.3 ∙ n.3)) in
          (contains_lem corners v).1 (subst (λ c. Inside c v) same_corners inside),
    ),
  )
    where
      corners_path :
          {a b c d a' b' c' d' : F}
          → a ≡ a'
          → b ≡ b'
          → c ≡ c'
          → d ≡ d'
          → ◌≡◌ {A = F × F × F × F} (a, b, c, d) (a', b', c', d')
      corners_path e g h k = cc

  bbox_of_parts_lem : (parts : List String) → ReadsParts parts
  unfolding bbox_of_parts parse_bbox
  bbox_of_parts_lem [] = inl (_, refl, λ (c, n). n)
  bbox_of_parts_lem (p ∷ []) = inl (_, refl, λ (c, n). n)
  bbox_of_parts_lem (p ∷ q ∷ []) = inl (_, refl, λ (c, n). n)
  bbox_of_parts_lem (p ∷ q ∷ r ∷ []) = inl (_, refl, λ (c, n). n)
  bbox_of_parts_lem (p ∷ q ∷ r ∷ t ∷ u ∷ parts) = inl (_, refl, λ (c, n). n)
  bbox_of_parts_lem (p ∷ q ∷ r ∷ t ∷ []) = elim (Parsed-cases (parse_float p)) [
    | inl (e, a) ↦
        inl ("invalid bbox values: " <> e, rw (a, bbox_of_parts, parse_bbox) refl, λ (c, n). cc)
    | inr (south, a) ↦ elim (Parsed-cases (parse_float q)) [
      | inl (e, b) ↦
          inl
            ("invalid bbox values: " <> e, rw (a, b, bbox_of_parts, parse_bbox) refl, λ (c, n). cc)
      | inr (west, b) ↦ elim (Parsed-cases (parse_float r)) [
        | inl (e, c) ↦ inl (
          "invalid bbox values: " <> e,
          rw (a, b, c, bbox_of_parts, parse_bbox) refl,
          λ (c', n). cc,
        )
        | inr (north, c) ↦ elim (Parsed-cases (parse_float t)) [
          | inl (e, d) ↦ inl (
            "invalid bbox values: " <> e,
            rw (a, b, c, d, bbox_of_parts, parse_bbox) refl,
            λ (c', n). cc,
          )
          | inr (east, d) ↦ four_parts p q r t (south, west, north, east) (a, b, c, d)
        ]
      ]
    ]
  ]

  -- A box that is refused, or the vehicles in it.
  pub parse_bbox_param_lem :
      (text : String)
      → ((e : String) × (parse_bbox_param parse_float text ≡ not_parsed e)
          × ¬ IsGoodBox parse_float text)
        ⊎ ((box : Option (BoundingBox F)) × (parse_bbox_param parse_float text ≡ parsed box)
            × IsGoodBox parse_float text
            × ((v : Vehicle F) → (in_bbox box v ≡ true) ↔ FitsBox parse_float text v))
  unfolding parse_bbox_param in_bbox
  parse_bbox_param_lem text = elim (Bool-cases (same text "")) [
    | inl empty ↦
        let is_empty : text ≡ "" = ground (arith, empty) in
        inr (none, rw empty refl, inl is_empty, λ v. (λ h. inl is_empty, λ h. refl))
    | inr named ↦
        let no_text : text ≢ "" = λ e. ground (arith, named, e) in
        elim (bbox_of_parts_lem (split 44 text)) [
          | inl (e, refused, bad) ↦
              inl (e, rw named refused, λ g. elim g [ inl i ↦ no_text i | inr c ↦ bad c ])
          | inr (box, read, good, fits) ↦ inr (
            some box,
            rw named read,
            inr good,
            λ v. (
              λ h. inr ((fits v).0 h),
              λ g. elim g [ inl i ↦ absurd (no_text i) | inr c ↦ (fits v).1 c ],
            ),
          )
        ]
  ]
