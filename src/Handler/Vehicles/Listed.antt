-- ===== src/Handler/Vehicles/Listed.antt =====
-- What the request for vehicles of internal/handler/http.go answers.
use wabus_backend.Prelude.{
  ◌≡◌, ◌↔◌, ◌⊎◌, refl, ap, inl, inr, Bool, true, false, ◌&&◌, Option, some, List, [], String,
  string_key, In, Once,
}
use wabus_backend.Prelude.Outcome.{done, ◌>>=◌}
use wabus_backend.Domain.{Float64, Time, Vehicle, VehicleType, BoundingBox}
use wabus_backend.GoMap.{lookup}
use wabus_backend.Store.{Store}
use wabus_backend.Store.Invariant.{Inv}
use wabus_backend.Store.Query.{ListOptions, in_bbox}
use wabus_backend.Store.Query.Candidates.{of_type, of_line}
use wabus_backend.Store.Query.Listing.{vehicle_keys, list_lem}
use wabus_backend.Handler.{Response, respond_error, respond}
use wabus_backend.Handler.Vehicles.{
  Parsed, parsed, VehiclesResponse, parse_bbox_param, vehicles_found, answer_request, list_vehicles,
}
use wabus_backend.Handler.Vehicles.Parameters.{
  IsGoodType, FitsType, FitsLine, parse_type_lem, of_line_lem, IsGoodBox, FitsBox,
  parse_bbox_param_lem,
}

all_three : (a b c : Bool) → ((a && b && c) ≡ true) ↔ ((a ≡ true) × (b ≡ true) × (c ≡ true))
all_three true true true = (λ h. (refl, refl, refl), λ h. refl)
all_three true true false = (λ h. (refl, refl, h), λ h. h.2)
all_three true false c = (λ h. (refl, cc, cc), λ h. cc)
all_three false b c = (λ h. (cc, cc, cc), λ h. cc)

module _ {F : Type 0} ⦃f : Float64 F⦄ (parse_float : String → Parsed F) (now : Time)
    (type_param line bbox_param : String) (s : Store F) where
  -- The answer has the stored vehicles that fit all three parameters, each once.
  abbrev pub IsFound : Response (VehiclesResponse F) → Type 0
  IsFound answer =
      (vehicles : List (Vehicle F)) × (answer ≡ vehicles_found now vehicles)
      × ((v : Vehicle F)
          → In v vehicles ↔ (
              (lookup v.key s.vehicles ≡ some v)
              × FitsType type_param v
              × FitsLine line v
              × FitsBox parse_float bbox_param v))
      × Once (vehicle_keys vehicles)

  -- Both parameters that can be bad are good, and the vehicles are found; or it is a bad request.
  abbrev pub IsAnswer : Response (VehiclesResponse F) → Type 0
  IsAnswer answer =
      (IsGoodType type_param × IsGoodBox parse_float bbox_param × IsFound answer)
      ⊎ (¬ (IsGoodType type_param × IsGoodBox parse_float bbox_param) × (answer.status ≡ 400))

  answer_request-IsFound :
      (kind : Option VehicleType) (box : Option (BoundingBox F))
      → Inv s
      → ((v : Vehicle F) → (of_type kind v ≡ true) ↔ FitsType type_param v)
      → ((v : Vehicle F) → (in_bbox box v ≡ true) ↔ FitsBox parse_float bbox_param v)
      → (answer : Response (VehiclesResponse F)) × (answer_request now
            (some kind)
            line
            (parsed box)
            s
          ≡ done answer)
        × IsFound answer
  unfolding answer_request
  answer_request-IsFound kind box i types boxes =
      let opts : ListOptions F = record { type_option = kind; line_option = line; bbox = box } in
      let (vehicles, e, exactly, once) = list_lem opts s i in
      (
        vehicles_found now vehicles,
        ap (λ o. o >>= (λ found. done (vehicles_found now found))) e,
        (
          vehicles,
          refl,
          λ v.
              let tests = all_three (of_type kind v) (of_line line v) (in_bbox box v) in
              (
                λ h.
                    let (stored, fits) = (exactly v).0 h in
                    let (a, b, c) = tests.0 fits in
                    (stored, (types v).0 a, (of_line_lem line v).0 b, (boxes v).0 c),
                λ (stored, a, b, c).
                    (exactly v).1
                      (stored, tests.1 ((types v).1 a, (of_line_lem line v).1 b, (boxes v).1 c)),
              ),
          once,
        ),
      )

  -- On a store that satisfies the invariant a request for vehicles does not panic. If its type is
  -- missing, 1 or 2, and its box is missing or four numbers, it is answered with exactly the stored
  -- vehicles of the type and the line, between the box's first and third number in latitude and its
  -- second and fourth in longitude, each once; a missing parameter restricts nothing. Otherwise the
  -- status is 400.
  pub list_vehicles_lem :
      Inv s
      → (answer : Response (VehiclesResponse F)) × (list_vehicles parse_float now type_param line
            bbox_param s
          ≡ done answer)
        × IsAnswer answer
  unfolding list_vehicles answer_request respond_error respond
  list_vehicles_lem i = elim (parse_type_lem F type_param) [
    | inl (e, bad) ↦ (
      _,
      ap (λ x. answer_request now x line (parse_bbox_param parse_float bbox_param) s) e,
      inr (λ good. bad good.0, refl),
    )
    | inr (kind, e, (good, types)) ↦ elim (parse_bbox_param_lem parse_float bbox_param) [
      | inl (text, e', bad) ↦
          (respond_error [] 400 text, rw (e, e') refl, inr (λ all. bad all.1, refl))
      | inr (box, e', good', boxes) ↦
          let (answer, e'', found) = answer_request-IsFound kind box i types boxes in
          (answer, rw (e, e') e'', inl (good, good', found))
    ]
  ]
