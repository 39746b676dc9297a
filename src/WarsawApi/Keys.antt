-- ===== src/WarsawApi/Keys.antt =====
-- The keys that pkg/warsawapi/client.go gives the vehicles.
use Prim.Native.Char.{code}
use Prim.Native.String.{String}
use Prim.Native.String.append
use text.Mathlib.TextLemmas.{append_assoc, append_cancel_left}
use wabus_backend.Prelude.{
  ℕ, All, All-In, ◌≡◌, ◌≢◌, ◌∙◌, ap, refl, sym, inl, inr, ◌⊎◌, not, ◌==◌, Option, none, some, List,
  [], ◌∷◌, arith, string_key, same, decimal_ℤ, decimal, digits_loop, ◌<>◌, In, Bool-cases,
}
use wabus_backend.Domain.{Time, Vehicle, VehicleType, bus, tram}
use wabus_backend.WarsawApi.{
  ApiVehicle, ApiResponse, Reply, no_reply, reply, Api, vehicle_key, vehicle_of, to_domain,
  on_response, on_vehicles, fetch,
}

-- The number of a text's first character.
first_code : String → ℕ
first_code String.[] = 0
first_code (String.◌∷◌ c s) = code c

-- The two types that are fetched.
abbrev pub IsKnown : VehicleType → Type 0
IsKnown t = (t ≡ bus) ⊎ (t ≡ tram)

key-bus : (n : String) → vehicle_key bus n ≡ "1:" <> n
unfolding vehicle_key decimal_ℤ decimal digits_loop
key-bus n = sym (append_assoc "1" ":" n)

key-tram : (n : String) → vehicle_key tram n ≡ "2:" <> n
unfolding vehicle_key decimal_ℤ decimal digits_loop
key-tram n = sym (append_assoc "2" ":" n)

bus-tram : (m n : String) → vehicle_key bus m ≢ vehicle_key tram n
unfolding first_code
bus-tram m n e =
    let heads : String.◌∷◌ "1" (":" <> m) ≡ String.◌∷◌ "2" (":" <> n) =
      sym (append.cons "1" ":" m) ∙ sym (key-bus m) ∙ e ∙ key-tram n ∙ append.cons "2" ":" n in
    absurd (omega (arith, ap first_code heads))

vehicle_key-injective :
    (t u : VehicleType) (m n : String)
    → IsKnown t
    → IsKnown u
    → vehicle_key t m ≡ vehicle_key u n
    → (t ≡ u) × (m ≡ n)
vehicle_key-injective t u m n (inl p) (inl q) e = (
  p ∙ sym q,
  append_cancel_left "1:" m n (
      sym (key-bus m)
      ∙ ap (λ x. vehicle_key x m) (sym p)
      ∙ e
      ∙ ap (λ x. vehicle_key x n) q
      ∙ key-bus n),
)
vehicle_key-injective t u m n (inr p) (inr q) e = (
  p ∙ sym q,
  append_cancel_left "2:" m n (
      sym (key-tram m)
      ∙ ap (λ x. vehicle_key x m) (sym p)
      ∙ e
      ∙ ap (λ x. vehicle_key x n) q
      ∙ key-tram n),
)
vehicle_key-injective t u m n (inl p) (inr q) e =
    absurd (bus-tram m n (ap (λ x. vehicle_key x m) (sym p) ∙ e ∙ ap (λ x. vehicle_key x n) q))
vehicle_key-injective t u m n (inr p) (inl q) e =
    absurd
      (bus-tram n m (sym (ap (λ x. vehicle_key x m) (sym p) ∙ e ∙ ap (λ x. vehicle_key x n) q)))

module _ {F B : Type 0} (api : Api F B) (zero_time : Time) where
  -- A vehicle has the key of its type and number.
  abbrev IsKeyed : VehicleType → Vehicle F → Type 0
  IsKeyed t v = (v.key ≡ vehicle_key t v.vehicle_number) × (v.vehicle_number ≢ "")

  to_domain-IsKeyed :
      (now : Time) (t : VehicleType) (vehicles : List (ApiVehicle F))
      → All (IsKeyed t) (to_domain api zero_time now t vehicles)
  unfolding to_domain vehicle_of
  to_domain-IsKeyed now t [] = tt
  to_domain-IsKeyed now t (av ∷ vehicles) = elim (Bool-cases (same av.vehicle_number "")) [
    | inl nameless ↦ rw nameless (to_domain-IsKeyed now t vehicles)
    | inr named ↦
        rw named ((refl, λ e. absurd (ground (arith, named, e))), to_domain-IsKeyed now t vehicles)
  ]

  fetch-IsKeyed :
      (now : Time) (t : VehicleType) (r : Reply B)
      → All (IsKeyed t) (fetch api zero_time now t r).found
  unfolding fetch
  fetch-IsKeyed now t no_reply = tt
  fetch-IsKeyed now t (reply status body) = elim (Bool-cases (not (status == 200))) [
    | inl bad ↦ rw bad tt
    | inr good ↦ rw good (by_response (api.decode_response body))
  ]
    where
      by_vehicles :
          (o : Option (List (ApiVehicle F)))
          → All (IsKeyed t) (on_vehicles api zero_time now t o).found
      by_vehicles none = tt
      by_vehicles (some vehicles) = to_domain-IsKeyed now t vehicles

      by_response :
          (o : Option (ApiResponse B)) → All (IsKeyed t) (on_response api zero_time now t o).found
      by_response none = tt
      by_response (some x) = elim (Bool-cases (not (same x.error ""))) [
        | inl fault ↦ rw fault tt
        | inr fine ↦ rw fine (by_vehicles (api.decode_vehicles x.result))
      ]

  -- Whatever the API replies: two vehicles that are fetched, of buses or of trams, have the same key
  -- only if they are of one type and have the same number, and none has an empty number. So the
  -- vehicles of one type never stand for those of the other in the store.
  pub fetched_keys :
      (t u : VehicleType) (now later : Time) (r s : Reply B) (v w : Vehicle F)
      → IsKnown t
      → IsKnown u
      → In v (fetch api zero_time now t r).found
      → In w (fetch api zero_time later u s).found
      → v.key ≡ w.key
      → (t ≡ u) × (v.vehicle_number ≡ w.vehicle_number) × (v.vehicle_number ≢ "")
  fetched_keys t u now later r s v w known known' i j e =
      let (key_v, named) = All-In (IsKeyed t) v _ (fetch-IsKeyed now t r) i in
      let (key_w, _) = All-In (IsKeyed u) w _ (fetch-IsKeyed later u s) j in
      let (types, numbers) =
        vehicle_key-injective t u v.vehicle_number w.vehicle_number known known'
          (sym key_v ∙ e ∙ key_w) in
      (types, numbers, named)
