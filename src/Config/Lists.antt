-- ===== src/Config/Lists.antt =====
-- The lists that internal/config/config.go reads.
use Prim.Native.String.{String}
use wabus_backend.Prelude.{
  ◌≡◌, ◌≢◌, ◌↔◌, ◌∙◌, ap, refl, sym, subst, inl, inr, List, [], ◌∷◌, arith, string_key, same, split,
  In, Bool-cases, trim_space, trim_left, trim_right,
}
use wabus_backend.Config.{items_loop, get_csv_env}

-- An item of the list: the trimmed text of a part, unless it is empty.
abbrev pub IsItem : String → List String → Type 0
IsItem t parts = (t ≢ "") × (p : String) × In p parts × (trim_space p ≡ t)

items_loop_lem : (t : String) (parts : List String) → In t (items_loop parts) ↔ IsItem t parts
unfolding items_loop
items_loop_lem t [] = (λ h. absurd h, λ (_, p, h, _). absurd h)
items_loop_lem t (p ∷ parts) = elim (Bool-cases (same (trim_space p) "")) [
  | inl empty ↦ rw empty (
    λ h. let (named, q, i, e) = (items_loop_lem t parts).0 h in (named, q, inr i, e),
    λ (named, q, i, e). elim i [
      | inl here ↦ absurd (named (sym e ∙ ap trim_space here ∙ ground (arith, empty)))
      | inr later ↦ (items_loop_lem t parts).1 (named, q, later, e)
    ],
  )
  | inr full ↦ rw full (
    λ h. elim h [
      | inl here ↦ (λ e. absurd (ground (arith, full, sym here ∙ e)), p, inl refl, sym here)
      | inr later ↦ let (named, q, i, e) = (items_loop_lem t parts).0 later in (named, q, inr i, e)
    ],
    λ (named, q, i, e). elim i [
      | inl here ↦ inl (sym e ∙ ap trim_space here)
      | inr later ↦ inr ((items_loop_lem t parts).1 (named, q, later, e))
    ],
  )
]

no_items : (t : String) → t ≢ "" → (p : String) → In p (split 44 "") → trim_space p ≡ t → ⊥
unfolding split trim_space trim_left trim_right
no_items t named p (inl here) e = named (sym e ∙ ap trim_space here)
no_items t named p (inr later) e = later

-- The list that is read from a variable has the parts between its commas, without the space around
-- each, and without those that are then empty; the list of an unset or blank variable is empty.
pub get_csv_env_lem :
    (env : String → String) (key t : String)
    → In t (get_csv_env env key) ↔ IsItem t (split 44 (trim_space (env key)))
unfolding get_csv_env
get_csv_env_lem env key t = elim (Bool-cases (same (trim_space (env key)) "")) [
  | inl blank ↦
      let nothing : trim_space (env key) ≡ "" = ground (arith, blank) in
      rw blank (
        λ h. absurd h,
        λ (named, p, i, e). no_items t named p (subst (λ x. In p (split 44 x)) nothing i) e,
      )
  | inr filled ↦ rw filled (items_loop_lem t (split 44 (trim_space (env key))))
]
