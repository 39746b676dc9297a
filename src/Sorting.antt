-- ===== src/Sorting.antt =====
-- `sort.Slice`, which is not stable: an interface of what the code may rely on, and an
-- implementation. A program that sorts takes the interface, so what is proved of it holds for every
-- order in which equal elements may come out.
use mathlib.Core.List.{Permᴰ}
use mathlib.Core.List.Permᴰ
use wabus_backend.Prelude.{
  ◌≡◌, ◌∙◌, refl, sym, subst, inl, inr, Bool, true, false, List, [], ◌∷◌, if◌then◌else◌, In, All,
  All-In, In-All, Bool-cases,
}

module _ {A : Type 0} where
  -- What `sort.Slice` asks of `less`: a strict weak order.
  abbrev pub IsWeakOrder : (A → A → Bool) → Type 0
  IsWeakOrder less =
      ((a b : A) → less a b ≡ true → less b a ≡ false)
      × ((a b c : A) → less b a ≡ false → less c b ≡ false → less c a ≡ false)

  -- No element is less than one that stands before it.
  abbrev pub IsSorted : (A → A → Bool) → List A → Type 0
  IsSorted less [] = Unit
  IsSorted less (x ∷ xs) = All (λ y. less y x ≡ false) xs × IsSorted less xs

  pub In-Perm : {xs ys : List A} → Permᴰ xs ys → (a : A) → In a xs → In a ys
  In-Perm Permᴰ.nil a h = h
  In-Perm (Permᴰ.cons e p) a (inl h) = inl (h ∙ e)
  In-Perm (Permᴰ.cons e p) a (inr h) = inr (In-Perm p a h)
  In-Perm (Permᴰ.swap e f) a (inl h) = inr (inl (h ∙ e))
  In-Perm (Permᴰ.swap e f) a (inr (inl h)) = inl (h ∙ f)
  In-Perm (Permᴰ.swap e f) a (inr (inr h)) = inr (inr h)
  In-Perm (Permᴰ.trans p q) a h = In-Perm q a (In-Perm p a h)

pub record SliceSort : Type 1 where
  pub sort : {A : Type 0} → (A → A → Bool) → List A → List A
  pub sort-perm : {A : Type 0} (less : A → A → Bool) (xs : List A) → Permᴰ (sort less xs) xs
  pub sort-IsSorted :
      {A : Type 0} (less : A → A → Bool) (xs : List A)
      → IsWeakOrder less
      → IsSorted less (sort less xs)

module _ {A : Type 0} (less : A → A → Bool) where
  unfoldable pub insert_sorted : A → List A → List A
  insert_sorted x [] = x ∷ []
  insert_sorted x (y ∷ ys) =
      let rest = insert_sorted x ys in if less y x then y ∷ rest else x ∷ y ∷ ys

  unfoldable pub insertion_sort : List A → List A
  insertion_sort [] = []
  insertion_sort (x ∷ xs) = insert_sorted x (insertion_sort xs)

  insert_sorted-perm : (x : A) (xs : List A) → Permᴰ (insert_sorted x xs) (x ∷ xs)
  unfolding insert_sorted
  insert_sorted-perm x [] = (Permᴰ.refl _)
  insert_sorted-perm x (y ∷ ys) = elim (Bool-cases (less y x)) [
    | inl first ↦
        rw (first, insert_sorted)
          (Permᴰ.trans (Permᴰ.cons refl (insert_sorted-perm x ys)) (Permᴰ.swap refl refl))
    | inr last ↦ rw (last, insert_sorted) (Permᴰ.refl _)
  ]

  pub insertion_sort-perm : (xs : List A) → Permᴰ (insertion_sort xs) xs
  unfolding insertion_sort
  insertion_sort-perm [] = (Permᴰ.refl _)
  insertion_sort-perm (x ∷ xs) =
      Permᴰ.trans (insert_sorted-perm x (insertion_sort xs))
        (Permᴰ.cons refl (insertion_sort-perm xs))

  insert_sorted-IsSorted :
      (x : A) (xs : List A)
      → IsWeakOrder less
      → IsSorted less xs
      → IsSorted less (insert_sorted x xs)
  unfolding insert_sorted
  insert_sorted-IsSorted x [] w s = (tt, tt)
  insert_sorted-IsSorted x (y ∷ ys) w s = elim (Bool-cases (less y x)) [
    | inl first ↦
        rw (first, insert_sorted)
          (
            In-All _ (insert_sorted x ys) (λ z i. elim (In-Perm (insert_sorted-perm x ys) z i) [
              | inl e ↦ subst (λ u. less u y ≡ false) (sym e) (w.0 y x first)
              | inr j ↦ All-In _ z ys s.0 j
            ]),
            insert_sorted-IsSorted x ys w s.1,
          )
    | inr last ↦
        rw (last, insert_sorted)
          ((last, In-All _ ys (λ z i. w.1 x y z last (All-In _ z ys s.0 i))), s)
  ]

  pub insertion_sort-IsSorted : (xs : List A) → IsWeakOrder less → IsSorted less (insertion_sort xs)
  unfolding insertion_sort
  insertion_sort-IsSorted [] w = tt
  insertion_sort-IsSorted (x ∷ xs) w =
      insert_sorted-IsSorted x (insertion_sort xs) w (insertion_sort-IsSorted xs w)

unfoldable pub by_insertion : SliceSort
by_insertion = record {
  sort = insertion_sort;
  sort-perm = insertion_sort-perm;
  sort-IsSorted = insertion_sort-IsSorted;
}
