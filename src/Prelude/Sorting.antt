-- ===== src/Prelude/Sorting.antt =====
-- The library sorts of the source, `sort_by` and `sort_unstable`, as a stable insertion sort over
-- a Boolean order, and what a caller may rely on.
use mathlib.Core.List.Perm
use mathlib.Core.List.{List, [], ◌∷◌, Perm}
use mathlib.Core.Path.{◌≡◌}
use mathlib.Core.Logic.{inl, inr}
use mathlib.Core.Bool.{Bool, true, false}
use rust_agent_harness.Prelude.Tests.{if◌then◌else◌, Bool-cases}

module _ {ℓ} {A : Type ℓ} (le : A → A → Bool) where
  unfoldable pub insert_sorted : A → List A → List A
  insert_sorted a [] = a ∷ []
  insert_sorted a (x ∷ xs) =
      let rest = insert_sorted a xs in if le a x then a ∷ x ∷ xs else x ∷ rest

  unfoldable pub sort : List A → List A
  unfolding insert_sorted
  sort [] = []
  sort (x ∷ xs) = insert_sorted x (sort xs)

  -- Each element is at most every later one.
  abbrev pub BoundsAll : A → List A → Type 0
  BoundsAll a [] = Unit
  BoundsAll a (x ∷ xs) = (le a x ≡ true) × BoundsAll a xs

  abbrev pub IsSorted : List A → Type 0
  IsSorted [] = Unit
  IsSorted (x ∷ xs) = BoundsAll x xs × IsSorted xs

  pub insert_sorted-perm : (a : A) (xs : List A) → Perm (insert_sorted a xs) (a ∷ xs)
  unfolding insert_sorted
  insert_sorted-perm a [] = Perm.refl (a ∷ [])
  insert_sorted-perm a (x ∷ xs) = elim (Bool-cases (le a x)) [
    | inl e ↦ rw e (Perm.refl (a ∷ x ∷ xs))
    | inr e ↦ rw e (Perm.trans (Perm.cons x (insert_sorted-perm a xs)) (Perm.swap a x xs))
  ]

  pub sort-perm : (xs : List A) → Perm (sort xs) xs
  unfolding sort
  sort-perm [] = Perm.refl []
  sort-perm (x ∷ xs) = Perm.trans (insert_sorted-perm x (sort xs)) (Perm.cons x (sort-perm xs))

  module _ (total : (a b : A) → le a b ≡ false → le b a ≡ true)
      (trans : (a b c : A) → le a b ≡ true → le b c ≡ true → le a c ≡ true) where
    BoundsAll-trans : (a b : A) (xs : List A) → le a b ≡ true → BoundsAll b xs → BoundsAll a xs
    BoundsAll-trans a b [] h k = tt
    BoundsAll-trans a b (x ∷ xs) h k = (trans a b x h k.0, BoundsAll-trans a b xs h k.1)

    BoundsAll-insert :
        (b a : A) (xs : List A) → le b a ≡ true → BoundsAll b xs → BoundsAll b (insert_sorted a xs)
    unfolding insert_sorted
    BoundsAll-insert b a [] h k = (h, tt)
    BoundsAll-insert b a (x ∷ xs) h k = elim (Bool-cases (le a x)) [
      | inl e ↦ rw e (h, k)
      | inr e ↦ rw e (k.0, BoundsAll-insert b a xs h k.1)
    ]

    insert_sorted-IsSorted : (a : A) (xs : List A) → IsSorted xs → IsSorted (insert_sorted a xs)
    unfolding insert_sorted
    insert_sorted-IsSorted a [] h = (tt, tt)
    insert_sorted-IsSorted a (x ∷ xs) h = elim (Bool-cases (le a x)) [
      | inl e ↦ rw e ((e, BoundsAll-trans a x xs e h.0), h)
      | inr e ↦ rw e (BoundsAll-insert x a xs (total a x e) h.0, insert_sorted-IsSorted a xs h.1)
    ]

    pub sort-IsSorted : (xs : List A) → IsSorted (sort xs)
    unfolding sort
    sort-IsSorted [] = tt
    sort-IsSorted (x ∷ xs) = insert_sorted-IsSorted x (sort xs) (sort-IsSorted xs)

-- A list in order is in every order that follows from it.
module _ {ℓ} {A : Type ℓ} (le le' : A → A → Bool)
    (follows : (a b : A) → le a b ≡ true → le' a b ≡ true) where
  BoundsAll-follows : (a : A) (xs : List A) → BoundsAll le a xs → BoundsAll le' a xs
  BoundsAll-follows a [] h = tt
  BoundsAll-follows a (x ∷ xs) h = (follows a x h.0, BoundsAll-follows a xs h.1)

  pub IsSorted-follows : (xs : List A) → IsSorted le xs → IsSorted le' xs
  IsSorted-follows [] h = tt
  IsSorted-follows (x ∷ xs) h = (BoundsAll-follows x xs h.0, IsSorted-follows xs h.1)
