-- ===== src/Prelude/Members.antt =====
-- The elements of a list, one by one.
use mathlib.Core.Path.{◌≡◌, refl, sym, subst}
use mathlib.Core.List.{List, [], ◌∷◌, map, Memᴰ}
use mathlib.Core.List.Memᴰ as M
use btrealloc.Prelude.Lists.{All}

module _ {A : Type 0} (P : A → Type 0) where
  pub at_member : (x : A) (xs : List A) → All P xs → Memᴰ x xs → P x
  at_member x [] h m = elim m [ ]
  at_member x (y ∷ ys) h (M.head e) = subst P (sym e) h.0
  at_member x (y ∷ ys) h (M.tail m) = at_member x ys h.1 m

  pub All-of_member : (xs : List A) → ((x : A) → Memᴰ x xs → P x) → All P xs
  All-of_member [] f = tt
  All-of_member (x ∷ xs) f = (f x (M.head refl), All-of_member xs (λ y m. f y (M.tail m)))

module _ {A B : Type 0} (f : B → A) where
  -- Of some values, one has a given image.
  pub map-preimage : (x : A) (ys : List B) → Memᴰ x (map f ys) → (y : B) × Memᴰ y ys × (f y ≡ x)
  map-preimage x [] m = elim m [ ]
  map-preimage x (y ∷ ys) (M.head e) = (y, M.head refl, sym e)
  map-preimage x (y ∷ ys) (M.tail n) = let (z, i, e) = map-preimage x ys n in (z, M.tail i, e)
