-- ===== src/Prelude/Sort.antt =====
-- `sort_unstable_by_key`, as a stable sort by a Boolean order: elements of equal keys keep their
-- order, which is one of the orders that the library may leave them in.
use mathlib.Core.Path.{◌≡◌}
use mathlib.Core.Logic.{◌⊎◌, inl, inr}
use mathlib.Core.Bool.{Bool, true}
use mathlib.Core.List.{List, [], ◌∷◌, Perm}
use mathlib.Core.List.Perm
use btrealloc.Prelude.Tests.{if◌then◌else◌, Bool-cases}
use btrealloc.Prelude.Lists.{All, All-mono}

module _ {ℓ} {A : Type ℓ} (le : A → A → Bool) where
  unfoldable pub insert_by : A → List A → List A
  insert_by x [] = x ∷ []
  insert_by x (y ∷ ys) = if le x y then x ∷ y ∷ ys else (y ∷ insert_by x ys)

  unfoldable pub sort_by : List A → List A
  unfolding insert_by
  sort_by [] = []
  sort_by (x ∷ xs) = insert_by x (sort_by xs)

  abbrev pub IsSorted : List A → Type ℓ
  IsSorted [] = Unit
  IsSorted (x ∷ xs) = All (λ y. le x y ≡ true) xs × IsSorted xs

  pub insert_by-perm : (x : A) (l : List A) → Perm (insert_by x l) (x ∷ l)
  unfolding insert_by
  insert_by-perm x [] = Perm.rfl
  insert_by-perm x (y ∷ ys) = elim (Bool-cases (le x y)) [
    | inl p ↦ rw p Perm.rfl
    | inr p ↦ rw p (Perm.trans (Perm.cons y (insert_by-perm x ys)) (Perm.swap x y ys))
  ]

  pub sort_by-perm : (l : List A) → Perm (sort_by l) l
  unfolding sort_by
  sort_by-perm [] = Perm.rfl
  sort_by-perm (x ∷ xs) = Perm.trans (insert_by-perm x (sort_by xs)) (Perm.cons x (sort_by-perm xs))

module _ {ℓ κ} {A : Type ℓ} (le : A → A → Bool) (P : A → Type κ) where
  insert_by-All : (x : A) (l : List A) → P x → All P l → All P (insert_by le x l)
  unfolding insert_by
  insert_by-All x [] p h = (p, tt)
  insert_by-All x (y ∷ ys) p h = elim (Bool-cases (le x y)) [
    | inl e ↦ rw e (p, h)
    | inr e ↦ rw e (h.0, insert_by-All x ys p h.1)
  ]

  pub sort_by-All : (l : List A) → All P l → All P (sort_by le l)
  unfolding sort_by
  sort_by-All [] h = tt
  sort_by-All (x ∷ xs) h = insert_by-All x (sort_by le xs) h.0 (sort_by-All xs h.1)

  All-insert_by : (x : A) (l : List A) → All P (insert_by le x l) → P x × All P l
  unfolding insert_by
  All-insert_by x [] h = h
  All-insert_by x (y ∷ ys) h = elim (Bool-cases (le x y)) [
    | inl e ↦ rw e at h
    | inr e ↦ let (hy, hs) = rw e at h in let (hx, rest) = All-insert_by x ys hs in (hx, (hy, rest))
  ]

  pub All-sort_by : (l : List A) → All P (sort_by le l) → All P l
  unfolding sort_by
  All-sort_by [] h = tt
  All-sort_by (x ∷ xs) h =
      let (hx, rest) = All-insert_by x (sort_by le xs) h in (hx, All-sort_by xs rest)

-- What the order of a key has to be for the sort to sort.
pub record IsOrder {ℓ} {A : Type ℓ} (le : A → A → Bool) : Type ℓ where
  pub total : (a b : A) → (le a b ≡ true) ⊎ (le b a ≡ true)
  pub trans : (a b c : A) → le a b ≡ true → le b c ≡ true → le a c ≡ true

module _ {ℓ} {A : Type ℓ} (le : A → A → Bool) (o : IsOrder le) where
  insert_by-IsSorted : (x : A) (l : List A) → IsSorted le l → IsSorted le (insert_by le x l)
  unfolding insert_by
  insert_by-IsSorted x [] s = (tt, tt)
  insert_by-IsSorted x (y ∷ ys) s = elim (Bool-cases (le x y)) [
    | inl e ↦ rw e ((e, All-mono (λ z h. o.trans x y z e h) ys s.0), s)
    | inr e ↦
        let back : le y x ≡ true = elim (o.total x y) [ inl p ↦ cc | inr p ↦ p ] in
        rw e (insert_by-All le (λ z. le y z ≡ true) x ys back s.0, insert_by-IsSorted x ys s.1)
  ]

  pub sort_by-IsSorted : (l : List A) → IsSorted le (sort_by le l)
  unfolding sort_by
  sort_by-IsSorted [] = tt
  sort_by-IsSorted (x ∷ xs) = insert_by-IsSorted x (sort_by le xs) (sort_by-IsSorted xs)
