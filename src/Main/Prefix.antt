-- ===== src/Main/Prefix.antt =====
-- What `str::starts_with` says of two texts, as src/main.rs asks it of the target of a message.
use btrealloc.Prelude.{
  ◌≡◌, refl, sym, ap, ◌∙◌, true, false, [], ◌∷◌, ◌++◌, ◌==◌, ==→≡, ==_refl, Bool-cases, inl, inr,
}
use btrealloc.Abi.{Bytes}
use btrealloc.Main.Logger.{starts_with}

pub starts_with_self : (p t : Bytes) → starts_with p (p ++ t) ≡ true
unfolding starts_with
starts_with_self [] t = refl
starts_with_self (c ∷ p) t = rw (==_refl c) (starts_with_self p t)

pub starts_with-rest : (p t : Bytes) → starts_with p t ≡ true → (rest : Bytes) × (t ≡ p ++ rest)
unfolding starts_with
starts_with-rest [] t h = (t, refl)
starts_with-rest (c ∷ p) [] h = absurd cc
starts_with-rest (c ∷ p) (d ∷ t) h = elim (Bool-cases (c == d)) [
  | inl e ↦
      let (rest, same) = starts_with-rest p t (rw e at h) in
      (rest, ap (λ x. x ∷ t) (sym (==→≡ c d e)) ∙ ap (◌∷◌ c) same)
  | inr e ↦ let clash : false ≡ true = rw e at h in absurd cc
]
