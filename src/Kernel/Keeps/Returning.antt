-- ===== src/Kernel/Keeps/Returning.antt =====
-- Actions that do not fail.
use mathlib.Core.Path.{subst}
use btrealloc.Prelude.{◌≡◌, refl, sym, ap, ◌∙◌}
use btrealloc.Io.{Result, ok, err, Action, pure, attempt, and_then, ◌>>=◌}
use btrealloc.Kernel.Keeps.{Post, Post-any, Yields, Keeps}

-- The action returns a value as `Q` says, and keeps `I`.
pub record Returns {S E A : Type 0} (I : S → Type 0) (Q : A → Type 0) (m : Action S E A)
    : Type 0 where
  pub at : (s : S) → I s → (a : A) × (s' : S) × (m s ≡ (ok a, s')) × I s' × Q a

module _ {S E A : Type 0} {I : S → Type 0} {Q : A → Type 0} where
  pub Returns-pure : (a : A) → Q a → Returns {E = E} I Q (pure a)
  Returns-pure a q = record { at = λ s h. (a, s, refl, h, q) }

  pub Returns-attempt :
      {F : Type 0} {m : Action S E A} → Yields I Q m → Returns {E = F} I (Post Q) (attempt m)
  unfolding attempt
  Returns-attempt {m} k = record {
    at = λ s h. let (h', q) = k.at s h in ((m s).0, (m s).1, refl, h', q);
  }

module _ {S E A B : Type 0} {I : S → Type 0} {Q : A → Type 0} {R : B → Type 0} where
  pub Returns-bind :
      {m : Action S E A} {f : A → Action S E B}
      → Returns I Q m
      → ((a : A) → Q a → Returns I R (f a))
      → Returns I R (m >>= f)
  Returns-bind {m} {f} km kf = record {
    at = λ s h.
        let (a, s', e, h', q) = km.at s h in
        let (b, s'', e', h'', r) = (kf a q).at s' h' in
        (b, s'', ap (λ x. and_then x f) e ∙ e', h'', r);
  }

module _ {S E A : Type 0} {I : S → Type 0} {Q : A → Type 0} {m : Action S E A} where
  pub Keeps-of_Returns : Returns I Q m → Keeps I m
  Keeps-of_Returns k = record {
    at = λ s h.
        let (a, s', e, h', q) = k.at s h in (subst (λ x. I x.1) (sym e) h', Post-any (m s).0);
  }

module _ {S E F A B : Type 0} {I : S → Type 0} {Q : A → Type 0} {R : B → Type 0} where
  pub Returns-bind_attempt :
      {m : Action S F A} (f : Result F A → Action S E B)
      → Yields I Q m
      → ((e : F) → Returns I R (f (err e)))
      → ((a : A) → Q a → Returns I R (f (ok a)))
      → Returns I R (attempt m >>= f)
  Returns-bind_attempt f km kg kf =
      Returns-bind (Returns-attempt km)
        (λ r. elim r as (λ r. Post Q r → Returns I R (f r)) [ err e ↦ λ h. kg e | ok a ↦ kf a ])

module _ {S E F A B : Type 0} {I : S → Type 0} {Q : A → Type 0} {R : B → Type 0} where
  -- What does not fail may be attempted.
  pub Returns-bind_ok :
      {m : Action S F A} (f : Result F A → Action S E B)
      → Returns I Q m
      → ((a : A) → Q a → Returns I R (f (ok a)))
      → Returns I R (attempt m >>= f)
  unfolding attempt
  Returns-bind_ok {m} f km kf = record {
    at = λ s h.
        let (a, s', e, h', q) = km.at s h in
        let (b, s'', e', h'', r) = (kf a q).at s' h' in
        (b, s'', ap (λ x. f x.0 x.1) e ∙ e', h'', r);
  }
