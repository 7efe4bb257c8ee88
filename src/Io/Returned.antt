-- ===== src/Io/Returned.antt =====
-- What is known of the parts of an action that has returned a value.
use btrealloc.Prelude.{◌≡◌, refl}
use btrealloc.Io.{Result, ok, err, Action, and_then, ◌>>=◌, map_err, map_err_result}

module _ {S E A B : Type 0} where
  pub bind-ok :
      (m : Action S E A) (f : A → Action S E B) (b : B) (s s' : S)
      → (m >>= f) s ≡ (ok b, s')
      → (a : A) × (t : S) × (m s ≡ (ok a, t)) × (f a t ≡ (ok b, s'))
  bind-ok m f b s s' e = go (m s) e
    where
      go :
          (x : Result E A × S)
          → and_then x f ≡ (ok b, s')
          → (a : A) × (t : S) × (x ≡ (ok a, t)) × (f a t ≡ (ok b, s'))
      go (ok a, t) e = (a, t, refl, e)
      go (err why, t) e = cc

module _ {S E F A : Type 0} where
  pub map_err-ok :
      (g : E → F) (m : Action S E A) (a : A) (s s' : S)
      → map_err g m s ≡ (ok a, s')
      → m s ≡ (ok a, s')
  map_err-ok g m a s s' e = go (m s) e
    where
      go : (x : Result E A × S) → map_err_result g x ≡ (ok a, s') → x ≡ (ok a, s')
      go (ok b, t) e = cc
      go (err why, t) e = cc

module _ {S E A : Type 0} where
  -- What failed has not returned.
  pub failed-ne-ok :
      {why : E} {a : A} {s s' : S} → ◌≡◌ {A = Result E A × S} (err why, s) (ok a, s') → ⊥
  failed-ne-ok e = cc

  pub ok-injective : {a b : A} {s s' : S} → ◌≡◌ {A = Result E A × S} (ok a, s) (ok b, s') → a ≡ b
  ok-injective e = cc
