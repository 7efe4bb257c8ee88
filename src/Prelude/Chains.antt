-- ===== src/Prelude/Chains.antt =====
-- Steps that follow on one another, one for each element of a list.
use mathlib.Core.Path.{◌≡◌, refl, sym, ap, subst}
use mathlib.Core.List.{List, [], ◌∷◌, ◌++◌, Memᴰ}
use mathlib.Core.List.Memᴰ as M

module _ {A S : Type 0} (Step : A → S → S → Type 0) where
  -- A step for each element, where the first begins in the one state, each other where the one before
  -- it has ended, and the last ends in the other state.
  abbrev pub Chain : List A → S → S → Type 0
  Chain [] s s' = s ≡ s'
  Chain (x ∷ xs) s s' = (t : S) × Step x s t × Chain xs t s'

  -- A chain, taken apart at the step of one element.
  pub record Link (x : A) (xs : List A) (s s' : S) : Type 0 where
    pub front : List A
    pub back : List A
    pub parts : xs ≡ front ++ x ∷ back
    pub before : S
    pub after : S
    pub earlier : Chain front s before
    pub step : Step x before after
    pub later : Chain back after s'

  pub chain-Link : (x : A) (xs : List A) (s s' : S) → Memᴰ x xs → Chain xs s s' → Link x xs s s'
  chain-Link x [] s s' m h = elim m [ ]
  chain-Link x (y ∷ xs) s s' (M.head e) (t, here, rest) = record {
    front = [];
    back = xs;
    parts = ap (λ z. z ∷ xs) (sym e);
    before = s;
    after = t;
    earlier = refl;
    step = subst (λ z. Step z s t) (sym e) here;
    later = rest;
  }
  chain-Link x (y ∷ xs) s s' (M.tail m) (t, here, rest) =
      let l = chain-Link x xs t s' m rest in
      record {
        front = y ∷ l.front;
        back = l.back;
        parts = ap (◌∷◌ y) l.parts;
        before = l.before;
        after = l.after;
        earlier = (t, here, l.earlier);
        step = l.step;
        later = l.later;
      }
