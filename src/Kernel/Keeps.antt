-- ===== src/Kernel/Keeps.antt =====
-- Invariants of the state under the program's actions: one rule for each way to build an action.
pub mod Calls
pub mod Files
pub mod Reading
pub mod Paths
pub mod Walking
pub mod Temp
pub mod Returning
use btrealloc.Prelude.{
  ℕ, ◌≡◌, ◌≢◌, refl, Bool, true, false, not, Option, none, some, List, if◌then◌else◌,
}
use btrealloc.Io.{
  not_found, kind, Result, ok, err, IoError, Action, pure, raise, lift, gets, modify, and_then,
  ◌>>=◌, ◌>>◌, attempt, map_err, map_err_result,
}
use btrealloc.Abi.{Bytes}
use btrealloc.Kernel.Search.{SearchKey, Found}
use btrealloc.Kernel.Os.{
  Os, FilePath, OpenFlags, directory, no_atime, tmp_file, State, Io, on_world,
}

-- What is true of a value that is returned; of a failure nothing is said.
abbrev pub Post : {E A : Type 0} → (A → Type 0) → Result E A → Type 0
Post Q (ok a) = Q a
Post Q (err e) = Unit

-- The action keeps `I`, whether it returns or fails, and what it returns is as `Q` says.
pub record Yields {S E A : Type 0} (I : S → Type 0) (Q : A → Type 0) (m : Action S E A)
    : Type 0 where
  pub at : (s : S) → I s → I (m s).1 × Post Q (m s).0

abbrev pub Keeps : {S E A : Type 0} → (S → Type 0) → Action S E A → Type 0
Keeps I m = Yields I (λ _. Unit {0}) m

pub Post-any : {E A : Type 0} (r : Result E A) → Post (λ _. Unit {0}) r
Post-any (ok a) = tt
Post-any (err e) = tt

map_err-at :
    {S E F A : Type 0} (I : S → Type 0) (Q : A → Type 0) (f : E → F) (x : Result E A × S)
    → I x.1 × Post Q x.0
    → I (map_err_result f x).1 × Post Q (map_err_result f x).0
map_err-at I Q f (ok a, s) h = h
map_err-at I Q f (err e, s) h = h

module _ {S E A : Type 0} {I : S → Type 0} where
  pub Yields-pure : {Q : A → Type 0} (a : A) → Q a → Yields {E = E} I Q (pure a)
  Yields-pure a q = record { at = λ s h. (h, q) }

  pub Yields-raise : {Q : A → Type 0} (e : E) → Yields {A = A} I Q (raise e)
  Yields-raise e = record { at = λ s h. (h, tt) }

  pub Keeps-pure : (a : A) → Keeps {E = E} I (pure a)
  Keeps-pure a = Yields-pure a tt

  pub Yields-lift : {Q : A → Type 0} (r : Result E A) → Post Q r → Yields I Q (lift r)
  Yields-lift r q = record { at = λ s h. (h, q) }

  pub Keeps-lift : (r : Result E A) → Keeps I (lift r)
  Keeps-lift r = record { at = λ s h. (h, Post-any r) }

  pub Keeps-gets : (f : S → A) → Keeps {E = E} I (gets f)
  Keeps-gets f = record { at = λ s h. (h, tt) }

  pub Yields-if :
      {Q : A → Type 0} (b : Bool) {m n : Action S E A}
      → Yields I Q m
      → Yields I Q n
      → Yields I Q (if b then m else n)
  Yields-if true km kn = km
  Yields-if false km kn = kn

  -- Past a check that raises, what it checked holds.
  pub Yields-checked :
      {Q : A → Type 0} (b : Bool) (e : E) {m : Action S E A}
      → (b ≡ true → Yields I Q m)
      → Yields I Q (if not b then raise e else m)
  Yields-checked true e k = k refl
  Yields-checked false e k = Yields-raise e

  pub Yields-attempt :
      {F : Type 0} {Q : A → Type 0} {m : Action S E A}
      → Yields I Q m
      → Yields {E = F} I (Post Q) (attempt m)
  unfolding attempt
  Yields-attempt k = record { at = λ s h. k.at s h }

  pub Yields-map_err :
      {F : Type 0} {Q : A → Type 0} (f : E → F) {m : Action S E A}
      → Yields I Q m
      → Yields I Q (map_err f m)
  Yields-map_err f {m} k = record { at = λ s h. map_err-at I _ f (m s) (k.at s h) }

module _ {S E A B : Type 0} {I : S → Type 0} {Q : A → Type 0} {R : B → Type 0} where
  bind-at :
      (f : A → Action S E B) (x : Result E A × S)
      → ((a : A) → Q a → Yields I R (f a))
      → I x.1 × Post Q x.0
      → I (and_then x f).1 × Post R (and_then x f).0
  bind-at f (ok a, s) kf h = (kf a h.1).at s h.0
  bind-at f (err e, s) kf h = (h.0, tt)

  pub Yields-bind :
      {m : Action S E A} {f : A → Action S E B}
      → Yields I Q m
      → ((a : A) → Q a → Yields I R (f a))
      → Yields I R (m >>= f)
  Yields-bind {m} {f} km kf = record { at = λ s h. bind-at f (m s) kf (km.at s h) }

module _ {S E A B : Type 0} {I : S → Type 0} {R : B → Type 0} where
  pub Keeps-bind :
      {m : Action S E A} {f : A → Action S E B}
      → Keeps I m
      → ((a : A) → Yields I R (f a))
      → Yields I R (m >>= f)
  Keeps-bind km kf = Yields-bind km (λ a _. kf a)

module _ {S E F A B : Type 0} {I : S → Type 0} {R : B → Type 0} where
  pub Yields-result :
      (f : Result F A → Action S E B)
      → ((e : F) → Yields I R (f (err e)))
      → ((a : A) → Yields I R (f (ok a)))
      → (r : Result F A) → Yields I R (f r)
  Yields-result f kg kf (err e) = kg e
  Yields-result f kg kf (ok a) = kf a

  -- A block that goes on from what an attempt came to.
  pub Keeps-bind_result :
      {m : Action S E (Result F A)} (f : Result F A → Action S E B)
      → Keeps I m
      → ((e : F) → Yields I R (f (err e)))
      → ((a : A) → Yields I R (f (ok a)))
      → Yields I R (m >>= f)
  Keeps-bind_result f km kg kf = Keeps-bind km (Yields-result f kg kf)

module _ {S E A B : Type 0} {I : S → Type 0} {R : B → Type 0} where
  pub Yields-option :
      (f : Option A → Action S E B)
      → Yields I R (f none)
      → ((a : A) → Yields I R (f (some a)))
      → (o : Option A) → Yields I R (f o)
  Yields-option f kn kf none = kn
  Yields-option f kn kf (some a) = kf a

  pub Keeps-bind_option :
      {m : Action S E (Option A)} (f : Option A → Action S E B)
      → Keeps I m
      → Yields I R (f none)
      → ((a : A) → Yields I R (f (some a)))
      → Yields I R (m >>= f)
  Keeps-bind_option f km kn kf = Keeps-bind km (Yields-option f kn kf)

module _ {S E A B C : Type 0} {I : S → Type 0} {R : B → Type 0} where
  pub Yields-bind_found :
      {Q : C → Type 0} {m : Action S E (Option A × C)} (f : Option A × C → Action S E B)
      → Yields I (λ p. Q p.1) m
      → ((c : C) → Q c → Yields I R (f (none, c)))
      → ((a : A) (c : C) → Q c → Yields I R (f (some a, c)))
      → Yields I R (m >>= f)
  Yields-bind_found {Q} f km kn kf =
      Yields-bind km
        (λ (o, c) q. elim o as (λ o. Yields I R (f (o, c))) [ none ↦ kn c q | some a ↦ kf a c q ])

  pub Keeps-bind_found :
      {m : Action S E (Option A × C)} (f : Option A × C → Action S E B)
      → Keeps I m
      → ((c : C) → Yields I R (f (none, c)))
      → ((a : A) (c : C) → Yields I R (f (some a, c)))
      → Yields I R (m >>= f)
  Keeps-bind_found f km kn kf = Yields-bind_found f km (λ c _. kn c) (λ a c _. kf a c)

module _ {S E F A B : Type 0} {I : S → Type 0} {Q : A → Type 0} {R : B → Type 0} where
  -- A block that goes on from a failure, or from a value as `Q` says.
  pub Yields-bind_attempt :
      {m : Action S F A} (f : Result F A → Action S E B)
      → Yields I Q m
      → ((e : F) → Yields I R (f (err e)))
      → ((a : A) → Q a → Yields I R (f (ok a)))
      → Yields I R (attempt m >>= f)
  Yields-bind_attempt {m} f km kg kf =
      Yields-bind (Yields-attempt km)
        (λ r. elim r as (λ r. Post Q r → Yields I R (f r)) [ err e ↦ λ h. kg e | ok a ↦ kf a ])

module _ {E A : Type 0} {Q R : A → Type 0} where
  Post_mono : ((a : A) → Q a → R a) → (r : Result E A) → Post Q r → Post R r
  Post_mono f (ok a) h = f a h
  Post_mono f (err e) h = tt

module _ {S E A : Type 0} {I : S → Type 0} {Q R : A → Type 0} where
  pub Yields-mono : {m : Action S E A} → ((a : A) → Q a → R a) → Yields I Q m → Yields I R m
  Yields-mono {m} f k = record { at = λ s h. ((k.at s h).0, Post_mono f (m s).0 (k.at s h).1) }

module _ {S E A : Type 0} {I : S → Type 0} {Q : A → Type 0} {m : Action S E A} where
  pub Keeps-of_Yields : Yields I Q m → Keeps I m
  Keeps-of_Yields k = record { at = λ s h. ((k.at s h).0, Post-any (m s).0) }

  pub Keeps-attempt : {F : Type 0} → Yields I Q m → Keeps {E = F} I (attempt m)
  unfolding attempt
  Keeps-attempt k = record { at = λ s h. ((k.at s h).0, tt) }

module _ {os : Os} {E A : Type 0} where
  pub Keeps-anything : (m : Action (State os) E A) → Keeps (λ s. Unit {0}) m
  Keeps-anything m = record { at = λ s h. (tt, Post-any (m s).0) }

-- An invariant of the world alone.
abbrev pub OnWorld : {os : Os} → (os.World → Type 0) → State os → Type 0
OnWorld I s = I s.world

module _ {os : Os} {E A : Type 0} (I : os.World → Type 0) where
  pub Keeps-on_world :
      (m : Action os.World E A)
      → ((w : os.World) → I w → I (m w).1)
      → Keeps (OnWorld {os = os} I) (on_world {os = os} m)
  Keeps-on_world m k = record { at = λ s h. (k s.world h, Post-any (m s.world).0) }

module _ {os : Os} {E A : Type 0} (I : os.World → Type 0) (Q : A → Type 0) where
  pub Yields-on_world :
      (m : Action os.World E A)
      → ((w : os.World) → I w → I (m w).1 × Post Q (m w).0)
      → Yields (OnWorld {os = os} I) Q (on_world {os = os} m)
  Yields-on_world m k = record { at = λ s h. k s.world h }

module _ {os : Os} (I : os.World → Type 0) where
  -- The caches are no part of the world.
  pub Keeps-modify :
      (f : State os → State os)
      → ((s : State os) → (f s).world ≡ s.world)
      → Keeps {E = IoError} (OnWorld {os = os} I) (modify f)
  Keeps-modify f same = record { at = λ s h. (rw same h, tt) }

module _ {S A : Type 0} {I : S → Type 0} where
  -- What is not there is an answer, and any other failure stays one.
  pub Keeps-not_found :
      (e : IoError) (a : A)
      → Keeps {E = IoError} I
          (elim (kind e) as (λ _. Action S IoError A) [ not_found ↦ pure a | _ ↦ raise e ])
  Keeps-not_found e a =
      elim (kind e)
        as (λ k.
          Keeps {E = IoError} I
            (elim k as (λ _. Action S IoError A) [ not_found ↦ pure a | _ ↦ raise e ])) [
              | not_found ↦ Keeps-pure a
              | _ ↦ Yields-raise e
            ]

pub ruleset keeps_rules = (
  Keeps-pure, Yields-raise, Keeps-lift, Yields-if, Keeps-bind, Keeps-attempt, Keeps-on_world,
  Yields-map_err, Keeps-bind_result, Keeps-bind_option,
)
