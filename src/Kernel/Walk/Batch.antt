-- ===== src/Kernel/Walk/Batch.antt =====
-- The items of the extent tree in the parts that `extent_batch` of src/kernel.rs reads them in.
use mathlib.Core.Path.{subst}
use mathlib.Core.List.{append_assoc, append-nil}
use btrealloc.Prelude.{
  ℕ, suc, ◌≤◌, ◌<◌, ◌≡◌, refl, sym, ap, ◌∙◌, Bool, true, false, ◌&&◌, Option, none, some, List, [],
  ◌∷◌, ◌++◌, arith, ltb→lt, ==→≡, ltb, leb, ◌==◌, All, All-append, All-mono, Bool-cases, inl, inr,
}
use btrealloc.Abi.{Abi, Header}
use btrealloc.Kernel.Search.Items.{Item, last_header}
use btrealloc.Kernel.Search.Whole.{All-append_left}
use btrealloc.Kernel.Search.Resume.{keep, IsOrdered, keep-eq_self, keep-none, keep-true}
use btrealloc.Kernel.Tally.{no_tally, is_extent_key}
use btrealloc.Kernel.Walk.{Unresolved, batch_of, pop_address}
use btrealloc.Kernel.Walk.Group.{
  address, push_all, add_items, push_all-append, push_all-fresh, push_all-Below, batch_of-append,
  batch_of-one, pop_address-push_all,
}

pub keep-append : (p : Item → Bool) (xs ys : List Item) → keep p (xs ++ ys) ≡ keep p xs ++ keep p ys
keep-append p [] ys = refl
keep-append p (x ∷ xs) ys = elim (Bool-cases (p x)) [
  | inl e ↦ rw e (ap (◌∷◌ x) (keep-append p xs ys))
  | inr e ↦ rw e (keep-append p xs ys)
]

pub keep-ext :
    (p q : Item → Bool) (is : List Item) → All (λ i. p i ≡ q i) is → keep p is ≡ keep q is
keep-ext p q [] h = refl
keep-ext p q (i ∷ is) h = rw h.0 (ground (arith, keep-ext p q is h.1))

-- Items in the order of their addresses.
abbrev pub Rising : List Item → Type 0
Rising [] = Unit
Rising (i ∷ is) = All (λ j. address i ≤ address j) is × Rising is

pub Rising-of_IsOrdered : (is : List Item) → IsOrdered is → Rising is
Rising-of_IsOrdered [] o = tt
Rising-of_IsOrdered (i ∷ is) o = (All-mono (λ j e. ground arith) is o.0, Rising-of_IsOrdered is o.1)

abbrev pub before : ℕ → Item → Bool
before a i = ltb (address i) a

abbrev pub at : ℕ → Item → Bool
at a i = address i == a

abbrev pub behind : ℕ → Item → Bool
behind a i = ltb a (address i)

-- Items in order fall into those before an address, those at it and those behind it.
split-at :
    (a : ℕ) (is : List Item)
    → Rising is
    → is ≡ keep (before a) is ++ (keep (at a) is ++ keep (behind a) is)
split-at a [] r = refl
split-at a (i ∷ is) r = elim (Bool-cases (before a i)) [
  | inl b ↦
      let n : at a i ≡ false = ground arith in
      let m : behind a i ≡ false = ground arith in rw (b, n, m) (ap (◌∷◌ i) (split-at a is r.1))
  | inr b ↦
      let none_before : keep (before a) is ≡ [] =
        keep-none (before a) is (All-mono (λ j le. ground arith) is r.0) in
      elim (Bool-cases (at a i)) [
        | inl e ↦
            let m : behind a i ≡ false = ground arith in
            rw (b, e, m, none_before) (ap (◌∷◌ i) (split-at a is r.1 ∙ rw none_before refl))
        | inr e ↦
            let m : behind a i ≡ true = ground arith in
            let none_at : keep (at a) is ≡ [] =
              keep-none (at a) is (All-mono (λ j le. ground arith) is r.0) in
            let all : keep (behind a) is ≡ is =
              keep-eq_self (behind a) is (All-mono (λ j le. ground arith) is r.0) in
            rw (b, e, m, none_before, none_at, all) refl
      ]
]

-- The last of the first few items parts them from the others.
pub last-parts :
    (g : Item) (got rest : List Item) (h : Header)
    → Rising (g ∷ (got ++ rest))
    → last_header (some g.header) got ≡ some h
    → All (λ i. address i ≤ h.objectid) (g ∷ got) × All (λ i. h.objectid ≤ address i) rest
last-parts g [] rest h r e =
    let same : g.header ≡ h = cc in
    (
      (omega (arith, ap (λ x. x.objectid) same), tt),
      All-mono (λ j le. omega (arith, ap (λ x. x.objectid) same)) rest r.0,
    )
last-parts g (k ∷ got) rest h r e =
    let (le, ge) = last-parts k got rest h r.1 e in ((omega arith, le), ge)

-- The items of a tree that are of extents from an address on.
abbrev pub is_data : Abi → Item → Bool
is_data abi i = is_extent_key abi i.header.key_type

abbrev pub from_address : Abi → ℕ → Item → Bool
from_address abi from i = leb from (address i) && is_data abi i

-- The extents of the tree from an address on, as many as there are.
abbrev pub extents_from : Abi → List Item → ℕ → ℕ → List Unresolved
extents_from abi tree generation from =
    batch_of generation (push_all abi [] (keep (from_address abi from) tree))

-- Those from where the next batch starts.
abbrev pub extents_after : Abi → List Item → ℕ → Option ℕ → List Unresolved
extents_after abi tree generation none = []
extents_after abi tree generation (some from) = extents_from abi tree generation from

Rising-prefix : (xs ys : List Item) → Rising (xs ++ ys) → Rising xs
Rising-prefix [] ys r = tt
Rising-prefix (x ∷ xs) ys r =
    (All-append_left (λ j. address x ≤ address j) xs ys r.0, Rising-prefix xs ys r.1)

keep-before : (a : ℕ) (is : List Item) → All (λ i. address i < a) (keep (before a) is)
keep-before a is =
    All-mono (λ i e. ltb→lt (address i) a e) (keep (before a) is) (keep-true (before a) is)

keep-at : (a : ℕ) (is : List Item) → All (λ i. address i ≡ a) (keep (at a) is)
keep-at a is = All-mono (λ i e. ==→≡ (address i) a e) (keep (at a) is) (keep-true (at a) is)

keep-behind : (a : ℕ) (is : List Item) → All (λ i. a < address i) (keep (behind a) is)
keep-behind a is =
    All-mono (λ i e. ltb→lt a (address i) e) (keep (behind a) is) (keep-true (behind a) is)

-- Items in two parts that an address separates are tallied part by part.
push_all-parts :
    (abi : Abi) (a : ℕ) (xs ys : List Item)
    → All (λ i. address i < a) xs
    → All (λ i. a ≤ address i) ys
    → push_all abi [] (xs ++ ys) ≡ push_all abi [] xs ++ push_all abi [] ys
push_all-parts abi a xs ys b h =
    let below = push_all-Below abi a [] xs b tt in
    push_all-append abi [] xs ys
    ∙ push_all-fresh abi (push_all abi [] xs) ys
        (All-mono (λ j le. All-mono (λ p lt. omega arith) (push_all abi [] xs) below) ys h)

module _ (abi : Abi) (o : ℕ) (all got rest : List Item) (parts : all ≡ got ++ rest)
    (rising : Rising all) (le : All (λ i. address i ≤ o) got)
    (ge : All (λ i. o ≤ address i) rest) where
  got-before : keep (before o) got ≡ keep (before o) all
  got-before =
      sym (append-nil (keep (before o) got))
      ∙ ap (λ r. keep (before o) got ++ r)
          (sym (keep-none (before o) rest (All-mono (λ i h. ground arith) rest ge)))
      ∙ sym (keep-append (before o) got rest)
      ∙ ap (keep (before o)) (sym parts)

  got-split : got ≡ keep (before o) all ++ keep (at o) got
  got-split =
      split-at o got (Rising-prefix got rest (subst Rising parts rising))
      ∙ rw
          (
            got-before,
            keep-none (behind o) got (All-mono (λ i h. ground arith) got le),
            append-nil (keep (at o) got),
          )
          refl

  -- The tallies of the first few items, with that of the last address made whole, and those of what
  -- stands behind it, make up all there are.
  pub batch_of-parts :
      (g : ℕ)
      → batch_of g (push_all abi [] all)
        ≡ batch_of g (
            pop_address o (push_all abi [] got)
            ++ (o, add_items abi no_tally (keep (at o) all)) ∷ [])
          ++ batch_of g (push_all abi [] (keep (behind o) all))
  batch_of-parts g =
      let b = keep (before o) all in
      let a = keep (at o) all in
      let h = keep (behind o) all in
      let popped : pop_address o (push_all abi [] got) ≡ push_all abi [] b =
        ap (λ is. pop_address o (push_all abi [] is)) got-split
        ∙ pop_address-push_all abi o b (keep (at o) got) (keep-before o all) (keep-at o got) in
      let at_least : All (λ i. o ≤ address i) (a ++ h) =
        All-append (λ i. o ≤ address i) a h (All-mono (λ i e. omega arith) a (keep-at o all))
          (All-mono (λ i e. omega arith) h (keep-behind o all)) in
      ap (λ is. batch_of g (push_all abi [] is)) (split-at o all rising)
      ∙ ap (batch_of g) (push_all-parts abi o b (a ++ h) (keep-before o all) at_least)
      ∙ batch_of-append g (push_all abi [] b) (push_all abi [] (a ++ h))
      ∙ ap (λ us. batch_of g (push_all abi [] b) ++ us)
          (ap (batch_of g) (
              push_all-parts abi (suc o) a h (All-mono (λ i e. omega arith) a (keep-at o all))
                (All-mono (λ i e. omega arith) h (keep-behind o all)))
            ∙ batch_of-append g (push_all abi [] a) (push_all abi [] h)
            ∙ ap (λ us. us ++ batch_of g (push_all abi [] h))
                (batch_of-one abi g o a (keep-at o all)))
      ∙ sym (
          append_assoc (batch_of g (push_all abi [] b))
            (batch_of g ((o, add_items abi no_tally a) ∷ [])) (batch_of g (push_all abi [] h)))
      ∙ ap (λ us. us ++ batch_of g (push_all abi [] h))
          (sym (batch_of-append g (push_all abi [] b) ((o, add_items abi no_tally a) ∷ []))
            ∙ rw popped refl)
