-- ===== src/Kernel/Walk/Group.antt =====
-- The tallies of `extent_batch` in src/kernel.rs: one for each address, if items come in the order of
-- their addresses.
use btrealloc.Prelude.{
  ℕ, ◌<◌, ◌≡◌, refl, sym, ap, ◌∙◌, false, Option, none, some, List, [], ◌∷◌, ◌++◌, arith, ◌==◌,
  ==→≡, ==_refl, All, All-mono, Bool-cases, inl, inr,
}
use mathlib.Core.List.{append_assoc, append-nil}
use btrealloc.Abi.{Abi, Header, Bytes}
use btrealloc.Kernel.Search.Items.{Item}
use btrealloc.Kernel.Tally.{Tally, no_tally, add_item, finish}
use btrealloc.Kernel.Walk.{
  Tallies, push_item, pop_address, to_unresolved, cons_some, batch_of, Unresolved,
}

abbrev pub address : Item → ℕ
address i = i.header.objectid

-- Every tally is of an address below this one.
abbrev pub Below : ℕ → Tallies → Type 0
Below a ts = All (λ p. p.0 < a) ts

module _ (abi : Abi) where
  abbrev pub add_to : Tally → Item → Tally
  add_to t i = add_item abi t i.header.key_type i.header.offset i.body

  -- Items added to one tally.
  abbrev pub add_items : Tally → List Item → Tally
  add_items t [] = t
  add_items t (i ∷ is) = add_items (add_to t i) is

  abbrev pub push_all : Tallies → List Item → Tallies
  push_all ts [] = ts
  push_all ts (i ∷ is) = push_all (push_item abi i.header i.body ts) is

  pub push_all-append :
      (ts : Tallies) (xs ys : List Item) → push_all ts (xs ++ ys) ≡ push_all (push_all ts xs) ys
  push_all-append ts [] ys = refl
  push_all-append ts (x ∷ xs) ys = push_all-append (push_item abi x.header x.body ts) xs ys

  push_item-last :
      (h : Header) (body : Bytes) (ts : Tallies) (x : ℕ × Tally)
      → push_item abi h body (ts ++ x ∷ []) ≡ ts ++ push_item abi h body (x ∷ [])
  unfolding push_item
  push_item-last h body [] x = refl
  push_item-last h body (y ∷ []) x = refl
  push_item-last h body (y ∷ z ∷ ts) x = ap (◌∷◌ y) (push_item-last h body (z ∷ ts) x)

  push_item-same :
      (i : Item) (a : ℕ) (t : Tally)
      → a ≡ address i
      → push_item abi i.header i.body ((a, t) ∷ []) ≡ (a, add_to t i) ∷ []
  unfolding push_item
  push_item-same i a t e = rw e (rw (==_refl (address i)) refl)

  push_item-other :
      (i : Item) (a : ℕ) (t : Tally)
      → (a == address i) ≡ false
      → push_item abi i.header i.body ((a, t) ∷ []) ≡ (a, t) ∷ (address i, add_to no_tally i) ∷ []
  unfolding push_item
  push_item-other i a t e = rw e refl

  -- Only the last tally is looked at.
  push_all-last :
      (ts : Tallies) (x : ℕ × Tally) (is : List Item)
      → push_all (ts ++ x ∷ []) is ≡ ts ++ push_all (x ∷ []) is
  push_all-last ts x [] = refl
  push_all-last ts (a, t) (i ∷ is) =
      rw (push_item-last i.header i.body ts (a, t)) (elim (Bool-cases (a == address i)) [
        | inl e ↦
            rw (push_item-same i a t (==→≡ a (address i) e)) (push_all-last ts (a, add_to t i) is)
        | inr e ↦
            let new : ℕ × Tally = (address i, add_to no_tally i) in
            rw (push_item-other i a t e) (
              ap (λ ts. push_all ts is) (sym (append_assoc ts ((a, t) ∷ []) (new ∷ [])))
              ∙ push_all-last (ts ++ (a, t) ∷ []) new is
              ∙ append_assoc ts ((a, t) ∷ []) (push_all (new ∷ []) is)
              ∙ ap (λ us. ts ++ us) (sym (push_all-last ((a, t) ∷ []) new is)))
      ])

  push_item-fresh :
      (i : Item) (ts : Tallies)
      → Below (address i) ts
      → push_item abi i.header i.body ts ≡ ts ++ (address i, add_to no_tally i) ∷ []
  unfolding push_item
  push_item-fresh i [] b = refl
  push_item-fresh i ((a, t) ∷ []) b = push_item-other i a t (ground arith)
  push_item-fresh i (x ∷ y ∷ ts) b = ap (◌∷◌ x) (push_item-fresh i (y ∷ ts) b.1)

  -- Items of addresses that have no tally yet are tallied on their own.
  pub push_all-fresh :
      (ts : Tallies) (is : List Item)
      → All (λ i. Below (address i) ts) is
      → push_all ts is ≡ ts ++ push_all [] is
  unfolding push_item
  push_all-fresh ts [] b = sym (append-nil ts)
  push_all-fresh ts (i ∷ is) b =
      rw (push_item-fresh i ts b.0) (push_all-last ts (address i, add_to no_tally i) is)

  push_item-Below :
      (n : ℕ) (i : Item) (ts : Tallies)
      → address i < n
      → Below n ts
      → Below n (push_item abi i.header i.body ts)
  unfolding push_item
  push_item-Below n i [] h b = (h, tt)
  push_item-Below n i ((a, t) ∷ []) h b = elim (Bool-cases (a == address i)) [
    | inl e ↦ rw e b
    | inr e ↦ rw e (b.0, (h, tt))
  ]
  push_item-Below n i (x ∷ y ∷ ts) h b = (b.0, push_item-Below n i (y ∷ ts) h b.1)

  pub push_all-Below :
      (n : ℕ) (ts : Tallies) (is : List Item)
      → All (λ i. address i < n) is
      → Below n ts
      → Below n (push_all ts is)
  push_all-Below n ts [] h b = b
  push_all-Below n ts (i ∷ is) h b =
      push_all-Below n (push_item abi i.header i.body ts) is h.1 (push_item-Below n i ts h.0 b)

  push_all-one :
      (a : ℕ) (t : Tally) (is : List Item)
      → All (λ i. address i ≡ a) is
      → push_all ((a, t) ∷ []) is ≡ (a, add_items t is) ∷ []
  push_all-one a t [] h = refl
  push_all-one a t (i ∷ is) h =
      rw (push_item-same i a t (sym h.0)) (push_all-one a (add_to t i) is h.1)

  push_all-from_none :
      (a : ℕ) (i : Item) (is : List Item)
      → address i ≡ a
      → All (λ j. address j ≡ a) is
      → push_all [] (i ∷ is) ≡ (a, add_items no_tally (i ∷ is)) ∷ []
  unfolding push_item
  push_all-from_none a i is e h = rw e (push_all-one a (add_to no_tally i) is h)

pub batch_of-append :
    (g : ℕ) (ts us : Tallies) → batch_of g (ts ++ us) ≡ batch_of g ts ++ batch_of g us
unfolding batch_of
batch_of-append g [] us = refl
batch_of-append g ((a, t) ∷ ts) us =
    ap (cons_some (to_unresolved g a t)) (batch_of-append g ts us) ∙ go (to_unresolved g a t)
  where
    go :
        (o : Option Unresolved)
        → cons_some o (batch_of g ts ++ batch_of g us)
          ≡ cons_some o (batch_of g ts) ++ batch_of g us
    go none = refl
    go (some u) = refl

-- What a batch makes of the items of one address is what it makes of their tally, also where there
-- is none.
pub batch_of-one :
    (abi : Abi) (g a : ℕ) (is : List Item)
    → All (λ i. address i ≡ a) is
    → batch_of g (push_all abi [] is) ≡ batch_of g ((a, add_items abi no_tally is) ∷ [])
unfolding batch_of to_unresolved finish
batch_of-one abi g a [] h = refl
batch_of-one abi g a (i ∷ is) h = ap (batch_of g) (push_all-from_none abi a i is h.0 h.1)

pop_address-last : (a : ℕ) (ts : Tallies) (t : Tally) → pop_address a (ts ++ (a, t) ∷ []) ≡ ts
unfolding pop_address
pop_address-last a [] t = rw (==_refl a) refl
pop_address-last a (x ∷ []) t = rw (==_refl a) refl
pop_address-last a (x ∷ y ∷ ts) t = ap (◌∷◌ x) (pop_address-last a (y ∷ ts) t)

pop_address-Below : (a : ℕ) (ts : Tallies) → Below a ts → pop_address a ts ≡ ts
unfolding pop_address
pop_address-Below a [] b = refl
pop_address-Below a ((x, t) ∷ []) b = let ne : (x == a) ≡ false = ground arith in rw ne refl
pop_address-Below a (x ∷ y ∷ ts) b = ap (◌∷◌ x) (pop_address-Below a (y ∷ ts) b.1)

-- Popping the tally of an address leaves those of the items before it.
pub pop_address-push_all :
    (abi : Abi) (a : ℕ) (before here : List Item)
    → All (λ i. address i < a) before
    → All (λ i. address i ≡ a) here
    → pop_address a (push_all abi [] (before ++ here)) ≡ push_all abi [] before
pop_address-push_all abi a before [] b h =
    let below = push_all-Below abi a [] before b tt in
    rw (append-nil before) (pop_address-Below a (push_all abi [] before) below)
pop_address-push_all abi a before (i ∷ is) b h =
    let below = push_all-Below abi a [] before b tt in
    let ts = push_all abi [] before in
    rw (push_all-append abi [] before (i ∷ is)) (
      ap (pop_address a) (
        push_all-fresh abi ts (i ∷ is) (All-mono (λ j e. rw e below) (i ∷ is) h)
        ∙ ap (λ us. ts ++ us) (push_all-from_none abi a i is h.0 h.1))
      ∙ pop_address-last a ts (add_items abi no_tally (i ∷ is)))
