-- ===== src/Kernel/Search/Resume.antt =====
-- Where `SearchArgs::search_all` of src/kernel.rs carries on: no key is skipped, and none is met twice.
use mathlib.Core.Path.{subst}
use btrealloc.Prelude.{
  inl, inr, Bool-cases, All-and, sym, All-mono, ◌≤◌, ◌≡◌, refl, ap, ◌∙◌, Bool, true, false, ◌&&◌,
  ◌||◌, none, some, List, [], ◌∷◌, ◌++◌, arith, All, length, ltb, leb, ◌==◌, if◌then◌else◌, u64_max,
}
use btrealloc.Abi.{Header}
use btrealloc.Kernel.Search.{Key, SearchKey, next_min, u8_max}
use btrealloc.Kernel.Search.Items.{Item, last_header}

-- Keys in the order of their tuples.
abbrev pub key_lt : Key → Key → Bool
key_lt a b =
    ltb a.objectid b.objectid
    || (a.objectid == b.objectid
        && (ltb a.key_type b.key_type || (a.key_type == b.key_type && ltb a.offset b.offset)))

abbrev pub key_le : Key → Key → Bool
key_le a b =
    ltb a.objectid b.objectid
    || (a.objectid == b.objectid
        && (ltb a.key_type b.key_type || (a.key_type == b.key_type && leb a.offset b.offset)))

abbrev pub key_of : Header → Key
key_of h = record { objectid = h.objectid; key_type = h.key_type; offset = h.offset }

-- The fields of a key, as the kernel stores them: a byte for the type, 64 bits for the others.
abbrev pub IsKey : Key → Type 0
IsKey k = (k.objectid ≤ u64_max) × (k.key_type ≤ u8_max) × (k.offset ≤ u64_max)

-- Where `search_all` carries on after an item, the keys from there on are exactly those behind the
-- item's own: nothing is skipped or met twice. Both keys are such as the kernel stores: a byte for
-- the type, and 64 bits for the others.
pub next_min-exact :
    (last : Header) (k m : Key)
    → IsKey (key_of last)
    → IsKey k
    → next_min last ≡ some m
    → key_le m k ≡ key_lt (key_of last) k
unfolding next_min
next_min-exact last k m a b e = ground arith

pub next_min-none :
    (last : Header) (k : Key)
    → IsKey (key_of last)
    → IsKey k
    → next_min last ≡ none
    → key_lt (key_of last) k ≡ false
unfolding next_min
next_min-none last k a b e = ground arith

-- The items of a tree that pass a test, in order.
module _ (p : Item → Bool) where
  abbrev pub keep : List Item → List Item
  keep [] = []
  keep (i ∷ is) = if p i then i ∷ keep is else keep is

-- What a search is to find.
abbrev pub in_range : SearchKey → Item → Bool
in_range sk i = key_le sk.min_key (key_of i.header) && key_le (key_of i.header) sk.max_key

abbrev pub select : SearchKey → List Item → List Item
select sk tree = keep (in_range sk) tree

abbrev pub IsOrdered : List Item → Type 0
IsOrdered [] = Unit
IsOrdered (i ∷ is) = All (λ j. key_lt (key_of i.header) (key_of j.header) ≡ true) is × IsOrdered is

-- The items of a tree: keys in order, each once.
pub record IsTree (items : List Item) : Type 0 where
  pub ordered : IsOrdered items
  pub keys : All (λ i. IsKey (key_of i.header)) items

pub keep-All : (P : Item → Type 0) (p : Item → Bool) (is : List Item) → All P is → All P (keep p is)
keep-All P p [] a = tt
keep-All P p (i ∷ is) a = elim (Bool-cases (p i)) [
  | inl e ↦ rw e (a.0, keep-All P p is a.1)
  | inr e ↦ rw e (keep-All P p is a.1)
]

pub keep-true : (p : Item → Bool) (is : List Item) → All (λ i. p i ≡ true) (keep p is)
keep-true p [] = tt
keep-true p (i ∷ is) = elim (Bool-cases (p i)) [
  | inl e ↦ rw e (e, keep-true p is)
  | inr e ↦ rw e (keep-true p is)
]

pub keep-eq_self : (p : Item → Bool) (is : List Item) → All (λ i. p i ≡ true) is → keep p is ≡ is
keep-eq_self p [] a = refl
keep-eq_self p (i ∷ is) a = rw a.0 (ap (◌∷◌ i) (keep-eq_self p is a.1))

pub keep-none : (p : Item → Bool) (is : List Item) → All (λ i. p i ≡ false) is → keep p is ≡ []
keep-none p [] a = refl
keep-none p (i ∷ is) a = rw a.0 (keep-none p is a.1)

pub keep-keep :
    (p q r : Item → Bool) (is : List Item)
    → All (λ i. q i ≡ (p i && r i)) is
    → keep q is ≡ keep p (keep r is)
keep-keep p q r [] a = refl
keep-keep p q r (i ∷ is) a = ground (arith, keep-keep p q r is a.1)

pub keep-IsOrdered : (p : Item → Bool) (is : List Item) → IsOrdered is → IsOrdered (keep p is)
keep-IsOrdered p [] o = tt
keep-IsOrdered p (i ∷ is) o = elim (Bool-cases (p i)) [
  | inl e ↦ rw e (
    keep-All (λ j. key_lt (key_of i.header) (key_of j.header) ≡ true) p is o.0,
    keep-IsOrdered p is o.1,
  )
  | inr e ↦ rw e (keep-IsOrdered p is o.1)
]

pub length-keep : (p : Item → Bool) (is : List Item) → length (keep p is) ≤ length is
length-keep p [] = omega arith
length-keep p (i ∷ is) = let rest = length-keep p is in ground arith

module _ (P : Header → Type 0) where
  pub last_header-All :
      (g : Item) (got rest : List Item) (h : Header)
      → P g.header
      → All (λ j. P j.header) (got ++ rest)
      → last_header (some g.header) got ≡ some h
      → P h
  last_header-All g [] rest h p a e = subst P (cc) p
  last_header-All g (k ∷ got) rest h p a e = last_header-All k got rest h a.0 a.1 e

key_lt_irrefl : (a : Key) → key_lt a a ≡ false
key_lt_irrefl a = ground arith

key_lt-asymm : (a b : Key) → key_lt a b ≡ true → key_lt b a ≡ false
key_lt-asymm a b e = ground arith

abbrev after : Header → Item → Bool
after h i = key_lt (key_of h) (key_of i.header)

-- Of items in order, those behind the last of the first few are the rest.
keep-after :
    (g : Item) (got rest : List Item) (h : Header)
    → IsOrdered (g ∷ (got ++ rest))
    → last_header (some g.header) got ≡ some h
    → keep (after h) (g ∷ (got ++ rest)) ≡ rest
keep-after g [] rest h o e =
    let same : g.header ≡ h = cc in
    let self : after h g ≡ false =
      subst (λ x. key_lt (key_of x) (key_of g.header) ≡ false) same
        (key_lt_irrefl (key_of g.header)) in
    rw self (keep-eq_self (after h) rest (subst (λ x. All (λ j. after x j ≡ true) rest) same o.0))
keep-after g (k ∷ got) rest h o e =
    let lt : key_lt (key_of g.header) (key_of h) ≡ true =
      last_header-All (λ x. key_lt (key_of g.header) (key_of x) ≡ true) k got rest h o.0.0 o.0.1
        e in
    rw (key_lt-asymm (key_of g.header) (key_of h) lt) (keep-after k got rest h o.1 e)

in_range-resume :
    (sk : SearchKey) (h : Header) (m : Key) (i : Item)
    → IsKey (key_of h)
    → IsKey (key_of i.header)
    → key_le sk.min_key (key_of h) ≡ true
    → next_min h ≡ some m
    → in_range (record sk { min_key = m }) i ≡ (after h i && in_range sk i)
in_range-resume sk h m i a b c e = rw (next_min-exact h (key_of i.header) m a b e) (ground arith)

module _ (sk : SearchKey) (tree : List Item) (t : IsTree tree) (g : Item) (got rest : List Item)
    (h : Header) (split : select sk tree ≡ g ∷ (got ++ rest))
    (ends : last_header (some g.header) got ≡ some h) where
  selected : All (λ i. (in_range sk i ≡ true) × IsKey (key_of i.header)) (g ∷ (got ++ rest))
  selected = subst (All (λ i. (in_range sk i ≡ true) × IsKey (key_of i.header))) split (
      All-and (λ i. in_range sk i ≡ true) (λ i. IsKey (key_of i.header)) (select sk tree)
        (keep-true (in_range sk) tree)
        (keep-All (λ i. IsKey (key_of i.header)) (in_range sk) tree t.keys))

  in_order : IsOrdered (g ∷ (got ++ rest))
  in_order = subst IsOrdered split (keep-IsOrdered (in_range sk) tree t.ordered)

  last_facts : (key_le sk.min_key (key_of h) ≡ true) × IsKey (key_of h)
  last_facts =
      last_header-All (λ x. (key_le sk.min_key (key_of x) ≡ true) × IsKey (key_of x)) g got rest h
        (start g selected.0) (All-mono start (got ++ rest) selected.1) ends
    where
      start :
          (i : Item)
          → (in_range sk i ≡ true) × IsKey (key_of i.header)
          → (key_le sk.min_key (key_of i.header) ≡ true) × IsKey (key_of i.header)
      start i p = (ground arith, p.1)

  -- The search that carries on behind the last item finds what was left.
  pub select-resume :
      (m : Key) → next_min h ≡ some m → select (record sk { min_key = m }) tree ≡ rest
  select-resume m e =
      keep-keep (after h) (in_range (record sk { min_key = m })) (in_range sk) tree
        (All-mono (λ i k. in_range-resume sk h m i last_facts.1 k last_facts.0 e) tree t.keys)
      ∙ (rw split (keep-after g got rest h in_order ends))

  -- Behind the last of all keys there is nothing.
  pub select-end : next_min h ≡ none → rest ≡ []
  select-end e =
      sym (keep-after g got rest h in_order ends)
      ∙ keep-none (after h) (g ∷ (got ++ rest)) (
          All-mono (λ i p. next_min-none h (key_of i.header) last_facts.1 p.1 e) (g ∷ (got ++ rest))
            selected)
