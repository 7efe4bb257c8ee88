-- ===== src/Kernel/Search/Whole.antt =====
-- `SearchArgs::search_all` of src/kernel.rs hands over every item of its range once, in order,
-- however many calls of the kernel that takes.
use mathlib.Core.Path.{subst}
use btrealloc.Prelude.{
  leb→le, All-mono, ℕ, zero, suc, ◌+◌, ◌-◌, ◌≤◌, ◌<◌, ◌≡◌, refl, sym, ap, ◌∙◌, true, none, some,
  List, [], ◌∷◌, ◌++◌, arith, All, length, length-append, Option-cases, Bool-cases, inl, inr,
}
use btrealloc.Io.{Result, ok, err, IoError, Action, and_then, pure}
use btrealloc.Abi.{Abi, Header, Bytes, IsLayout}
use btrealloc.Kernel.Search.{
  Key, SearchKey, Found, Read, and_also, items, complete, next_min, resume, search_all, buf_size,
  max_item_size,
}
use btrealloc.Kernel.Search.Items.{
  Item, StatesLength, encode, fold_items, last_header, items-encode, and_also-cong, and_also_assoc,
  done,
}
use btrealloc.Kernel.Search.Resume.{IsTree, select, in_range, keep-All, select-resume, select-end}

-- What `BTRFS_IOC_TREE_SEARCH_V2` is documented to leave: the first items of the range, as many as
-- fit. It stops short of the end only where the next item does not fit, and finds at least one
-- item where there is one.
pub record Answers (abi : Abi) (tree : List Item) (sk : SearchKey) (found : Found) : Type 0 where
  pub got : List Item
  pub rest : List Item
  pub pad : Bytes
  pub split : select sk tree ≡ got ++ rest
  pub count : found.nr_items ≡ length got
  pub laid : found.buf ≡ encode abi got ++ pad
  pub some_got : got ≡ [] → rest ≡ []
  pub full :
      (i : Item) (is : List Item)
      → rest ≡ i ∷ is
      → buf_size < length (encode abi got) + abi.header.size + length i.body

-- No item of a tree is larger than a node.
abbrev pub IsSmall : Item → Type 0
IsSmall i = StatesLength i × (length i.body ≤ max_item_size)

fold_items-append :
    {S : Type 0} (each : Header → Bytes → S → Result IoError S) (xs ys : List Item) (s : S)
    → fold_items each (xs ++ ys) s ≡ and_also (fold_items each xs s) (fold_items each ys)
unfolding fold_items
fold_items-append each [] ys s = refl
fold_items-append each (x ∷ xs) ys s =
    and_also-cong (each x.header x.body s) _ _ (λ t. fold_items-append each xs ys t)
    ∙ sym (and_also_assoc (each x.header x.body s) (fold_items each xs) (fold_items each ys))

module _ (P : Item → Type 0) where
  pub All-append_left : (xs ys : List Item) → All P (xs ++ ys) → All P xs
  All-append_left [] ys a = tt
  All-append_left (x ∷ xs) ys a = (a.0, All-append_left xs ys a.1)

  pub All-append_right : (xs ys : List Item) → All P (xs ++ ys) → All P ys
  All-append_right [] ys a = a
  All-append_right (x ∷ xs) ys a = All-append_right xs ys a.1

pub last_header-some :
    (h : Header) (is : List Item) → (k : Header) × (last_header (some h) is ≡ some k)
last_header-some h [] = (h, refl)
last_header-some h (i ∷ is) = last_header-some i.header is

module _ (abi : Abi) (tree : List Item) (small : All IsSmall tree) (sk : SearchKey) (found : Found)
    (a : Answers abi tree sk found) where
  All-IsSmall : All IsSmall (a.got ++ a.rest)
  All-IsSmall = subst (All IsSmall) a.split (keep-All IsSmall (in_range sk) tree small)

  pub got-StatesLength : All StatesLength a.got
  got-StatesLength = All-mono (λ i p. p.0) a.got (All-append_left IsSmall a.got a.rest All-IsSmall)

  -- Room for the largest item means that nothing was left out.
  pub complete-rest :
      {S : Type 0} (r : Read S)
      → r.pos ≡ length (encode abi a.got)
      → complete abi r ≡ true
      → a.rest ≡ []
  unfolding complete
  complete-rest r p c = go a.rest refl
    where
      go : (is : List Item) → a.rest ≡ is → a.rest ≡ []
      go [] e = e
      go (i ∷ is) e =
          let body : IsSmall i =
            (subst (All IsSmall) e (All-append_right IsSmall a.got a.rest All-IsSmall)).0 in
          let room : abi.header.size + max_item_size ≤ buf_size - r.pos = leb→le _ _ c in
          absurd (omega (arith, a.full i is e))

module _ (abi : Abi) (l : IsLayout abi.header) {W S : Type 0}
    (search : SearchKey → Action W IoError Found) (each : Header → Bytes → S → Result IoError S)
    (tree : List Item) (t : IsTree tree) (small : All IsSmall tree) (w : W) (id : ℕ)
    (answer : (sk : SearchKey)
      → sk.tree_id ≡ id
      → (found : Found) × (search sk w ≡ (ok found, w)) × Answers abi tree sk found) where
  -- The rest of a round, once its items are read.
  after_items : ℕ → SearchKey → Result IoError (Read S) → Result IoError S × W
  after_items fuel sk r =
      and_then (r, w)
        (λ r. elim r.last [
          | none ↦ pure r.state
          | some last ↦
              resume (complete abi r) (next_min last)
                (λ key. search_all abi search each fuel (record sk { min_key = key })) r.state
        ])

  search_all-step :
      (fuel : ℕ) (sk : SearchKey) (s : S) (found : Found)
      → search sk w ≡ (ok found, w)
      → search_all abi search each (suc fuel) sk s w ≡ after_items fuel sk (items abi each found s)
  unfolding search_all after_items
  search_all-step fuel sk s found e = rw e

  module _ (fuel : ℕ) (sk : SearchKey) (found : Found) (a : Answers abi tree sk found)
      (later : (m : Key) (s : S)
        → length (select (record sk { min_key = m }) tree) < fuel
        → search_all abi search each fuel (record sk { min_key = m }) s w
          ≡ (fold_items each (select (record sk { min_key = m }) tree) s, w))
      (enough : length (select sk tree) < suc fuel) where
    carry_on :
        (g : Item) (got : List Item) (s : S)
        → a.got ≡ g ∷ got
        → (h : Header) → last_header (some g.header) got ≡ some h
        → after_items fuel sk (done (some h) (length (encode abi a.got)) s)
          ≡ (fold_items each a.rest s, w)
    unfolding after_items fold_items resume
    carry_on g got s e h ends =
        let split : select sk tree ≡ g ∷ (got ++ a.rest) = a.split ∙ rw e in
        let r : Read S = record { last = some h; pos = length (encode abi a.got); state = s } in
        elim (Bool-cases (complete abi r)) [
          | inl c ↦ rw (c, complete-rest abi tree small sk found a r refl c)
          | inr c ↦ elim (Option-cases (next_min h)) [
            | inl n ↦ rw (c, n, select-end sk tree t g got a.rest h split ends n)
            | inr (m, n) ↦
                let same = select-resume sk tree t g got a.rest h split ends m n in
                let fewer : length (select (record sk { min_key = m }) tree) < fuel =
                  omega (arith, ap length same, ap length split, length-append got a.rest) in
                rw (c, n) (later m s fewer ∙ ap (λ is. (fold_items each is s, w)) same)
          ]
        ]

    after_got :
        (got : List Item) (s : S)
        → a.got ≡ got
        → after_items fuel sk (done (last_header none got) (length (encode abi a.got)) s)
          ≡ (fold_items each a.rest s, w)
    unfolding after_items fold_items
    after_got [] s e = rw (a.some_got e)
    after_got (g ∷ got) s e =
        let (h, ends) = last_header-some g.header got in rw ends (carry_on g got s e h ends)

    after_fold :
        (r : Result IoError S)
        → after_items fuel sk
            (and_also r (done (last_header none a.got) (length (encode abi a.got))))
          ≡ (and_also r (fold_items each a.rest), w)
    unfolding after_items
    after_fold (ok s) = after_got a.got s refl
    after_fold (err e) = refl

    round :
        (s : S)
        → after_items fuel sk (items abi each found s) ≡ (fold_items each (select sk tree) s, w)
    round s =
        rw
          (items-encode abi l each found a.pad a.got s (got-StatesLength abi tree small sk found a)
            a.count a.laid)
          (after_fold (fold_items each a.got s)
            ∙ ap (λ r. (r, w)) (sym (fold_items-append each a.got a.rest s))
            ∙ ap (λ is. (fold_items each is s, w)) (sym a.split))

  -- Where the tree does not change, every search of it is answered as documented and leaves the
  -- world as it is, no item is larger than 64 KiB, and there is a round of fuel for each item of
  -- the range and one more: `search_all` hands every item of the range to `each` exactly once and
  -- in key order, and stops where `each` fails; it never runs out of fuel.
  pub search_all-whole :
      (fuel : ℕ) (sk : SearchKey) (s : S)
      → sk.tree_id ≡ id
      → length (select sk tree) < fuel
      → search_all abi search each fuel sk s w ≡ (fold_items each (select sk tree) s, w)
  search_all-whole zero sk s i f = absurd (omega arith)
  search_all-whole (suc fuel) sk s i f =
      let (found, runs, a) = answer sk i in
      search_all-step fuel sk s found runs
      ∙ round fuel sk found a (λ m u. search_all-whole fuel (record sk { min_key = m }) u i) f s
