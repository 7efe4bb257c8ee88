-- ===== src/Kernel/Search/Items.antt =====
-- `SearchArgs::items` of src/kernel.rs reads back the items that a buffer holds.
use native.Mathlib.Nat.{zero-add, suc-add}
use mathlib.Core.List.{append_assoc}
use btrealloc.Prelude.{
  ℕ, zero, suc, ◌+◌, ◌-◌, ◌≤◌, ◌≡◌, refl, sym, ap, ◌∙◌, false, Option, none, some, List, [], ◌∷◌,
  ◌++◌, arith, All, length, take, drop, ltb, length-append,
}
use btrealloc.Io.{Result, ok, err, IoError}
use btrealloc.Abi.{Abi, Header, Bytes, IsLayout}
use btrealloc.Kernel.Search.{Found, Read, and_also, slice, items_loop, items}

-- An item of a tree, with its header as a search reports it.
pub record Item : Type 0 where
  pub header : Header
  pub body : Bytes

-- A header states the length of its item.
abbrev pub StatesLength : Item → Type 0
StatesLength i = i.header.len ≡ length i.body

-- How a search lays items out.
abbrev pub encode : Abi → List Item → Bytes
encode abi [] = []
encode abi (i ∷ is) = abi.header.write i.header ++ (i.body ++ encode abi is)

module _ {S : Type 0} (each : Header → Bytes → S → Result IoError S) where
  -- `each`, over all items in order.
  unfoldable pub fold_items : List Item → S → Result IoError S
  fold_items [] s = ok s
  fold_items (i ∷ is) s = and_also (each i.header i.body s) (fold_items is)

abbrev pub last_header : Option Header → List Item → Option Header
last_header h [] = h
last_header h (i ∷ is) = last_header (some i.header) is

take-append : {A : Type 0} (xs ys : List A) → take (length xs) (xs ++ ys) ≡ xs
take-append [] ys = refl
take-append (x ∷ xs) ys = ap (◌∷◌ x) (take-append xs ys)

drop-append : {A : Type 0} (xs ys : List A) → drop (length xs) (xs ++ ys) ≡ ys
drop-append [] ys = refl
drop-append (x ∷ xs) ys = drop-append xs ys

drop-nil : {A : Type 0} (n : ℕ) → drop n (let xs : List A = [] in xs) ≡ []
drop-nil zero = refl
drop-nil (suc n) = refl

drop-drop : {A : Type 0} (n m : ℕ) (xs : List A) → drop m (drop n xs) ≡ drop (n + m) xs
drop-drop zero m xs = rw zero-add
drop-drop (suc n) m [] = rw suc-add (drop-nil m)
drop-drop (suc n) m (x ∷ xs) = rw suc-add (drop-drop n m xs)

length-drop : {A : Type 0} (n : ℕ) (xs : List A) → length (drop n xs) ≡ length xs - n
length-drop zero xs = omega arith
length-drop (suc n) [] = omega arith
length-drop (suc n) (x ∷ xs) = omega (arith, length-drop n xs)

-- Cutting a piece of a known length out of a buffer, and what stands behind it.
slice-eq : (buf a b : Bytes) (pos : ℕ) → drop pos buf ≡ a ++ b → slice pos (pos + length a) buf ≡ a
slice-eq buf a b pos e =
    let n : pos + length a - pos ≡ length a = omega arith in rw (n, e) (take-append a b)

drop-behind :
    (buf a b : Bytes) (pos n : ℕ) → drop pos buf ≡ a ++ b → n ≡ length a → drop (pos + n) buf ≡ b
drop-behind buf a b pos n e l = sym (drop-drop pos n buf) ∙ (rw (e, l) (drop-append a b))

module _ {E A B C : Type 0} where
  pub and_also_assoc :
      (r : Result E A) (f : A → Result E B) (g : B → Result E C)
      → and_also (and_also r f) g ≡ and_also r (λ a. and_also (f a) g)
  and_also_assoc (ok a) f g = refl
  and_also_assoc (err e) f g = refl

module _ {E A C : Type 0} where
  pub and_also-cong :
      (r : Result E A) (f g : A → Result E C) → ((a : A) → f a ≡ g a) → and_also r f ≡ and_also r g
  and_also-cong (ok a) f g h = h a
  and_also-cong (err e) f g h = refl

encode-cons :
    (abi : Abi) (i : Item) (is : List Item) (pad : Bytes)
    → encode abi (i ∷ is) ++ pad ≡ abi.header.write i.header ++ (i.body ++ (encode abi is ++ pad))
encode-cons abi i is pad =
    append_assoc (abi.header.write i.header) (i.body ++ encode abi is) pad
    ∙ ap (◌++◌ (abi.header.write i.header)) (append_assoc i.body (encode abi is) pad)

-- What the loop returns once it has read everything.
abbrev pub done : {S : Type 0} → Option Header → ℕ → S → Result IoError (Read S)
done last pos s = ok (record { last = last; pos = pos; state = s })

module _ (abi : Abi) (l : IsLayout abi.header) {S : Type 0}
    (each : Header → Bytes → S → Result IoError S) (buf pad : Bytes) where
  -- From a position where the items `is` stand in the buffer, the loop hands each of them over.
  items_loop-encode :
      (is : List Item) (pos : ℕ) (last : Option Header) (s : S)
      → All StatesLength is
      → pos ≤ length buf
      → drop pos buf ≡ encode abi is ++ pad
      → items_loop abi each buf (length is) pos last s
        ≡ and_also
            (fold_items each is s)
            (done (last_header last is) (pos + length (encode abi is)))
  unfolding items_loop fold_items
  items_loop-encode [] pos last s a p e = let n : pos + 0 ≡ pos = omega arith in rw n
  items_loop-encode (i ∷ is) pos last s a p e =
      let body_at : drop (pos + abi.header.size) buf ≡ i.body ++ (encode abi is ++ pad) =
        drop-behind buf (abi.header.write i.header) _ pos abi.header.size
          (e ∙ encode-cons abi i is pad) (sym (l.length-write i.header)) in
      let read : abi.header.read (drop pos buf) ≡ some i.header =
        rw (e, encode-cons abi i is pad) (l.read-write i.header _) in
      let n : i.header.len ≡ length i.body = a.0 in
      let start : ℕ = pos + abi.header.size in
      let cut : slice start (start + i.header.len) buf ≡ i.body =
        rw n (slice-eq buf i.body _ start body_at) in
      let rest : drop (start + i.header.len) buf ≡ encode abi is ++ pad =
        drop-behind buf i.body _ start i.header.len body_at n in
      let fits : start + i.header.len ≤ length buf = omega (
        arith,
        ap length e,
        length-drop pos buf,
        ap length body_at,
        length-drop start buf,
        l.length-write i.header,
        length-append (encode abi (i ∷ is)) pad,
        length-append (abi.header.write i.header) (i.body ++ encode abi is),
        length-append i.body (encode abi is ++ pad),
      ) in
      let room : ltb (length buf) (start + i.header.len) ≡ false = ground arith in
      let moved : start + i.header.len + length (encode abi is)
          ≡ pos + length (encode abi (i ∷ is)) =
        omega (
          arith,
          l.length-write i.header,
          length-append (abi.header.write i.header) (i.body ++ encode abi is),
          length-append i.body (encode abi is),
        ) in
      rw (read, room, cut, items_loop)
        (and_also-cong (each i.header i.body s) _ _ (λ t.
            items_loop-encode is (start + i.header.len) (some i.header) t a.1 fits rest
            ∙ ap (λ q. and_also (fold_items each is t) (done (last_header (some i.header) is) q))
                moved)
          ∙ sym (and_also_assoc (each i.header i.body s) (fold_items each is) _))

-- A search's buffer that holds the items `is`, each of the length that its header states, as many
-- as the search reports, with anything behind them, is read as `is`: `each` is called on every item
-- in order, until it fails, and what is returned else is the header of the last item and the
-- position of the end.
pub items-encode :
    (abi : Abi)
    → IsLayout abi.header
    → {S : Type 0} (each : Header → Bytes → S → Result IoError S) (found : Found) (pad : Bytes)
      (is : List Item) (s : S)
    → All StatesLength is
    → found.nr_items ≡ length is
    → found.buf ≡ encode abi is ++ pad
    → items abi each found s
      ≡ and_also (fold_items each is s) (done (last_header none is) (length (encode abi is)))
unfolding items
items-encode abi l each found pad is s a n e =
    rw n (rw zero-add at (items_loop-encode abi l each found.buf pad is 0 none s a (omega arith) e))
