-- ===== src/Kernel/Tally/Inline.antt =====
-- `add_inline` of src/kernel.rs reads the references that an extent item holds.
use mathlib.Core.List.{append_assoc, append-nil}
use btrealloc.Prelude.{
  ℕ, zero, suc, ◌≤◌, ◌≡◌, ◌≢◌, refl, sym, ap, ◌∙◌, true, false, some, List, [], ◌∷◌, ◌++◌, arith,
  ==_refl, le→leb, ◌==◌, leb, All, length, drop, length-append,
}
use btrealloc.Abi.{Abi, IsAbi, Bytes, RawDataRef}
use btrealloc.Kernel.Tally.{
  Tally, add_data_ref, inline_ref, inline_loop, opaque_unless_empty, add_inline,
}

-- The inline references that the program reads: one that names a file, and the record of the
-- subvolume that is charged, whose content does not matter.
pub data InlineRef : Type 0 where
  named : RawDataRef → InlineRef
  owner : Bytes → InlineRef

module _ (abi : Abi) where
  abbrev pub encode_inline : List InlineRef → Bytes
  encode_inline [] = []
  encode_inline (named r ∷ rs) =
      abi.extent_data_ref_key ∷ (abi.data_ref.write r ++ encode_inline rs)
  encode_inline (owner bytes ∷ rs) = abi.extent_owner_ref_key ∷ (bytes ++ encode_inline rs)

  abbrev pub HasOwnerSize : InlineRef → Type 0
  HasOwnerSize (named r) = Unit
  HasOwnerSize (owner bytes) = length bytes ≡ abi.owner_ref_size

-- The data references among them, in order.
abbrev pub named_refs : List InlineRef → List RawDataRef
named_refs [] = []
named_refs (named r ∷ rs) = r ∷ named_refs rs
named_refs (owner bytes ∷ rs) = named_refs rs

abbrev pub add_all : Tally → List RawDataRef → Tally
add_all t [] = t
add_all t (r ∷ rs) = add_all (add_data_ref t r) rs

-- A tag that the program does not read: a shared data reference, or anything else.
abbrev pub IsForeign : Abi → ℕ → Type 0
IsForeign abi tag = (tag ≢ abi.extent_data_ref_key) × (tag ≢ abi.extent_owner_ref_key)

pub drop-append : (xs ys : Bytes) (n : ℕ) → n ≡ length xs → drop n (xs ++ ys) ≡ ys
drop-append [] ys n e = rw e
drop-append (x ∷ xs) ys n e = rw e (drop-append xs ys (length xs) refl)

module _ (abi : Abi) (ok_abi : IsAbi abi) where
  inline_ref-named :
      (t : Tally) (r : RawDataRef) (rest : Bytes)
      → inline_ref abi t abi.extent_data_ref_key (abi.data_ref.write r ++ rest)
        ≡ some (add_data_ref t r, abi.data_ref.size)
  unfolding inline_ref
  inline_ref-named t r rest =
      rw (==_refl abi.extent_data_ref_key, ok_abi.data_ref_layout.read-write r rest)

  inline_ref-owner :
      (t : Tally) (body : Bytes)
      → inline_ref abi t abi.extent_owner_ref_key body ≡ some (t, abi.owner_ref_size)
  unfolding inline_ref
  inline_ref-owner t body =
      let other : (abi.extent_owner_ref_key == abi.extent_data_ref_key) ≡ false =
        ground (arith, ok_abi.owner_ne_data_ref) in
      rw (other, ==_refl abi.extent_owner_ref_key)

  -- One round of the loop over a reference whose body is `body`.
  inline_loop-step :
      (fuel : ℕ) (t t' : Tally) (tag len : ℕ) (body rest : Bytes)
      → inline_ref abi t tag (body ++ rest) ≡ some (t', len)
      → len ≡ length body
      → inline_loop abi (suc fuel) t (tag ∷ (body ++ rest)) ≡ inline_loop abi fuel t' rest
  unfolding inline_loop
  inline_loop-step fuel t t' tag len body rest e n =
      let fits : leb len (length (body ++ rest)) ≡ true =
        le→leb _ _ (omega (arith, length-append body rest)) in
      rw (e, inline_loop, fits, drop-append body rest len n)

  inline_loop-encode :
      (fuel : ℕ) (t : Tally) (rs : List InlineRef) (rest : Bytes)
      → All (HasOwnerSize abi) rs
      → length (encode_inline abi rs ++ rest) ≤ fuel
      → (left : ℕ) × (length rest ≤ left)
        × (inline_loop abi fuel t (encode_inline abi rs ++ rest)
            ≡ inline_loop abi left (add_all t (named_refs rs)) rest)
  inline_loop-encode fuel t [] rest a f = (fuel, f, refl)
  inline_loop-encode zero t (named r ∷ rs) rest a f = absurd (omega arith)
  inline_loop-encode zero t (owner bytes ∷ rs) rest a f = absurd (omega arith)
  inline_loop-encode (suc fuel) t (named r ∷ rs) rest a f =
      let step =
        inline_loop-step fuel t (add_data_ref t r) abi.extent_data_ref_key abi.data_ref.size
          (abi.data_ref.write r) (encode_inline abi rs ++ rest)
          (inline_ref-named t r (encode_inline abi rs ++ rest))
          (sym (ok_abi.data_ref_layout.length-write r)) in
      let shorter : length (encode_inline abi rs ++ rest) ≤ fuel = omega (
        arith,
        ap length (append_assoc (abi.data_ref.write r) (encode_inline abi rs) rest),
        length-append (abi.data_ref.write r) (encode_inline abi rs ++ rest),
      ) in
      let (left, enough, e) = inline_loop-encode fuel (add_data_ref t r) rs rest a.1 shorter in
      (left, enough, rw append_assoc (step ∙ e))
  inline_loop-encode (suc fuel) t (owner bytes ∷ rs) rest a f =
      let step =
        inline_loop-step fuel t t abi.extent_owner_ref_key abi.owner_ref_size bytes
          (encode_inline abi rs ++ rest)
          (inline_ref-owner t (bytes ++ (encode_inline abi rs ++ rest))) (sym a.0) in
      let shorter : length (encode_inline abi rs ++ rest) ≤ fuel = omega (
        arith,
        ap length (append_assoc bytes (encode_inline abi rs) rest),
        length-append bytes (encode_inline abi rs ++ rest),
      ) in
      let (left, enough, e) = inline_loop-encode fuel t rs rest a.1 shorter in
      (left, enough, rw append_assoc (step ∙ e))

  inline_loop-nil : (fuel : ℕ) (t : Tally) → inline_loop abi fuel t [] ≡ (t, [])
  unfolding inline_loop
  inline_loop-nil zero t = refl
  inline_loop-nil (suc fuel) t = refl

  -- Inline references that name a file are added one by one, in order, and the tally stays as
  -- trusted as it was; records of who is charged, of the size of theirs, are passed over.
  pub add_inline-named :
      (t : Tally) (rs : List InlineRef)
      → All (HasOwnerSize abi) rs
      → add_inline abi t (encode_inline abi rs) ≡ add_all t (named_refs rs)
  unfolding add_inline
  add_inline-named t rs a =
      let fuel = length (encode_inline abi rs) in
      let (left, _, e) =
        inline_loop-encode fuel t rs [] a
          (omega (arith, length-append (encode_inline abi rs) [])) in
      ap (opaque_unless_empty abi)
        (rw append-nil at e ∙ inline_loop-nil left (add_all t (named_refs rs)))
