-- ===== src/Run/Copy/Data.antt =====
-- `fill` of src/run.rs reads the data of an extent.
use mathlib.Core.Path.{subst}
use btrealloc.Prelude.{
  ℕ, zero, suc, ◌+◌, ◌-◌, ◌≤◌, ◌<◌, ◌≡◌, refl, ap, ◌||◌, List, [], ◌∷◌, ◌++◌, arith, ltb, leb,
  Bool-cases, inl, inr, All, add64, sub64,
}
use btrealloc.Io.{Result, ok, err, IoError, and_then, map_err, map_err_result, pure, ◌>>=◌}
use btrealloc.Abi.{Bytes}
use btrealloc.Extent.{ExtentRef, ref_end}
use btrealloc.Kernel.Os.{Os, State, Metadata, Filesystem, on_world}
use btrealloc.Run.Locate.{Failure, charged, Located, open_located}
use btrealloc.Run.Copy.{Source, Filled, part_end, read_part, fill_from, fill_loop, fill}

-- So many bytes of the data, from a place on.
abbrev pub stretch : (ℕ → ℕ) → ℕ → ℕ → Bytes
stretch content at zero = []
stretch content at (suc n) = content at ∷ stretch content (suc at) n

stretch-append :
    (content : ℕ → ℕ) (at m n : ℕ)
    → stretch content at m ++ stretch content (at + m) n ≡ stretch content at (m + n)
stretch-append content at zero n =
    let e : at + 0 ≡ at = omega arith in let f : 0 + n ≡ n = omega arith in rw (e, f) refl
stretch-append content at (suc m) n =
    let e : at + suc m ≡ suc at + m = omega arith in
    let f : suc m + n ≡ suc (m + n) = omega arith in
    rw (e, f) (ap (◌∷◌ (content at)) (stretch-append content (suc at) m n))

module _ (os : Os) (fs : Filesystem os) (content : ℕ → ℕ) where
  -- What a holder's file holds at the place of the extent is the data of the extent.
  abbrev pub HoldsData : Source → Type 0
  HoldsData (r, l) =
      (file : os.File) (s s' : State os)
      → open_located os fs l s ≡ (ok file, s')
      → (at n : ℕ) (w w' : os.World) (bytes : Bytes) → r.extent_offset ≤ at
      → at + n ≤ ref_end r
      → os.read_exact_at file (add64 r.file_offset (sub64 at r.extent_offset)) n w ≡ (ok bytes, w')
      → bytes ≡ stretch content at n

  -- What is filled so far is the data from `start` on.
  abbrev pub IsFilled : ℕ → Filled → Type 0
  IsFilled start f = (start ≤ f.position) × (f.bytes ≡ stretch content start (f.position - start))

  read_part-IsFilled :
      (r : ExtentRef) (l : Located) (start to : ℕ) (f g : Filled) (file : os.File)
      (s0 s1 s2 s' : State os)
      → HoldsData (r, l)
      → open_located os fs l s0 ≡ (ok file, s1)
      → r.extent_offset ≤ f.position
      → to ≤ ref_end r
      → IsFilled start f
      → read_part os fs (r, l) file to f s2 ≡ (ok g, s')
      → IsFilled start g
  unfolding read_part
  read_part-IsFilled r l start to f g file s0 s1 s2 s' holds o from le filled e =
      elim (Bool-cases (leb to f.position)) [
        | inl c ↦ let e' = rw c at e in let same : f ≡ g = cc in rw⁻¹ same filled
        | inr c ↦
            go
              (os.read_exact_at file (add64 r.file_offset (sub64 f.position r.extent_offset))
                (to - f.position) s2.world)
              refl (ground arith) (rw c at e)
      ]
    where
      go :
          (x : Result IoError Bytes × os.World)
          → os.read_exact_at file
              (add64 r.file_offset (sub64 f.position r.extent_offset))
              (to - f.position)
              s2.world
            ≡ x
          → f.position < to
          → and_then
              (map_err_result (charged l.path) (x.0, record s2 { world = x.1 }))
              (λ part. pure (record { position = to; bytes = f.bytes ++ part }))
            ≡ (ok g, s')
          → IsFilled start g
      go (err why, w) p lt e = cc
      go (ok part, w) p lt e =
          let h : Filled = record { position = to; bytes = f.bytes ++ part } in
          let same : h ≡ g = cc in
          let part_data =
            holds file s0 s1 o f.position (to - f.position) s2.world w part from (omega arith) p in
          let place : start + (f.position - start) ≡ f.position = omega arith in
          let whole : (f.position - start) + (to - f.position) ≡ to - start = omega arith in
          let joined = stretch-append content start (f.position - start) (to - f.position) in
          let all : f.bytes ++ part ≡ stretch content start (to - start) =
            rw (filled.1, part_data) (rw (place, whole) at joined) in
          subst (IsFilled start) same (omega arith, all)

  part_end-le : (r : ExtentRef) (size end at : ℕ) → part_end os fs r size end at ≤ ref_end r
  unfolding part_end
  part_end-le r size end at = omega arith

  fill_from-IsFilled :
      (r : ExtentRef) (l : Located) (start end : ℕ) (f g : Filled) (s s' : State os)
      → HoldsData (r, l)
      → r.extent_offset ≤ f.position
      → IsFilled start f
      → fill_from os fs (r, l) end f s ≡ (ok g, s')
      → IsFilled start g
  unfolding fill_from
  fill_from-IsFilled r l start end f g s s' holds from filled e =
      opened (open_located os fs l s) refl e
    where
      measured :
          (file : os.File) (s1 : State os)
          → open_located os fs l s ≡ (ok file, s1)
          → (x : Result IoError Metadata × os.World)
          → and_then
              (map_err_result (charged l.path) (x.0, record s1 { world = x.1 }))
              (λ meta. read_part os fs (r, l) file (part_end os fs r meta.len end f.position) f)
            ≡ (ok g, s')
          → IsFilled start g
      measured file s1 o (err why, w) e = cc
      measured file s1 o (ok meta, w) e =
          read_part-IsFilled r l start (part_end os fs r meta.len end f.position) f g file s s1
            (record s1 { world = w }) s' holds o from (part_end-le r meta.len end f.position) filled
            e

      opened :
          (x : Result Failure os.File × State os)
          → open_located os fs l s ≡ x
          → and_then x (λ file.
            map_err (charged l.path) (on_world (os.metadata file))
            >>= (λ meta. read_part os fs (r, l) file (part_end os fs r meta.len end f.position) f))
            ≡ (ok g, s')
          → IsFilled start g
      opened (err why, s1) o e = cc
      opened (ok file, s1) o e = measured file s1 o (os.metadata file s1.world) e

  fill_loop-IsFilled :
      (refs : List Source) (start end : ℕ) (f g : Filled) (s s' : State os)
      → All HoldsData refs
      → IsFilled start f
      → fill_loop os fs refs end f s ≡ (ok g, s')
      → IsFilled start g
  unfolding fill_loop
  fill_loop-IsFilled [] start end f g s s' holds filled e =
      let same : f ≡ g = cc in subst (IsFilled start) same filled
  fill_loop-IsFilled ((r, l) ∷ refs) start end f g s s' holds filled e =
      elim (Bool-cases (leb end f.position)) [
        | inl c ↦ let e' = rw c at e in let same : f ≡ g = cc in subst (IsFilled start) same filled
        | inr c ↦ elim (Bool-cases (ltb f.position r.extent_offset || leb (ref_end r) f.position)) [
          | inl d ↦ fill_loop-IsFilled refs start end f g s s' holds.1 filled (rw (c, d) at e)
          | inr d ↦
              go (fill_from os fs (r, l) end f s) refl (rw (c, d) at e)
                (λ h. fill_from-IsFilled r l start end f h s _ holds.0 (ground arith) filled)
                (λ h t. fill_loop-IsFilled refs start end h g t s' holds.1)
        ]
      ]
    where
      go :
          (x : Result Failure Filled × State os)
          → fill_from os fs (r, l) end f s ≡ x
          → and_then x (fill_loop os fs refs end) ≡ (ok g, s')
          → ((h : Filled) → fill_from os fs (r, l) end f s ≡ (ok h, x.1) → IsFilled start h)
          → ((h : Filled) (t : State os)
              → IsFilled start h
              → fill_loop os fs refs end h t ≡ (ok g, s')
              → IsFilled start g)
          → IsFilled start g
      go (err why, t) p e here later = cc
      go (ok h, t) p e here later = later h t (here h p) e

  pub fill-IsFilled :
      (refs : List Source) (start end : ℕ) (f : Filled) (s s' : State os)
      → All HoldsData refs
      → fill os fs refs start end s ≡ (ok f, s')
      → IsFilled start f
  unfolding fill
  fill-IsFilled refs start end f s s' holds e =
      let none_yet : start - start ≡ 0 = omega arith in
      fill_loop-IsFilled refs start end (record { position = start; bytes = [] }) f s s' holds
        (omega arith, rw none_yet refl) e
