-- ===== src/Run/Copy/Filling.antt =====
-- How far `fill` of src/run.rs gets: it leaves off only where no holder's file goes on.
use btrealloc.Prelude.{
  ℕ, ◌+◌, ◌-◌, ◌≤◌, ◌<◌, ◌≡◌, refl, sym, ◌||◌, true, List, [], ◌∷◌, ◌++◌, arith, ltb, leb, min, max,
  Bool-cases, inl, inr, All, All-mono, add64, sub64, add64-eq, sub64-eq, u64_mod, IsSorted,
}
use btrealloc.Io.{Result, ok}
use btrealloc.Abi.{Bytes}
use btrealloc.Extent.{ExtentRef, ref_end}
use btrealloc.Kernel.Os.{Os, State, Metadata, Filesystem}
use btrealloc.Run.Locate.{Failure, Located, open_located}
use btrealloc.Run.Copy.{Source, Filled, source_le, part_end, read_part, fill_from, fill_loop, fill}

module _ (os : Os) (fs : Filesystem os) (size : Located → ℕ) where
  -- A file that says its size, and gives every byte before its end.
  pub record IsWhole (file : os.File) (s : State os) (len : ℕ) : Type 0 where
    pub meta : Metadata
    pub measured : os.World
    pub says : os.metadata file s.world ≡ (ok meta, measured)
    pub len_said : meta.len ≡ len
    pub reads :
        (from n : ℕ) (w : os.World)
        → from + n ≤ len
        → (bytes : Bytes) × (w' : os.World) × (os.read_exact_at file from n w ≡ (ok bytes, w'))

  -- A reference to a file that can be opened and read, whenever that is tried, and has one size
  -- meanwhile, with nothing that goes over 64 bits.
  pub record IsReadable (src : Source) : Type 0 where
    pub extent_fits : src.0.extent_offset + src.0.num_bytes + size src.1 < u64_mod
    pub file_fits : src.0.file_offset + src.0.num_bytes < u64_mod
    pub opens :
        (s : State os)
        → (file : os.File) × (s' : State os) × (open_located os fs src.1 s ≡ (ok file, s'))
          × IsWhole file s' (size src.1)

  -- The end of what a reference gives of the extent, that is, of what its file has data for.
  abbrev pub given_to : Source → ℕ
  given_to (r, l) = r.extent_offset + min r.num_bytes (size l - r.file_offset)

  part_end-eq :
      (r : ExtentRef) (l : Located) (end at : ℕ)
      → IsReadable (r, l)
      → r.extent_offset ≤ at
      → at < r.extent_offset + r.num_bytes
      → max at (part_end os fs r (size l) end at) ≡ max at (min end (given_to (r, l)))
  unfolding part_end ref_end add64 sub64
  part_end-eq r l end at h from to = omega (arith, h.extent_fits, h.file_fits)

  -- Filling so far as a place, or not at all where that is no further.
  abbrev pub FillsTo : {A : Type 0} → (A → ℕ) → Result Failure A × State os → ℕ → Type 0
  FillsTo {A} position x n = (g : A) × (s' : State os) × (x ≡ (ok g, s')) × (position g ≡ n)

  read_part-FillsTo :
      (r : ExtentRef) (l : Located) (file : os.File) (to : ℕ) (f : Filled) (s0 s : State os)
      → IsReadable (r, l)
      → IsWhole file s0 (size l)
      → r.extent_offset ≤ f.position
      → (f.position < to → to ≤ given_to (r, l))
      → FillsTo (λ g. g.position) (read_part os fs (r, l) file to f s) (max f.position to)
  unfolding read_part
  read_part-FillsTo r l file to f s0 s h whole from le = elim (Bool-cases (leb to f.position)) [
    | inl c ↦ rw c (f, s, refl, ground arith)
    | inr c ↦
        let more : f.position < to = ground arith in
        let back : sub64 f.position r.extent_offset ≡ f.position - r.extent_offset =
          sub64-eq f.position r.extent_offset from (omega (arith, h.extent_fits, le more)) in
        let place : add64 r.file_offset (f.position - r.extent_offset)
            ≡ r.file_offset + (f.position - r.extent_offset) =
          add64-eq r.file_offset _ (omega (arith, h.file_fits, le more)) in
        let (bytes, w, e) =
          whole.reads (r.file_offset + (f.position - r.extent_offset)) (to - f.position) s.world
            (omega (arith, le more)) in
        rw (c, back, place, e)
          (
            record { position = to; bytes = f.bytes ++ bytes },
            record s { world = w },
            refl,
            omega arith,
          )
  ]

  fill_from-FillsTo :
      (r : ExtentRef) (l : Located) (end : ℕ) (f : Filled) (s : State os)
      → IsReadable (r, l)
      → r.extent_offset ≤ f.position
      → f.position < r.extent_offset + r.num_bytes
      → FillsTo
          (λ g. g.position)
          (fill_from os fs (r, l) end f s)
          (max f.position (min end (given_to (r, l))))
  unfolding fill_from
  fill_from-FillsTo r l end f s h from to =
      let (file, s1, opened, whole) = h.opens s in
      let same = part_end-eq r l end f.position h from to in
      rw (opened, whole.says, whole.len_said, sym same)
        (read_part-FillsTo r l file (part_end os fs r (size l) end f.position) f s1
          (record s1 { world = whole.measured }) h whole from (λ more. omega (arith, same)))

  -- Where a reference has nothing to give from a place on that lies before the end.
  abbrev pub IsDone : ℕ → ℕ → Source → Type 0
  IsDone end at src = at < end → src.0.extent_offset ≤ at → given_to src ≤ at

  -- How `fill_loop` ends: at no place before the one it began at or behind the end, with no
  -- reference that could have given more.
  pub record IsFull (refs : List Source) (end from : ℕ) (x : Result Failure Filled × State os)
      : Type 0 where
    pub filled : Filled
    pub after : State os
    pub returns : x ≡ (ok filled, after)
    pub no_less : from ≤ filled.position
    pub no_more : filled.position ≤ max from end
    pub done : All (IsDone end filled.position) refs

  -- References that all start behind the place give nothing.
  fill_loop-ahead :
      (refs : List Source) (end : ℕ) (f : Filled) (s : State os)
      → All (λ src. f.position < src.0.extent_offset) refs
      → fill_loop os fs refs end f s ≡ (ok f, s)
  unfolding fill_loop
  fill_loop-ahead [] end f s h = refl
  fill_loop-ahead ((r, l) ∷ refs) end f s h =
      let before : (ltb f.position r.extent_offset || leb (ref_end r) f.position) ≡ true =
        ground (arith, h.0) in
      elim (Bool-cases (leb end f.position)) [
        | inl c ↦ rw c refl
        | inr c ↦ rw (c, before) (fill_loop-ahead refs end f s h.1)
      ]

  plain_end :
      (r : ExtentRef) (l : Located) → IsReadable (r, l) → ref_end r ≡ r.extent_offset + r.num_bytes
  unfolding ref_end
  plain_end r l h = add64-eq r.extent_offset r.num_bytes (omega (arith, h.extent_fits))

  behind :
      (a b : Source) (at : ℕ)
      → at < a.0.extent_offset
      → source_le a b ≡ true
      → at < b.0.extent_offset
  unfolding source_le
  behind a b at lt le = ground arith

  fill_loop-IsFull :
      (refs : List Source) (end : ℕ) (f : Filled) (s : State os)
      → IsSorted source_le refs
      → All IsReadable refs
      → IsFull refs end f.position (fill_loop os fs refs end f s)
  unfolding fill_loop
  fill_loop-IsFull [] end f s sorted h = record {
    filled = f;
    after = s;
    returns = refl;
    no_less = omega arith;
    no_more = omega arith;
    done = tt;
  }
  fill_loop-IsFull ((r, l) ∷ refs) end f s sorted h =
      let ends : ref_end r ≡ r.extent_offset + r.num_bytes = plain_end r l h.0 in
      elim (Bool-cases (leb end f.position)) [
        | inl c ↦ rw c (record {
          filled = f;
          after = s;
          returns = refl;
          no_less = omega arith;
          no_more = omega arith;
          done = All-mono (λ src _ lt. absurd (ground arith)) ((r, l) ∷ refs) h;
        })
        | inr c ↦ elim (Bool-cases (ltb f.position r.extent_offset)) [
          | inl d ↦
              let ahead =
                All-mono (λ src le. behind (r, l) src f.position (ground arith) le) refs sorted.0 in
              rw (c, d)
                (record {
                  filled = f;
                  after = s;
                  returns = fill_loop-ahead refs end f s ahead;
                  no_less = omega arith;
                  no_more = omega arith;
                  done = (
                    λ lt from. absurd (ground arith),
                    All-mono (λ src lt _ from. absurd (omega arith)) refs ahead,
                  );
                })
          | inr d ↦ elim (Bool-cases (leb (ref_end r) f.position)) [
            | inl t ↦
                let full = fill_loop-IsFull refs end f s sorted.1 h.1 in
                rw (c, d, t)
                  (record {
                    filled = full.filled;
                    after = full.after;
                    returns = full.returns;
                    no_less = full.no_less;
                    no_more = full.no_more;
                    done = (λ lt from. ground (arith, full.no_less), full.done);
                  })
            | inr t ↦
                let (g, s1, e, there) =
                  fill_from-FillsTo r l end f s h.0 (ground arith) (ground arith) in
                let full = fill_loop-IsFull refs end g s1 sorted.1 h.1 in
                rw (c, d, t, e)
                  (record {
                    filled = full.filled;
                    after = full.after;
                    returns = full.returns;
                    no_less = omega (arith, there, full.no_less);
                    no_more = ground (arith, there, full.no_more);
                    done = (λ lt from. omega (arith, there, full.no_less), full.done);
                  })
          ]
        ]
      ]

  -- While every holder's file can be opened and read and keeps its size, `fill` returns, at a place of
  -- its range where no reference's file goes on.
  pub fill-IsFull :
      (refs : List Source) (start end : ℕ) (s : State os)
      → IsSorted source_le refs
      → All IsReadable refs
      → IsFull refs end start (fill os fs refs start end s)
  unfolding fill
  fill-IsFull refs start end s =
      fill_loop-IsFull refs end (record { position = start; bytes = [] }) s
