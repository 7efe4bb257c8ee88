-- ===== src/Run/Redirect/Moved.antt =====
-- `redirect_chunks` of src/run.rs: if it succeeds, every byte that it was to move was moved.
use btrealloc.Prelude.{
  ℕ, ◌+◌, ◌-◌, ◌≤◌, ◌<◌, ◌≡◌, ap, inl, inr, arith, leb, Bool-cases, add64, sub64, u64_mod,
}
use mathlib.Core.Path.{subst}
use btrealloc.Io.{Result, ok}
use btrealloc.Extent.{ExtentRef}
use btrealloc.Kernel.Os.{Os, FilePath, State, Filesystem}
use btrealloc.Kernel.Files.{dedupe}
use btrealloc.Run.Locate.{Failure}
use btrealloc.Run.Copy.{LiveRange}
use btrealloc.Run.Redirect.{cursor_of}
use btrealloc.Run.Redirect.Chunks.{
  left, Moved, still, further, Redirected, moved, refused, no_progress,
}

-- That nothing that a reference names goes over 64 bits.
abbrev pub Fits : ExtentRef → Type 0
Fits r = (r.extent_offset + r.num_bytes < u64_mod) × (r.file_offset + r.num_bytes < u64_mod)

module _ (os : Os) (fs : Filesystem os) (temp file : os.File) (range : LiveRange) where
  -- Dedupes from the temporary file into the file that succeeded, each in the state that the one before
  -- it has left.
  pub data Dedupes : State os → State os → Type 0 where
    no_more : {s : State os} → Dedupes s s
    one_more :
        {s t u : State os} (at len cursor n : ℕ)
        → dedupe os temp at len file cursor s ≡ (ok n, t)
        → Dedupes t u
        → Dedupes s u

  pub Dedupes-join : (s t u : State os) → Dedupes s t → Dedupes t u → Dedupes s u
  Dedupes-join s t u no_more e = e
  Dedupes-join s t u (one_more {t = v} at len cursor n h d) e =
      one_more at len cursor n h (Dedupes-join v t u d e)

  -- That between two states a dedupe that succeeded has moved byte `x` of the extent, where a reference
  -- has it in the file: one that stands before the byte, and shared beyond it.
  pub record IsMoved (r : ExtentRef) (x : ℕ) (s s' : State os) : Type 0 where
    pub at : ℕ
    pub len : ℕ
    pub n : ℕ
    pub before : State os
    pub after : State os
    pub earlier : Dedupes s before
    pub later : Dedupes after s'
    pub shared :
        dedupe os temp
          (sub64 (add64 fs.sectorsize at) range.start)
          len
          file
          (cursor_of os fs r at)
          before
        ≡ (ok n, after)
    pub within : n ≤ len
    pub begins : at ≤ x
    pub ends : x < at + n

  -- That every byte is moved that lies in the stretch, in a reference, and in a file of `size` bytes.
  abbrev pub AllMoved : ℕ → State os → State os → ExtentRef → Type 0
  AllMoved size s s' r =
      (x : ℕ)
      → range.start ≤ x
      → x < range.end
      → r.extent_offset ≤ x
      → x < r.extent_offset + r.num_bytes
      → r.file_offset + (x - r.extent_offset) < size
      → IsMoved r x s s'

  IsMoved-within :
      (r : ExtentRef) (x : ℕ) (s t u v : State os)
      → Dedupes s t
      → IsMoved r x t u
      → Dedupes u v
      → IsMoved r x s v
  IsMoved-within r x s t u v first m last = record {
    at = m.at;
    len = m.len;
    n = m.n;
    before = m.before;
    after = m.after;
    earlier = Dedupes-join s t m.before first m.earlier;
    later = Dedupes-join m.after u v m.later last;
    shared = m.shared;
    within = m.within;
    begins = m.begins;
    ends = m.ends;
  }

  pub AllMoved-within :
      (size : ℕ) (s t u v : State os) (r : ExtentRef)
      → Dedupes s t
      → Dedupes u v
      → AllMoved size t u r
      → AllMoved size s v r
  AllMoved-within size s t u v r first last h x from to held within inside =
      IsMoved-within r x s t u v first (h x from to held within inside) last

  cursor_of-eq :
      (r : ExtentRef) (x : ℕ)
      → Fits r
      → r.extent_offset ≤ x
      → x < r.extent_offset + r.num_bytes
      → cursor_of os fs r x ≡ r.file_offset + (x - r.extent_offset)
  unfolding add64 sub64
  cursor_of-eq r x fits from to = omega (arith, fits.0, fits.1)

  module _ (path : FilePath) (r : ExtentRef) (stop to : ℕ) where
    Moved-le :
        (at at' : ℕ) (s s' : State os)
        → Moved os fs path temp file range.start r stop to at s at' s'
        → at ≤ at'
    Moved-le at at' s s' still = omega arith
    Moved-le at at' s s' (further {s' = t} n some_bytes le e m) =
        omega (arith, Moved-le (at + n) at' t s' m)

    Moved-Dedupes :
        (at at' : ℕ) (s s' : State os)
        → Moved os fs path temp file range.start r stop to at s at' s'
        → Dedupes s s'
    Moved-Dedupes at at' s s' still = no_more
    Moved-Dedupes at at' s s' (further {s' = t} n some_bytes le e m) =
        one_more _ _ _ n e (Moved-Dedupes (at + n) at' t s' m)

    -- Dedupes that follow on one another leave out no byte between.
    Moved-IsMoved :
        (at at' : ℕ) (s s' : State os)
        → Moved os fs path temp file range.start r stop to at s at' s'
        → (x : ℕ) → at ≤ x
        → x < at'
        → IsMoved r x s s'
    Moved-IsMoved at at' s s' still x lo hi = absurd (omega arith)
    Moved-IsMoved at at' s s' (further {s' = t} n some_bytes le e m) x lo hi =
        elim (Bool-cases (leb (at + n) x)) [
          | inl c ↦
              IsMoved-within r x s t s' s' (one_more _ _ _ n e no_more)
                (Moved-IsMoved (at + n) at' t s' m x (ground arith) hi) no_more
          | inr c ↦ record {
            at = at;
            len = left os fs path temp file range.start r stop to at;
            n = n;
            before = s;
            after = t;
            earlier = no_more;
            later = Moved-Dedupes (at + n) at' t s' m;
            shared = e;
            within = le;
            begins = lo;
            ends = ground arith;
          }
        ]

    -- Where the loop succeeds, a byte is moved that lies before its ends in the extent and in the file.
    pub Redirected-IsMoved :
        (at : ℕ) (s s' : State os) (y : Result Failure (Unit {0}) × State os) (x : ℕ)
        → Fits r
        → r.extent_offset ≤ at
        → at ≤ x
        → x < to
        → x < r.extent_offset + r.num_bytes
        → r.file_offset + (x - r.extent_offset) < stop
        → Redirected os fs path temp file range.start r stop to at s y
        → y ≡ (ok tt, s')
        → IsMoved r x s s'
    Redirected-IsMoved at s s' y x fits held from before within inside
          (moved at' {s' = t} m through) e =
        let on = Moved-le at at' s t m in
        let same : t ≡ s' = ap (λ p. p.1) e in
        subst (IsMoved r x s) same (
          Moved-IsMoved at at' s t m x from (elim through [
            | inl ended ↦ omega arith
            | inr ended ↦ elim (Bool-cases (leb at' x)) [
              | inl c ↦
                  let le : at' ≤ x = ground arith in
                  let place = cursor_of-eq r at' fits (omega (arith, on)) (omega (arith, le)) in
                  absurd (omega (arith, place, le, on))
              | inr c ↦ ground arith
            ]
          ]))
    Redirected-IsMoved at s s' y x fits held from before within inside (refused at' why m a) e = cc
    Redirected-IsMoved at s s' y x fits held from before within inside (no_progress at' m a) e = cc

    pub Redirected-Dedupes :
        (at : ℕ) (s s' : State os) (y : Result Failure (Unit {0}) × State os)
        → Redirected os fs path temp file range.start r stop to at s y
        → y ≡ (ok tt, s')
        → Dedupes s s'
    Redirected-Dedupes at s s' y (moved at' {s' = t} m through) e =
        let same : t ≡ s' = ap (λ p. p.1) e in subst (Dedupes s) same (Moved-Dedupes at at' s t m)
    Redirected-Dedupes at s s' y (refused at' why m a) e = cc
    Redirected-Dedupes at s s' y (no_progress at' m a) e = cc
