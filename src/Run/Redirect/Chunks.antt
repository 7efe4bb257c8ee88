-- ===== src/Run/Redirect/Chunks.antt =====
-- The `while` of `redirect_chunks` in src/run.rs: it ends, and moves on without a gap.
use btrealloc.Prelude.{
  ℕ, zero, suc, ◌+◌, ◌-◌, ◌≤◌, ◌<◌, ◌≡◌, refl, ap, ◌∙◌, ◌⊎◌, inl, inr, false, ◌&&◌, arith, min, ltb,
  leb, ◌==◌, if◌then◌else◌, leb→le, ==→≡, Bool-cases, add64, sub64, u64_mod, add64-eq,
}
use btrealloc.Io.{Result, ok, err, IoError, and_then, map_err_result, other_error}
use btrealloc.Extent.{ExtentRef}
use btrealloc.Kernel.Os.{Os, FilePath, State, Status, negative, natural, DedupeInfo, Filesystem, Io}
use btrealloc.Kernel.Files.{deduped_bytes, dedupe}
use btrealloc.Run.Locate.{Failure, charged}
use btrealloc.Run.Redirect.{cursor_of, redirect_loop}

-- `FIDEDUPERANGE` reports no more bytes than it was asked to share.
abbrev pub IsDedupe : Os → Type 0
IsDedupe os =
    (src : os.File) (src_offset len : ℕ) (dest : os.File) (dest_offset : ℕ) (w w' : os.World)
    (info : DedupeInfo)
    → os.dedupe_range src src_offset len dest dest_offset w ≡ (ok info, w')
    → info.bytes_deduped ≤ len

module _ {os : Os} (law : IsDedupe os) where
  deduped_bytes-eq :
      (bytes : ℕ) (status : Status) (s s' : State os) (n : ℕ)
      → deduped_bytes os bytes status s ≡ (ok n, s')
      → n ≡ bytes
  unfolding deduped_bytes
  deduped_bytes-eq bytes (negative k) s s' n e = cc
  deduped_bytes-eq bytes (natural k) s s' n e = elim (Bool-cases (k == os.abi.dedupe_range_same)) [
    | inl z ↦ let e' = rw z at e in cc
    | inr z ↦ let e' = rw z at e in cc
  ]

  dedupe-le :
      (src : os.File) (src_offset len : ℕ) (dest : os.File) (dest_offset : ℕ) (s s' : State os)
      (n : ℕ)
      → dedupe os src src_offset len dest dest_offset s ≡ (ok n, s')
      → n ≤ len
  unfolding dedupe
  dedupe-le src src_offset len dest dest_offset s s' n e =
      go (os.dedupe_range src src_offset len dest dest_offset s.world) refl e
    where
      go :
          (x : Result IoError DedupeInfo × os.World)
          → os.dedupe_range src src_offset len dest dest_offset s.world ≡ x
          → and_then
              (x.0, record s { world = x.1 })
              (λ info. deduped_bytes os info.bytes_deduped info.status)
            ≡ (ok n, s')
          → n ≤ len
      go (err why, w) p e = cc
      go (ok info, w) p e =
          let same =
            deduped_bytes-eq info.bytes_deduped info.status (record s { world = w }) s' n e in
          rw same (law src src_offset len dest dest_offset s.world w info p)

module _ (os : Os) (fs : Filesystem os) (path : FilePath) (temp file : os.File) (start : ℕ)
    (r : ExtentRef) (stop to : ℕ) where
  -- The bytes of the file that are left to move, from byte `at` of the extent on.
  abbrev pub left : ℕ → ℕ
  left at = min (to - at) (stop - cursor_of os fs r at)

  -- The dedupe that stands at byte `at` of the extent: as much as is left.
  abbrev pub ask : ℕ → Io os ℕ
  ask at =
      dedupe os temp (sub64 (add64 fs.sectorsize at) start) (left at) file (cursor_of os fs r at)

  -- Dedupes that succeeded, each where the one before it ended.
  pub data Moved : ℕ → State os → ℕ → State os → Type 0 where
    still : {at : ℕ} {s : State os} → Moved at s at s
    further :
        {at at' : ℕ} {s s' s'' : State os} (n : ℕ)
        → 0 < n
        → n ≤ left at
        → ask at s ≡ (ok n, s')
        → Moved (at + n) s' at' s''
        → Moved at s at' s''

  -- Nothing is left: the stretch, or what the file holds of it, is at its end.
  abbrev pub IsThrough : ℕ → Type 0
  IsThrough at = (to ≤ at) ⊎ (stop ≤ cursor_of os fs r at)

  -- How the loop can end: with all moved, with the error of a dedupe, or with one that moved nothing.
  pub data Redirected (at : ℕ) (s : State os) : Result Failure (Unit {0}) × State os → Type 0 where
    moved :
        (at' : ℕ) {s' : State os} → Moved at s at' s' → IsThrough at' → Redirected at s (ok tt, s')
    refused :
        (at' : ℕ) {s' s'' : State os} (e : IoError)
        → Moved at s at' s'
        → ask at' s' ≡ (err e, s'')
        → Redirected at s (err (charged path e), s'')
    no_progress :
        (at' : ℕ) {s' s'' : State os}
        → Moved at s at' s'
        → ask at' s' ≡ (ok 0, s'')
        → Redirected at s (err (charged path (other_error "dedupe made no progress")), s'')

  Redirected-further :
      (at n : ℕ) (s s' : State os) (x : Result Failure (Unit {0}) × State os)
      → 0 < n
      → n ≤ left at
      → ask at s ≡ (ok n, s')
      → Redirected (at + n) s' x
      → Redirected at s x
  Redirected-further at n s s' x p l e (moved at' m t) = moved at' (further n p l e m) t
  Redirected-further at n s s' x p l e (refused at' why m a) = refused at' why (further n p l e m) a
  Redirected-further at n s s' x p l e (no_progress at' m a) = no_progress at' (further n p l e m) a

  module _ (fits : to < u64_mod) (law : IsDedupe os) where
    pub redirect_loop-Redirected :
        (rounds at : ℕ) (s : State os)
        → to - at ≤ rounds
        → Redirected at s (redirect_loop os fs path temp file start r stop to rounds at s)
    unfolding redirect_loop
    redirect_loop-Redirected zero at s h =
        let ended : ltb at to ≡ false = ground arith in
        rw ended (moved at still (inl (omega arith)))
    redirect_loop-Redirected (suc rounds) at s h =
        elim (Bool-cases (ltb at to && ltb (cursor_of os fs r at) stop)) [
          | inl e ↦ rw e (go (ask at s) refl (ground arith) (redirect_loop-Redirected rounds))
          | inr e ↦ rw e (moved at still (through e))
        ]
      where
        through : (ltb at to && ltb (cursor_of os fs r at) stop) ≡ false → IsThrough at
        through e = elim (Bool-cases (leb to at)) [
          | inl l ↦ inl (leb→le to at l)
          | inr l ↦ inr (ground arith)
        ]

        go :
            (x : Result IoError ℕ × State os)
            → ask at s ≡ x
            → at < to
            → ((a : ℕ) (t : State os)
                → to - a ≤ rounds
                → Redirected a t (redirect_loop os fs path temp file start r stop to rounds a t))
            → Redirected at s (
                and_then (map_err_result (charged path) x) (λ deduped.
                  if deduped == 0
                  then (λ t. (err (charged path (other_error "dedupe made no progress")), t))
                  else redirect_loop os fs path temp file start r stop to rounds
                      (add64 at deduped)))
        go (err e, s') a lt later = refused at e still a
        go (ok n, s') a lt later = elim (Bool-cases (n == 0)) [
          | inl z ↦ rw z (no_progress at still (a ∙ ap (λ m. (ok m, s')) (==→≡ n 0 z)))
          | inr z ↦
              let some_bytes : 0 < n = ground arith in
              let le = dedupe-le law temp _ (left at) file _ s s' n a in
              let plain : add64 at n ≡ at + n = add64-eq at n (omega arith) in
              rw (z, plain)
                (Redirected-further at n s s' _ some_bytes le a (later (at + n) s' (omega arith)))
        ]
