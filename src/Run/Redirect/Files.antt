-- ===== src/Run/Redirect/Files.antt =====
-- `redirect_chunks` of src/run.rs: what its success says of a whole file and all its references.
use btrealloc.Prelude.{
  ℕ, ◌+◌, ◌-◌, ◌≡◌, ap, All-mono, false, inl, inr, arith, min, max, leb, Bool-cases, List, [], ◌∷◌,
  All, add64, add64-eq,
}
use mathlib.Core.Path.{subst}
use btrealloc.Io.{Result, ok}
use btrealloc.Io.Returned.{bind-ok}
use btrealloc.Extent.{ExtentRef, ref_end}
use btrealloc.Kernel.Os.{Os, FilePath, State, Filesystem}
use btrealloc.Run.Locate.{Failure, Located, open_located}
use btrealloc.Run.Copy.{LiveRange}
use btrealloc.Run.Redirect.{redirect_ref, redirect_refs, redirect_chunks}
use btrealloc.Run.Redirect.Chunks.{IsDedupe, redirect_loop-Redirected}
use btrealloc.Run.Redirect.Moved.{
  Fits, Dedupes, no_more, Dedupes-join, AllMoved, AllMoved-within, Redirected-IsMoved,
  Redirected-Dedupes,
}

module _ (os : Os) (fs : Filesystem os) (temp file : os.File) (range : LiveRange) where
  redirect_ref-Dedupes :
      (law : IsDedupe os) (path : FilePath) (size : ℕ) (r : ExtentRef) (s s' : State os)
      → Fits r
      → redirect_ref os fs path temp file range size r s ≡ (ok tt, s')
      → Dedupes os fs temp file range s s'
  unfolding redirect_ref ref_end
  redirect_ref-Dedupes law path size r s s' fits e =
      let stop = min (add64 r.file_offset r.num_bytes) size in
      let at = max r.extent_offset range.start in
      let end = min (ref_end r) range.end in
      let ref_ends : ref_end r ≡ r.extent_offset + r.num_bytes =
        add64-eq r.extent_offset r.num_bytes fits.0 in
      elim (Bool-cases (leb stop r.file_offset)) [
        | inl none_here ↦
            let e' : ◌≡◌ {A = Result Failure (Unit {0}) × State os} (ok tt, s) (ok tt, s') =
              rw none_here at e in
            let same : s ≡ s' = ap (λ p. p.1) e' in
            subst (Dedupes os fs temp file range s) same no_more
        | inr some_file ↦
            let ends =
              redirect_loop-Redirected os fs path temp file range.start r stop end
                (omega (arith, ref_ends, fits.0)) law (end - at) at s (omega arith) in
            Redirected-Dedupes os fs temp file range path r stop end at s s' _ ends
              (rw some_file at e)
      ]

  redirect_ref-AllMoved :
      (law : IsDedupe os) (path : FilePath) (size : ℕ) (r : ExtentRef) (s s' : State os)
      → Fits r
      → redirect_ref os fs path temp file range size r s ≡ (ok tt, s')
      → AllMoved os fs temp file range size s s' r
  unfolding redirect_ref ref_end
  redirect_ref-AllMoved law path size r s s' fits e x from to held within inside =
      let stop = min (add64 r.file_offset r.num_bytes) size in
      let at = max r.extent_offset range.start in
      let end = min (ref_end r) range.end in
      let file_end : add64 r.file_offset r.num_bytes ≡ r.file_offset + r.num_bytes =
        add64-eq r.file_offset r.num_bytes fits.1 in
      let ref_ends : ref_end r ≡ r.extent_offset + r.num_bytes =
        add64-eq r.extent_offset r.num_bytes fits.0 in
      let some_file : leb stop r.file_offset ≡ false = ground (arith, file_end) in
      let ends =
        redirect_loop-Redirected os fs path temp file range.start r stop end
          (omega (arith, ref_ends, fits.0)) law (end - at) at s (omega arith) in
      Redirected-IsMoved os fs temp file range path r stop end at s s' _ x fits (omega arith)
        (omega arith) (omega (arith, ref_ends)) within (omega (arith, file_end)) ends
        (rw some_file at e)

  redirect_refs-AllMoved :
      (law : IsDedupe os) (path : FilePath) (size : ℕ) (refs : List ExtentRef) (s s' : State os)
      → All Fits refs
      → redirect_refs os fs path temp file range size refs s ≡ (ok tt, s')
      → Dedupes os fs temp file range s s' × All (AllMoved os fs temp file range size s s') refs
  unfolding redirect_refs
  redirect_refs-AllMoved law path size [] s s' fits e =
      let e' : ◌≡◌ {A = Result Failure (Unit {0}) × State os} (ok tt, s) (ok tt, s') = e in
      let same : s ≡ s' = ap (λ p. p.1) e' in
      (subst (Dedupes os fs temp file range s) same no_more, tt)
  redirect_refs-AllMoved law path size (r ∷ refs) s s' fits e =
      let (_, t, here, later) =
        bind-ok (redirect_ref os fs path temp file range size r)
          (λ _. redirect_refs os fs path temp file range size refs) tt s s' e in
      let first = redirect_ref-Dedupes law path size r s t fits.0 here in
      let (last, all) = redirect_refs-AllMoved law path size refs t s' fits.1 later in
      (
        Dedupes-join os fs temp file range s t s' first last,
        (
          AllMoved-within os fs temp file range size s s t s' r no_more last
              (redirect_ref-AllMoved law path size r s t fits.0 here),
          All-mono (λ q. AllMoved-within os fs temp file range size s t s' s' q first no_more) refs
              all,
        ),
      )

module _ (os : Os) (fs : Filesystem os) where
  -- That from one state to another a holder's file was opened, and by dedupes alone everything moved
  -- that it holds of a stretch.
  pub record IsRedirected (temp : os.File) (range : LiveRange) (l : Located) (size : ℕ)
      (s s' : State os) : Type 0 where
    pub file : os.File
    pub opened : State os
    pub opens : open_located os fs l s ≡ (ok file, opened)
    pub dedupes : Dedupes os fs temp file range opened s'
    pub moved_all : All (AllMoved os fs temp file range size opened s') l.holder.refs

  pub redirect_chunks-IsRedirected :
      (law : IsDedupe os) (l : Located) (temp : os.File) (range : LiveRange) (size : ℕ)
      (s s' : State os)
      → All Fits l.holder.refs
      → redirect_chunks os fs l temp range size s ≡ (ok tt, s')
      → IsRedirected temp range l size s s'
  unfolding redirect_chunks
  redirect_chunks-IsRedirected law l temp range size s s' fits e =
      let (file, t, opened, rest) =
        bind-ok (open_located os fs l)
          (λ file. redirect_refs os fs l.path temp file range size l.holder.refs) tt s s' e in
      let (dedupes, moved_all) =
        redirect_refs-AllMoved os fs temp file range law l.path size l.holder.refs t s' fits rest in
      record { file = file; opened = t; opens = opened; dedupes = dedupes; moved_all = moved_all }
