-- ===== src/Run/Redirect/Keeps.antt =====
-- Pointing files at the copy keeps what dedupe from temporary files keeps.
use btrealloc.Prelude.{ℕ, zero, suc, List, [], ◌∷◌}
use btrealloc.Extent.{ExtentRef}
use btrealloc.Kernel.Os.{Os, FilePath, State, Filesystem}
use btrealloc.Kernel.Keeps.{
  Yields, Keeps, OnWorld, Yields-raise, Keeps-pure, Yields-if, Yields-bind, Keeps-bind,
  Yields-map_err, keeps_rules,
}
use btrealloc.Kernel.Keeps.Calls.{Harmless}
use btrealloc.Kernel.Keeps.Temp.{dedupe-Keeps}
use btrealloc.Run.Locate.{Located, open_located}
use btrealloc.Run.Locate.Keeps.{call-Keeps}
use btrealloc.Run.Copy.{LiveRange, HolderBefore}
use btrealloc.Run.Copy.Keeps.{stage-Yields}
use btrealloc.Run.Redirect.{
  redirect_loop, redirect_ref, redirect_refs, redirect_chunks, redirect_tail, check_unmodified,
  finish_holder,
}

module _ {os : Os} {I : os.World → Type 0} {IsTemp IsDest : os.File → Type 0}
    (q : Harmless os I IsTemp IsDest) (fs : Filesystem os) where
  abbrev On : State os → Type 0
  On = OnWorld {os = os} I

  module _ (path : FilePath) (src : os.File) (temp : IsTemp src) (dest : os.File)
      (d : IsDest dest) where
    redirect_loop-Keeps :
        (start : ℕ) (r : ExtentRef) (stop to rounds at : ℕ)
        → Keeps On (redirect_loop os fs path src dest start r stop to rounds at)
    unfolding redirect_loop
    redirect_loop-Keeps start r stop to zero at = Yields-if _ (Yields-raise _) (Keeps-pure _)
    redirect_loop-Keeps start r stop to (suc rounds) at =
        Yields-if _
          (Keeps-bind (Yields-map_err _ (dedupe-Keeps q src temp _ _ dest d _)) (λ deduped.
            Yields-if _ (Yields-raise _) (redirect_loop-Keeps start r stop to rounds _)))
          (Keeps-pure _)

    redirect_ref-Keeps :
        (range : LiveRange) (size : ℕ) (r : ExtentRef)
        → Keeps On (redirect_ref os fs path src dest range size r)
    unfolding redirect_ref
    redirect_ref-Keeps range size r =
        Yields-if _ (Keeps-pure _) (redirect_loop-Keeps range.start r _ _ _ _)

    pub redirect_refs-Keeps :
        (range : LiveRange) (size : ℕ) (rs : List ExtentRef)
        → Keeps On (redirect_refs os fs path src dest range size rs)
    unfolding redirect_refs
    redirect_refs-Keeps range size [] = Keeps-pure _
    redirect_refs-Keeps range size (r ∷ rs) =
        Keeps-bind (redirect_ref-Keeps range size r) (λ done. redirect_refs-Keeps range size rs)

  pub redirect_chunks-Keeps :
      (l : Located) (opens : Yields On IsDest (open_located os fs l)) (src : os.File)
      → IsTemp src
      → (range : LiveRange) (size : ℕ) → Keeps On (redirect_chunks os fs l src range size)
  unfolding redirect_chunks
  redirect_chunks-Keeps l opens src temp range size =
      Yields-bind opens
        (λ file d. redirect_refs-Keeps l.path src temp file d range size l.holder.refs)

  redirect_tail-Keeps :
      (path : FilePath) (file : os.File)
      → IsDest file
      → (from size : ℕ) → Keeps On (redirect_tail os fs path file from size)
  unfolding redirect_tail
  redirect_tail-Keeps path file d from size =
      Keeps-bind (call-Keeps q.reads fs path _ (q.reads.read_exact_at file from _)) (λ tail.
        Yields-bind (stage-Yields q fs path tail) (λ src temp.
          Keeps-bind (Yields-map_err _ (dedupe-Keeps q src temp _ _ file d from))
            (λ done. Keeps-pure _)))

  check_unmodified-Keeps :
      (path : FilePath) (file : os.File) (before : HolderBefore)
      → Keeps On (check_unmodified os fs path file before)
  unfolding check_unmodified
  check_unmodified-Keeps path file before = search (keeps_rules, q.reads.metadata file) depth 12

  pub finish_holder-Keeps :
      (l : Located) (opens : Yields On IsDest (open_located os fs l)) (before : HolderBefore)
      → Keeps On (finish_holder os fs l before)
  unfolding finish_holder
  finish_holder-Keeps l opens before = Yields-bind opens (λ file d.
      Keeps-bind (Yields-if _ (redirect_tail-Keeps l.path file d _ _) (Keeps-pure _))
        (λ done. check_unmodified-Keeps l.path file before))
