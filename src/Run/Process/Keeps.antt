-- ===== src/Run/Process/Keeps.antt =====
-- Rewriting an extent keeps what dedupe from temporary files keeps.
use btrealloc.Prelude.{ℕ, All, List, [], ◌∷◌}
use btrealloc.Extent.{Extent}
use btrealloc.Kernel.Os.{Os, FilePath, State, Filesystem}
use btrealloc.Kernel.Keeps.{
  Yields, Keeps, OnWorld, Yields-raise, Yields-pure, Keeps-pure, Yields-if, Yields-bind, Keeps-bind,
  Yields-map_err,
}
use btrealloc.Kernel.Keeps.Calls.{Harmless}
use btrealloc.Kernel.Keeps.Reading.{inode_holds_extent-Keeps}
use btrealloc.Run.Locate.{Located, open_located}
use btrealloc.Run.Copy.{LiveRange, HolderBefore}
use btrealloc.Run.Copy.Keeps.{read_liveranges-Keeps, read_before-Keeps, stage-Yields}
use btrealloc.Run.Redirect.Keeps.{redirect_chunks-Keeps, finish_holder-Keeps}
use btrealloc.Run.Process.{
  read_befores, redirect_all, move_ranges, finish_all, check_released, realloc_extent,
}

module _ {os : Os} {I : os.World → Type 0} {IsTemp IsDest : os.File → Type 0}
    (q : Harmless os I IsTemp IsDest) (fuel : ℕ) (fs : Filesystem os) where
  abbrev On : State os → Type 0
  On = OnWorld {os = os} I

  -- The file that a holder is opened as may be written to by a dedupe.
  abbrev pub Opens : Located → Type 0
  Opens l = Yields On IsDest (open_located os fs l)

  abbrev AllOpen : List (Located × HolderBefore) → Type 0
  AllOpen = All (λ p. Opens p.0)

  read_befores-Yields :
      (ls : List Located) → All Opens ls → Yields On AllOpen (read_befores os fuel fs ls)
  unfolding read_befores
  read_befores-Yields [] opens = Yields-pure _ tt
  read_befores-Yields (l ∷ ls) opens = Keeps-bind (read_before-Keeps q.reads fs l) (λ before.
      Yields-bind (read_befores-Yields ls opens.1) (λ rest all. Yields-pure _ (opens.0, all)))

  redirect_all-Keeps :
      (src : os.File)
      → IsTemp src
      → (range : LiveRange) (bs : List (Located × HolderBefore)) → AllOpen bs
      → Keeps On (redirect_all os fuel fs src range bs)
  unfolding redirect_all
  redirect_all-Keeps src temp range [] opens = Keeps-pure _
  redirect_all-Keeps src temp range ((l, before) ∷ bs) opens =
      Keeps-bind (redirect_chunks-Keeps q fs l opens.0 src temp range before.filesize)
        (λ done. redirect_all-Keeps src temp range bs opens.1)

  move_ranges-Keeps :
      (path : FilePath) (ranges : List LiveRange) (bs : List (Located × HolderBefore))
      → AllOpen bs
      → Keeps On (move_ranges os fuel fs path ranges bs)
  unfolding move_ranges
  move_ranges-Keeps path [] bs opens = Keeps-pure _
  move_ranges-Keeps path (range ∷ ranges) bs opens =
      Yields-bind (stage-Yields q fs path range.bytes) (λ src temp.
        Keeps-bind (redirect_all-Keeps src temp range bs opens)
          (λ done. move_ranges-Keeps path ranges bs opens))

  finish_all-Keeps :
      (bs : List (Located × HolderBefore)) → AllOpen bs → Keeps On (finish_all os fuel fs bs)
  unfolding finish_all
  finish_all-Keeps [] opens = Keeps-pure _
  finish_all-Keeps ((l, before) ∷ bs) opens =
      Keeps-bind (finish_holder-Keeps q fs l opens.0 before) (λ done. finish_all-Keeps bs opens.1)

  check_released-Keeps :
      (address : ℕ) (ls : List Located) → Keeps On (check_released os fuel fs address ls)
  unfolding check_released
  check_released-Keeps address [] = Keeps-pure _
  check_released-Keeps address (l ∷ ls) =
      Keeps-bind (Yields-map_err _ (inode_holds_extent-Keeps q.reads fs fuel _ _ _ _ address))
        (λ held. Yields-if held (Yields-raise _) (check_released-Keeps address ls))

  pub realloc_extent-Keeps :
      (e : Extent) (ls : List Located) → All Opens ls → Keeps On (realloc_extent os fuel fs e ls)
  unfolding realloc_extent
  realloc_extent-Keeps e ls opens = Keeps-bind (read_liveranges-Keeps q.reads fs e ls) (λ ranges.
      Yields-bind (read_befores-Yields ls opens) (λ befores all.
        Keeps-bind (move_ranges-Keeps _ ranges befores all) (λ moved.
          Keeps-bind (finish_all-Keeps befores all)
            (λ done. check_released-Keeps e.disk_address ls))))
