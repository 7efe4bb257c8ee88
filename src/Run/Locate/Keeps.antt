-- ===== src/Run/Locate/Keeps.antt =====
-- Locating the holders of an extent keeps whatever the reading calls keep.
use btrealloc.Prelude.{ℕ, ◌≡◌, refl, map, List, [], ◌∷◌}
use btrealloc.Io.{Result, ok, err, IoError, not_found, kind, pure, raise, map_err, ◌>>=◌}
use btrealloc.Extent.{Extent, Holder, LeftAlone, no_data_cow, past_end, deleted, holders}
use btrealloc.Kernel.Os.{Os, FilePath, State, Filesystem, on_world}
use btrealloc.Kernel.Keeps.{
  Yields, Keeps, OnWorld, Yields-raise, Yields-pure, Yields-bind, Yields-if, Keeps-bind,
  Keeps-bind_result, Yields-option, Keeps-attempt, Keeps-on_world, Yields-map_err,
}
use btrealloc.Kernel.Keeps.Calls.{Reads}
use btrealloc.Kernel.Keeps.Files.{open_inode-Keeps, is_nocow-Keeps}
use btrealloc.Kernel.Keeps.Paths.{inode_path-Keeps}
use btrealloc.Run.Locate.{
  charged, Run, Located, unnamed, open_located, check_located, locate_failed, locate_one,
  locate_loop, locate_holders,
}

-- The reasons that a holder can give for its extent to be left alone.
abbrev pub IsHolderReason : LeftAlone → Type 0
IsHolderReason no_data_cow = Unit
IsHolderReason past_end = Unit
IsHolderReason deleted = Unit
IsHolderReason _ = ⊥

abbrev pub LocatesOne : Holder → Result LeftAlone Located → Type 0
LocatesOne h (err reason) = IsHolderReason reason
LocatesOne h (ok l) = l.holder ≡ h

-- Each of the holders is located, in order, or one of them gives a reason.
abbrev pub LocatesAll : List Holder → Result LeftAlone (List Located) → Type 0
LocatesAll hs (err reason) = IsHolderReason reason
LocatesAll hs (ok ls) = map (λ l. l.holder) ls ≡ hs

module _ {os : Os} {I : os.World → Type 0} (q : Reads os I) (fs : Filesystem os) where
  abbrev On : State os → Type 0
  On = OnWorld {os = os} I

  -- A call of the system whose failures are charged to a file.
  pub call-Keeps :
      {A : Type 0} (path : FilePath) (m : os.World → Result IoError A × os.World)
      → ((w : os.World) → I w → I (m w).1)
      → Keeps On (map_err (charged path) (on_world {os = os} m))
  call-Keeps path m k = Yields-map_err _ (Keeps-on_world {os = os} I m k)

  pub open_located-Keeps : (l : Located) → Keeps On (open_located os fs l)
  unfolding open_located
  open_located-Keeps l =
      Yields-map_err _ (open_inode-Keeps q fs l.name l.holder.root l.holder.inode)

  module _ (fuel : ℕ) where
    check_located-Yields :
        (l : Located) → Yields On (LocatesOne l.holder) (check_located os fuel fs l)
    unfolding check_located
    check_located-Yields l = Keeps-bind (open_located-Keeps l) (λ file.
        Keeps-bind (Yields-map_err _ (is_nocow-Keeps q file)) (λ nocow.
          Yields-if nocow (Yields-pure _ tt) (
            Keeps-bind (call-Keeps l.path (os.metadata file) (q.metadata file))
              (λ meta. Yields-if _ (Yields-pure _ tt) (Yields-pure _ refl)))))

    locate_failed-Yields :
        (h : Holder) (e : IoError) → Yields On (LocatesOne h) (locate_failed os fuel fs h e)
    unfolding locate_failed
    locate_failed-Yields h e =
        elim (kind e)
          as (λ k. Yields On (LocatesOne h) (elim k as (λ _. Run os (Result LeftAlone Located)) [
            | not_found ↦ pure (err deleted)
            | _ ↦ raise (charged (unnamed h) e)
          ])) [ not_found ↦ Yields-pure _ tt | _ ↦ Yields-raise _ ]

    locate_one-Yields : (h : Holder) → Yields On (LocatesOne h) (locate_one os fuel fs h)
    unfolding locate_one
    locate_one-Yields h =
        Keeps-bind_result _ (Keeps-attempt (inode_path-Keeps q fuel fs h.root h.inode))
          (locate_failed-Yields h)
          (Yields-option _ (Yields-raise _) (λ name. check_located-Yields _))

    locate_loop-Yields : (hs : List Holder) → Yields On (LocatesAll hs) (locate_loop os fuel fs hs)
    unfolding locate_loop
    locate_loop-Yields [] = Yields-pure _ refl
    locate_loop-Yields (h ∷ hs) = Yields-bind (locate_one-Yields h) (λ one.
        elim one as (λ one. LocatesOne h one → Yields On (LocatesAll (h ∷ hs)) (after_one one)) [
          | err reason ↦ λ given. Yields-pure _ given
          | ok l ↦ λ same. Yields-bind (locate_loop-Yields hs) (λ rest.
              elim rest
                as (λ rest.
                  LocatesAll hs rest → Yields On (LocatesAll (h ∷ hs)) (after_rest l rest)) [
                    | err reason ↦ λ given. Yields-pure _ given
                    | ok ls ↦ λ all. Yields-pure _ (rw (same, all) refl)
                  ])
        ])
      where
        after_rest :
            Located → Result LeftAlone (List Located) → Run os (Result LeftAlone (List Located))
        after_rest l rest = elim rest [
          | err reason ↦ pure (err reason)
          | ok ls ↦ pure (ok (l ∷ ls))
        ]

        after_one : Result LeftAlone Located → Run os (Result LeftAlone (List Located))
        after_one one = elim one [
          | err reason ↦ pure (err reason)
          | ok l ↦ do rest ← locate_loop os fuel fs hs; after_rest l rest
        ]

    pub locate_holders-Yields :
        (e : Extent) → Yields On (LocatesAll (holders e)) (locate_holders os fuel fs e)
    unfolding locate_holders
    locate_holders-Yields e = locate_loop-Yields (holders e)
