-- ===== src/Run/Process/Outcomes.antt =====
-- What `Runner::process` of src/run.rs comes to, and how its report accounts for it.
use Prim.Native.String.{String}
use btrealloc.Prelude.{
  ℕ, ◌≡◌, ◌≢◌, refl, Bool, true, false, Bool-cases, Option, none, some, List, [], ◌∷◌, ◌++◌, inl,
  inr, ◌⊎◌, add64,
}
use btrealloc.Io.{Result, ok, err, ErrorKind, invalid_data, custom, kind, attempt}
use btrealloc.Abi.{Abi}
use btrealloc.Extent.{Extent, LeftAlone, failed, holders, live_uncompressed_bytes, disk_free_bytes}
use btrealloc.Kernel.Os.{Os, State, Filesystem}
use btrealloc.Kernel.Files.{fatal}
use btrealloc.Kernel.Keeps.Calls.{any_answer}
use btrealloc.Kernel.Keeps.{Post}
use btrealloc.Run.Locate.{Failure, Located, locate_holders}
use btrealloc.Run.Locate.Keeps.{IsHolderReason, LocatesAll, locate_holders-Yields}
use btrealloc.Run.Process.{
  realloc_extent, Report, Outcome, file_failure, report_failed, report_rewritten, rewrite,
  outcome_of, process,
}

-- One failure more is filed, in the one list or the other.
pub record FilesOne (before after : Report) (f : Failure) : Type 0 where
  pub rewritten : after.rewritten ≡ before.rewritten
  pub copied_bytes : after.copied_bytes ≡ before.copied_bytes
  pub freed_bytes : after.freed_bytes ≡ before.freed_bytes
  pub filed :
      ((kind f.error ≡ invalid_data)
        × (after.modified ≡ before.modified ++ (f.path, f.error) ∷ [])
        × (after.skipped ≡ before.skipped))
      ⊎ ((kind f.error ≢ invalid_data)
          × (after.skipped ≡ before.skipped ++ (f.path, f.error) ∷ [])
          × (after.modified ≡ before.modified))

pub record Rewrote (before after : Report) (e : Extent) : Type 0 where
  pub rewritten : after.rewritten ≡ before.rewritten ++ e.disk_address ∷ []
  pub copied_bytes : after.copied_bytes ≡ add64 before.copied_bytes (live_uncompressed_bytes e)
  pub freed_bytes : after.freed_bytes ≡ add64 before.freed_bytes (disk_free_bytes e)
  pub skipped : after.skipped ≡ before.skipped
  pub modified : after.modified ≡ before.modified

-- How a failure is accounted for: it is filed, and the extent is left alone as failed; or it is one after
-- which no rewrite can succeed, ends the run with an error of its kind, and the report stays as it is.
abbrev pub IsFailure : Abi → Report → Failure → Outcome → Type 0
IsFailure abi before f (ok none, after) = ⊥
IsFailure abi before f (ok (some reason), after) =
    (reason ≡ failed) × (fatal abi f.error ≡ none) × FilesOne before after f
IsFailure abi before f (err error, after) =
    (after ≡ before)
    × (hint : String) × (fatal abi f.error ≡ some hint)
    × (kind error ≡ kind f.error)

module _ (before : Report) (f : Failure) where
  file_failure-FilesOne : FilesOne before (file_failure before f) f
  unfolding file_failure
  file_failure-FilesOne =
      elim (kind f.error) as (λ k. kind f.error ≡ k → FilesOne before (filed k) f) [
        | invalid_data ↦ λ e. record {
          rewritten = refl;
          copied_bytes = refl;
          freed_bytes = refl;
          filed = inl (e, refl, refl);
        }
        | _ ↦ λ e. record {
          rewritten = refl;
          copied_bytes = refl;
          freed_bytes = refl;
          filed = inr ((λ b. cc), refl, refl);
        }
      ]
        refl
    where
      filed : ErrorKind → Report
      filed k = elim k [
        | invalid_data ↦ record before { modified = before.modified ++ (f.path, f.error) ∷ [] }
        | _ ↦ record before { skipped = before.skipped ++ (f.path, f.error) ∷ [] }
      ]

  report_failed-IsFailure : (abi : Abi) → IsFailure abi before f (report_failed abi before f)
  unfolding report_failed kind
  report_failed-IsFailure abi =
      elim (fatal abi f.error)
          as (λ o. fatal abi f.error ≡ o → IsFailure abi before f (verdict o)) [
            | none ↦ λ n. (refl, n, file_failure-FilesOne)
            | some hint ↦ λ h. (refl, hint, h, refl)
          ]
        refl
    where
      verdict : Option String → Outcome
      verdict o = elim o [
        | some hint ↦ (err (custom (kind f.error) "stopped at"), before)
        | none ↦ (ok (some failed), file_failure before f)
      ]

report_rewritten-Rewrote :
    (before : Report) (e : Extent) → Rewrote before (report_rewritten before e) e
unfolding report_rewritten
report_rewritten-Rewrote before e = record {
  rewritten = refl;
  copied_bytes = refl;
  freed_bytes = refl;
  skipped = refl;
  modified = refl;
}

module _ (os : Os) (fuel : ℕ) (fs : Filesystem os) (apply : Bool) (before : Report)
    (e : Extent) where
  -- How `process` accounts for what locating the holders, and then rewriting the extent, came to.
  pub data Accounts (s : State os) : Outcome → State os → Type 0 where
    not_located :
        {o : Outcome} {t : State os} (f : Failure)
        → locate_holders os fuel fs e s ≡ (err f, t)
        → IsFailure os.abi before f o
        → Accounts s o t
    left_alone :
        {t : State os} (reason : LeftAlone)
        → locate_holders os fuel fs e s ≡ (ok (err reason), t)
        → IsHolderReason reason
        → Accounts s (ok (some reason), before) t
    only_counted :
        {t : State os} {after : Report} (located : List Located)
        → apply ≡ false
        → locate_holders os fuel fs e s ≡ (ok (ok located), t)
        → Rewrote before after e
        → Accounts s (ok none, after) t
    rewritten :
        {t s' : State os} {after : Report} (located : List Located)
        → apply ≡ true
        → locate_holders os fuel fs e s ≡ (ok (ok located), t)
        → realloc_extent os fuel fs e located t ≡ (ok tt, s')
        → Rewrote before after e
        → Accounts s (ok none, after) s'
    not_rewritten :
        {o : Outcome} {t s' : State os} (located : List Located) (f : Failure)
        → apply ≡ true
        → locate_holders os fuel fs e s ≡ (ok (ok located), t)
        → realloc_extent os fuel fs e located t ≡ (err f, s')
        → IsFailure os.abi before f o
        → Accounts s o s'

  abbrev IsProcessed : State os → Type 0
  IsProcessed s =
      (o : Outcome) × (s' : State os) × (process os fuel fs apply before e s ≡ (ok o, s'))
      × Accounts s o s'

  -- What the rewrite came to, in a run that is to do any.
  applied :
      (on : apply ≡ true) (s t : State os) (located : List Located)
      → locate_holders os fuel fs e s ≡ (ok (ok located), t)
      → (x : Result Failure (Unit {0}) × State os) → realloc_extent os fuel fs e located t ≡ x
      → IsProcessed s
  unfolding process attempt rewrite outcome_of
  applied on s t located l (err f, s') r = (
    report_failed os.abi before f,
    s',
    rw (l, on, r) refl,
    not_rewritten located f on l r (report_failed-IsFailure before f os.abi),
  )
  applied on s t located l (ok done, s') r = (
    (ok none, report_rewritten before e),
    s',
    rw (l, on, r) refl,
    rewritten located on l r (report_rewritten-Rewrote before e),
  )

  -- What locating the holders came to.
  located_by :
      (s : State os) (x : Result Failure (Result LeftAlone (List Located)) × State os)
      → locate_holders os fuel fs e s ≡ x
      → Post (LocatesAll (holders e)) x.0
      → IsProcessed s
  unfolding process attempt rewrite outcome_of
  located_by s (err f, t) l h = (
    report_failed os.abi before f,
    t,
    rw l refl,
    not_located f l (report_failed-IsFailure before f os.abi),
  )
  located_by s (ok (err reason), t) l h =
      ((ok (some reason), before), t, rw l refl, left_alone reason l h)
  located_by s (ok (ok located), t) l h = elim (Bool-cases apply) [
    | inl on ↦ applied on s t located l (realloc_extent os fuel fs e located t) refl
    | inr off ↦ (
      (ok none, report_rewritten before e),
      t,
      rw (l, off) refl,
      only_counted located off l (report_rewritten-Rewrote before e),
    )
  ]

-- Whatever the kernel answers, `process` does not fail itself: it returns an outcome, and accounts for
-- what locating the holders and, with `apply`, then rewriting the extent came to. Where both succeed (or
-- without `apply` the first, and nothing is rewritten), the extent is added to the report with the bytes
-- that this copies and frees. Where a holder gave a reason, it is left alone for that reason, and the
-- report stays as it is. Where one of them fails, with an error that is not fatal, the extent is left
-- alone as failed, and this very failure is filed once, as modified if its kind is `InvalidData`, and
-- as skipped else; with a fatal error, an error of its kind ends the run, and the report stays as it is.
pub process-Accounts :
    (os : Os) (fuel : ℕ) (fs : Filesystem os) (apply : Bool) (before : Report) (e : Extent)
    (s : State os)
    → (o : Outcome) × (s' : State os) × (process os fuel fs apply before e s ≡ (ok o, s'))
      × Accounts os fuel fs apply before e s o s'
process-Accounts os fuel fs apply before e s =
    located_by os fuel fs apply before e s (locate_holders os fuel fs e s) refl
      ((locate_holders-Yields (any_answer os) fs fuel e).at s tt).1
