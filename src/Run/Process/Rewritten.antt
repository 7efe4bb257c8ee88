-- ===== src/Run/Process/Rewritten.antt =====
-- `realloc_extent` of src/run.rs: what its success says.
use btrealloc.Prelude.{ℕ, ◌≡◌, List, Chain, map}
use btrealloc.Io.{ok}
use btrealloc.Extent.{Extent}
use btrealloc.Kernel.Os.{Os, FilePath, State, Filesystem}
use btrealloc.Run.Locate.{Located}
use btrealloc.Run.Copy.{LiveRange, read_liveranges, stage}
use btrealloc.Run.Redirect.Files.{IsRedirected}
use btrealloc.Run.Process.{first_path}
use btrealloc.Run.Process.Finished.{Measured, IsUnmodified, IsReleased, IsMeasured}

module _ (os : Os) (fuel : ℕ) (fs : Filesystem os) where
  -- That from one state to another a stretch was written to a temporary file, and then everything that
  -- the holders hold of it was moved to that, holder after holder.
  pub record IsStaged (path : FilePath) (befores : List Measured) (range : LiveRange)
      (s s' : State os) : Type 0 where
    pub temp : os.File
    pub after : State os
    pub staged : stage os fs path range.bytes s ≡ (ok temp, after)
    pub redirected :
        Chain (λ m t u. IsRedirected os fs temp range m.0 m.1.filesize t u) befores after s'

  -- What the success of a rewrite comes to: what happened between which states, each step beginning in
  -- the state in which the one before it has ended.
  pub record IsRewritten (extent : Extent) (located : List Located) (s s' : State os) : Type 0 where
    pub stretches : List LiveRange
    pub read : State os
    pub copied : read_liveranges os fs extent located s ≡ (ok stretches, read)
    pub befores : List Measured
    pub of_holders : map (λ m. m.0) befores ≡ located
    pub ready : State os
    pub measured : Chain (IsMeasured os fuel fs) befores read ready
    pub moved : State os
    pub staged : Chain (IsStaged (first_path os fuel fs located) befores) stretches ready moved
    pub finished : State os
    pub unmodified : Chain (IsUnmodified os fuel fs) befores moved finished
    pub released : Chain (IsReleased os fuel fs extent.disk_address) located finished s'
