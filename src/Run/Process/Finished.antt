-- ===== src/Run/Process/Finished.antt =====
-- The ends of `realloc_extent` of src/run.rs: what its files are measured as before anything moves, and
-- what is looked at again when everything has.
use btrealloc.Prelude.{
  ℕ, Bool, true, ◌≡◌, refl, ap, false, List, [], ◌∷◌, ◌==◌, ==→≡, Bool-cases, inl, inr, ◌⊎◌, Chain,
  map, if◌then◌else◌,
}
use mathlib.Core.Path.{subst}
use btrealloc.Io.{Action, Result, ok, IoError, map_err, pure}
use btrealloc.Io.Returned.{bind-ok, map_err-ok, failed-ne-ok}
use btrealloc.Kernel.Os.{Os, FilePath, State, Metadata, Filesystem, Io, on_world}
use btrealloc.Kernel.Refs.{inode_holds_extent}
use btrealloc.Run.Locate.{Failure, charged, Run, Located, open_located}
use btrealloc.Run.Copy.{HolderBefore, read_before}
use btrealloc.Run.Redirect.{needs_tail, tail_start, redirect_tail, check_unmodified, finish_holder}
use btrealloc.Run.Process.{first_offset, last_offset, read_befores, finish_all, check_released}

abbrev pub Measured : Type 0
Measured = Located × HolderBefore

module _ (os : Os) (fuel : ℕ) (fs : Filesystem os) where
  -- That from one state to another a file was opened, its last sector moved where it is to be, and then,
  -- as the last call of all, its size and its time were found to be what they were.
  pub record IsUnmodified (m : Measured) (s s' : State os) : Type 0 where
    pub file : os.File
    pub opened : State os
    pub opens : open_located os fs m.0 s ≡ (ok file, opened)
    pub tailed : State os
    pub tail_moved :
        ((needs_tail os fs m.1.filesize m.0.holder.refs ≡ false) × (opened ≡ tailed))
        ⊎ (redirect_tail os fs m.0.path file (tail_start os fs m.1.filesize) m.1.filesize opened
            ≡ (ok tt, tailed))
    pub meta : Metadata
    pub said : os.metadata file tailed.world ≡ (ok meta, s'.world)
    pub same_size : m.1.filesize ≡ meta.len
    pub same_time : m.1.modified ≡ meta.modified

  -- That from one state to another a search of the file's references found none to the extent.
  abbrev pub IsReleased : ℕ → Located → State os → State os → Type 0
  IsReleased disk_address l s s' =
      inode_holds_extent os fuel fs l.holder.root l.holder.inode (first_offset l.holder.refs)
        (last_offset l.holder.refs) disk_address s
      ≡ (ok false, s')

  abbrev Says : {A : Type 0} → Io os A → A → State os → State os → Type 0
  Says m a s s' = m s ≡ (ok a, s')

  on_world-ok :
      {A : Type 0} (m : Action os.World IoError A) (a : A) (s s' : State os)
      → on_world {os = os} m s ≡ (ok a, s')
      → m s.world ≡ (ok a, s'.world)
  on_world-ok m a s s' e = ap (λ p. (p.0, p.1.world)) e

  -- Where nothing was done, the state is the same.
  pub done-eq :
      (s s' : State os)
      → ◌≡◌ {A = Result Failure (Unit {0}) × State os} (ok tt, s) (ok tt, s')
      → s ≡ s'
  done-eq s s' e = ap (λ p. p.1) e

  pub check_released-IsReleased :
      (disk_address : ℕ) (ls : List Located) (s s' : State os)
      → check_released os fuel fs disk_address ls s ≡ (ok tt, s')
      → Chain (IsReleased disk_address) ls s s'
  unfolding check_released
  check_released-IsReleased disk_address [] s s' e = done-eq s s' e
  check_released-IsReleased disk_address (l ∷ ls) s s' e =
      let search =
        inode_holds_extent os fuel fs l.holder.root l.holder.inode (first_offset l.holder.refs)
          (last_offset l.holder.refs) disk_address in
      let (held, t, searched, rest) = bind-ok (map_err (charged l.path) search) _ tt s s' e in
      let found : search s ≡ (ok held, t) = map_err-ok (charged l.path) search held s t searched in
      elim (Bool-cases held) [
        | inl h ↦ absurd (failed-ne-ok (rw h at rest))
        | inr h ↦ (t, rw h at found, check_released-IsReleased disk_address ls t s' (rw h at rest))
      ]

  check_unmodified-same :
      (path : FilePath) (file : os.File) (before : HolderBefore) (s s' : State os)
      → check_unmodified os fs path file before s ≡ (ok tt, s')
      → (meta : Metadata) × (os.metadata file s.world ≡ (ok meta, s'.world))
        × (before.filesize ≡ meta.len)
        × (before.modified ≡ meta.modified)
  unfolding check_unmodified
  check_unmodified-same path file before s s' e =
      let metadata : Io os Metadata = on_world (os.metadata file) in
      let (meta, t, said, rest) = bind-ok (map_err (charged path) metadata) _ tt s s' e in
      let known : metadata s ≡ (ok meta, t) = map_err-ok (charged path) metadata meta s t said in
      elim (Bool-cases (before.filesize == meta.len)) [
        | inr z ↦ absurd (failed-ne-ok (rw z at rest))
        | inl z ↦ elim (Bool-cases (before.modified == meta.modified)) [
          | inr y ↦ absurd (failed-ne-ok (rw (z, y) at rest))
          | inl y ↦
              let same : t ≡ s' = done-eq t s' (rw (z, y) at rest) in
              (
                meta,
                on_world-ok (os.metadata file) meta s s' (subst (Says metadata meta s) same known),
                ==→≡ before.filesize meta.len z,
                ==→≡ before.modified meta.modified y,
              )
        ]
      ]

  if_needed :
      (needed : Bool) (m : Run os (Unit {0})) (s s' : State os)
      → (if needed then m else pure tt) s ≡ (ok tt, s')
      → ((needed ≡ false) × (s ≡ s')) ⊎ (m s ≡ (ok tt, s'))
  if_needed true m s s' e = inr e
  if_needed false m s s' e = inl (refl, done-eq s s' e)

  finish_holder-IsUnmodified :
      (l : Located) (before : HolderBefore) (s s' : State os)
      → finish_holder os fs l before s ≡ (ok tt, s')
      → IsUnmodified (l, before) s s'
  unfolding finish_holder
  finish_holder-IsUnmodified l before s s' e =
      let (file, t, opened, rest) = bind-ok (open_located os fs l) _ tt s s' e in
      let tail : Run os (Unit {0}) =
        if needs_tail os fs before.filesize l.holder.refs
        then redirect_tail os fs l.path file (tail_start os fs before.filesize) before.filesize
        else pure tt in
      let (_, u, tailed, last) =
        bind-ok tail (λ _. check_unmodified os fs l.path file before) tt t s' rest in
      let (meta, said, same_size, same_time) = check_unmodified-same l.path file before u s' last in
      record {
        file = file;
        opened = t;
        opens = opened;
        tailed = u;
        tail_moved =
            if_needed (needs_tail os fs before.filesize l.holder.refs)
              (redirect_tail os fs l.path file (tail_start os fs before.filesize) before.filesize) t
              u tailed;
        meta = meta;
        said = said;
        same_size = same_size;
        same_time = same_time;
      }

  pub finish_all-IsUnmodified :
      (befores : List Measured) (s s' : State os)
      → finish_all os fuel fs befores s ≡ (ok tt, s')
      → Chain IsUnmodified befores s s'
  unfolding finish_all
  finish_all-IsUnmodified [] s s' e = done-eq s s' e
  finish_all-IsUnmodified ((l, before) ∷ rest) s s' e =
      let (_, t, here, later) =
        bind-ok (finish_holder os fs l before) (λ _. finish_all os fuel fs rest) tt s s' e in
      (t, finish_holder-IsUnmodified l before s t here, finish_all-IsUnmodified rest t s' later)

  -- What each holder was before anything moved, as its file said.
  abbrev pub IsMeasured : Measured → State os → State os → Type 0
  IsMeasured m s s' = read_before os fs m.0 s ≡ (ok m.1, s')

  pub read_befores-IsMeasured :
      (ls : List Located) (befores : List Measured) (s s' : State os)
      → read_befores os fuel fs ls s ≡ (ok befores, s')
      → (map (λ m. m.0) befores ≡ ls) × Chain IsMeasured befores s s'
  unfolding read_befores
  read_befores-IsMeasured [] befores s s' e =
      let same : [] ≡ befores = cc in
      let ended : s ≡ s' = ap (λ p. p.1) e in rw⁻¹ same (refl, ended)
  read_befores-IsMeasured (l ∷ ls) befores s s' e =
      let (before, t, measured, rest) = bind-ok (read_before os fs l) _ befores s s' e in
      let (others, u, later, last) = bind-ok (read_befores os fuel fs ls) _ befores t s' rest in
      let same : (l, before) ∷ others ≡ befores = cc in
      let (names, all) = read_befores-IsMeasured ls others t u later in
      let ended : u ≡ s' = ap (λ p. p.1) last in
      rw⁻¹ same (ap (◌∷◌ l) names, (t, measured, subst (Chain IsMeasured others t) ended all))
