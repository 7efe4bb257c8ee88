-- ===== src/Kernel/Keeps/Temp.antt =====
-- Temporary files and dedupe in src/kernel.rs, under an invariant of the world.
use btrealloc.Prelude.{ℕ, []}
use btrealloc.Kernel.Os.{Os, tmp_file, State, Status, negative, natural, Filesystem}
use btrealloc.Kernel.Files.{or_self, open_beneath, deduped_bytes, dedupe, temp_file}
use btrealloc.Kernel.Keeps.{
  Yields, Keeps, OnWorld, Yields-pure, Yields-raise, Keeps-pure, Yields-if, Yields-bind, Keeps-bind,
  Keeps-on_world, Yields-on_world,
}
use btrealloc.Kernel.Keeps.Calls.{Harmless}
use btrealloc.Kernel.Keeps.Files.{is_nocow-Keeps}

module _ {os : Os} {I : os.World → Type 0} {IsTemp IsDest : os.File → Type 0}
    (q : Harmless os I IsTemp IsDest) where
  abbrev On : State os → Type 0
  On = OnWorld {os = os} I

  open_temp-Yields : (d : os.File) → Yields On IsTemp (open_beneath os d [] tmp_file)
  unfolding open_beneath or_self
  open_temp-Yields d = Yields-on_world I IsTemp _ (q.open_temp d _)

  -- What comes back is a file that the program made.
  pub temp_file-Yields : (fs : Filesystem os) → Yields On IsTemp (temp_file os fs)
  unfolding temp_file
  temp_file-Yields fs = Yields-bind (open_temp-Yields fs.file) (λ f temp.
      Keeps-bind (Keeps-on_world I (os.get_flags f) (q.reads.get_flags f)) (λ flags.
        Yields-if _ (Yields-pure f temp) (
          Keeps-bind (Keeps-on_world I (os.set_flags f _) (q.set_flags f temp _)) (λ done.
            Keeps-bind (is_nocow-Keeps q.reads f)
              (λ still. Yields-if still (Yields-raise _) (Yields-pure f temp))))))

  deduped_bytes-Keeps : (n : ℕ) (s : Status) → Keeps On (deduped_bytes os n s)
  unfolding deduped_bytes
  deduped_bytes-Keeps n (negative e) = Yields-raise _
  deduped_bytes-Keeps n (natural k) = Yields-if _ (Keeps-pure n) (Yields-raise _)

  pub dedupe-Keeps :
      (src : os.File)
      → IsTemp src
      → (src_offset len : ℕ) (dest : os.File) → IsDest dest
      → (dest_offset : ℕ) → Keeps On (dedupe os src src_offset len dest dest_offset)
  unfolding dedupe
  dedupe-Keeps src temp src_offset len dest d dest_offset =
      Keeps-bind
        (Keeps-on_world I (os.dedupe_range src src_offset len dest dest_offset)
          (q.dedupe_range src temp src_offset len dest d dest_offset))
        (λ info. deduped_bytes-Keeps info.bytes_deduped info.status)
