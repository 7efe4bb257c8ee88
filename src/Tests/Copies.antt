-- ===== src/Tests/Copies.antt =====
-- A kernel whose one file holds the first eight bytes of an extent, read in sectors of four bytes.
use btrealloc.Prelude.{
  ℕ, ◌+◌, ◌≡◌, refl, ap, sym, ◌∙◌, false, [], ◌∷◌, arith, All, add64, sub64, sort_by, insert_by,
}
use btrealloc.Io.{ok}
use btrealloc.Extent.{ExtentRef, Extent, ref_end}
use btrealloc.Kernel.Os.{Os, State, Filesystem}
use btrealloc.Kernel.Files.{cstr_bytes, or_self, open_beneath, ino_lookup, own_root_id, open_inode}
use btrealloc.Run.Locate.{Located, open_located}
use btrealloc.Run.Copy.{
  LiveRange, part_end, read_part, fill_from, fill_loop, fill, copies_of, min_past, read_range,
  read_ranges, read_liveranges, source_le,
}
use btrealloc.Run.Copy.Data.{stretch, HoldsData}
use btrealloc.Run.Copy.Stretches.{IsCopy, read_liveranges-IsCopy}
use btrealloc.Run.Copy.Filling.{IsReadable}
use btrealloc.Run.Copy.Sectors.{HasSectors, read_liveranges-HasSectors}
use btrealloc.Tests.Toy.{toy}

abbrev numbered : ℕ → ℕ
numbered n = n + 100

abbrev readable : Os
readable = record toy {
  openat2 = λ _ _ _ w. (ok tt, w);
  metadata = λ _ w. (ok (record { ino = 257; len = 8; modified = 1; is_dir = false }), w);
  ino_lookup = λ _ _ _ w. (ok (record { treeid = 5; name = [] }), w);
  read_exact_at = λ _ from n w. (ok (stretch numbered from n), w);
}

abbrev small_fs : Filesystem readable
small_fs = record { file = tt; mount = []; sectorsize = 4; read_only = false }

abbrev small_state : State readable
small_state = record { world = tt; subvolumes = []; last_snapshots = [] }

abbrev small_ref : ExtentRef
small_ref = record {
  root = 5;
  inode = 257;
  disk_address = 1048576;
  disk_bytes = 16;
  uncompressed_bytes = 16;
  file_offset = 0;
  extent_offset = 0;
  num_bytes = 8;
  leaf_generation = 7;
}

abbrev small_extent : Extent
small_extent = record {
  disk_address = 1048576;
  disk_bytes = 16;
  uncompressed_bytes = 16;
  refs = small_ref ∷ [];
  live_ranges = record { start = 0; end = 8 } ∷ [];
}

abbrev located_file : Located
located_file = record {
  name = b'f' ∷ [];
  path = b'f' ∷ [];
  holder = record { root = 5; inode = 257; refs = small_ref ∷ [] };
}

abbrev the_copy : LiveRange
the_copy = record { bytes = 100 ∷ 101 ∷ 102 ∷ 103 ∷ 104 ∷ 105 ∷ 106 ∷ 107 ∷ []; start = 0; end = 8 }

small_ref-HoldsData : HoldsData readable small_fs numbered (small_ref, located_file)
unfolding ref_end add64 sub64
small_ref-HoldsData file s s' o at n w w' bytes from to e =
    let place : add64 0 (sub64 at 0) ≡ at = omega arith in
    let read : stretch numbered (add64 0 (sub64 at 0)) n ≡ bytes = cc in
    sym read ∙ ap (λ a. stretch numbered a n) place

reads :
    read_liveranges readable small_fs small_extent (located_file ∷ []) small_state
    ≡ (ok (the_copy ∷ []), small_state)
unfolding read_liveranges read_ranges read_range fill fill_loop fill_from read_part part_end
    copies_of min_past open_located open_inode own_root_id ino_lookup open_beneath or_self
    cstr_bytes source_le sort_by insert_by ref_end add64 sub64
reads = refl

read_liveranges-IsCopy_example : All (IsCopy readable small_fs numbered) (the_copy ∷ [])
read_liveranges-IsCopy_example =
    read_liveranges-IsCopy readable small_fs numbered small_extent (located_file ∷ [])
      (the_copy ∷ []) small_state small_state (small_ref-HoldsData, tt) reads

small_ref-IsReadable : IsReadable readable small_fs (λ l. 8) (small_ref, located_file)
unfolding open_located open_inode own_root_id open_beneath or_self
small_ref-IsReadable = record {
  extent_fits = omega arith;
  file_fits = omega arith;
  opens = λ s. (
    tt,
    s,
    refl,
    record {
      meta = record { ino = 257; len = 8; modified = 1; is_dir = false };
      measured = tt;
      says = refl;
      len_said = refl;
      reads = λ from n w le. (stretch numbered from n, w, refl);
    },
  );
}

read_liveranges-HasSectors_example :
    HasSectors readable small_fs
      (λ l. 8)
      small_extent
      (located_file ∷ [])
      (read_liveranges readable small_fs small_extent (located_file ∷ []) small_state)
read_liveranges-HasSectors_example =
    read_liveranges-HasSectors readable small_fs (λ l. 8) small_extent (located_file ∷ [])
      small_state (omega arith) (small_ref-IsReadable, tt)
