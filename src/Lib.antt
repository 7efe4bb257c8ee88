-- ===== src/Lib.antt =====
-- btrealloc finds btrfs extents of which only a part is still referenced, copies what is live, and
-- points every file that holds the extent at the copy, so that the kernel frees the old one.
--
-- The parts of the program, and the files that model them:
--
-- * `src/extent.rs`, an extent and its references: Extent (the types, `live_ranges`,
--   `disk_used_bytes`, `holders`, `not_worth_rewriting`), with Extent/Ranges, Contained, Live,
--   Usage and Holders.
-- * `src/kernel.rs`, the filesystem. Abi holds the constants and structures that the program takes
--   from the crate `linux-raw-sys`, as a parameter. Kernel/Os holds the calls of the system, as a
--   parameter with a world of its own, and the state: that world and the two caches of
--   `Filesystem`. Kernel/Search is `SearchArgs`; Kernel/Tally is `Tally` and the inline references;
--   Kernel/Refs is `collect` and the searches under it, with Kernel/Refs/Standing on what they are
--   to find; Kernel/Backrefs is `logical_ino`, with Kernel/Backrefs/Grouping, Windows, Gather and
--   Growth on what it returns; Kernel/Subvolumes is `subvolume`, `root_backref`, `last_snapshot`
--   and `inode_path`; Kernel/Resolve is `resolve`; Kernel/Walk is `extent_batch` and `ExtentWalk`,
--   with Kernel/Walk/Once on one batch, Resolving on its resolution, Extents on what there is to
--   find and Whole on the walk; Kernel/Files is opening, flags and dedupe. Kernel/Frozen states
--   that nothing writes for a while: searches answer from the same trees, of those that there are;
--   what a search of a deleted subvolume's tree comes to is not stated. Kernel/Keeps/Calls states
--   which calls of the system keep a predicate of its world; Kernel/Keeps, the modules below it,
--   and those called Keeps beside the other parts are on the operations built of such calls.
-- * `src/scan.rs`, the scan: Scan (`Totals`, `LeftAloneStats`, `Scanner`), with Scan/Account,
--   Classes and Reasons, and Scan/Report (`report`, `report_left_alone`), what is printed of it.
-- * `src/run.rs`, the rewrite of an extent: Run/Locate (`locate_holders`), Run/Copy
--   (`read_liveranges`, `fill`, `stage`; with Run/Copy/Data and Stretches on what is read, Filling,
--   Gaps and Sectors on how much, of the references in Sources), Run/Redirect (`redirect_chunks`,
--   `redirect_tail`, `finish_holder`; with Run/Redirect/Chunks, Moved and Files) and Run/Process
--   (`realloc_extent`, `Runner::process`, `Report`; with Run/Process/Writes, Outcomes, Finished,
--   Rewritten and Whole). Run/Summary is `describe` and `Runner::finish`, what is printed of it.
-- * `src/lib.rs` and `Filesystem::open`: App (`run`), with App/Safety, Opening and Buckets.
-- * `src/main.rs`, the program: Main (`main`, from the options on), with Main/Status,
--   Main/Arguments (`parse_options`, and all of `main`), Main/Logger and Main/Prefix.
-- * `src/format.rs`, the printing of sizes: Format (`human`), with Format/Units.
--
-- Prelude has the shared helpers, Io the results, the actions and the errors, and Tests the
-- examples; Tests/Units has the unit tests of `src/extent.rs`.
--
-- How the code is modelled. A method is an action: from the state to a value or an error, and the
-- state after it. Integers are natural numbers, with the wrap-around of a release build written out
-- where the source adds, subtracts or multiplies `u64`s (`add64`, `sub64`, `mul64`). A panic is an
-- error of its own, or `none` in a function without state. A sort is an insertion sort by the same
-- key. A buffer that a search fills is a list of bytes. Errors keep their kind and the fixed part
-- of their message; a number or a path in a message is left out.
--
-- Bounds and fuel. A loop over a list is recursion on it. `items` makes a round for each item that
-- the search reports. `add_inline` has a round for each byte, and each reference takes one at
-- least. `search_all` has fuel, of which it uses a round for each item of its range and one more at
-- most. `redirect_loop` and `read_range` have a round for each byte of their stretch, and move on
-- by one byte at least. `logical_ino_loop` uses at most a round for each byte that its buffer can
-- grow by. `next_extent`, `scan_next`, `run_loop` and the walk up the subvolumes have the fuel of
-- the run. Fuel that runs out is the error `stuck`, which the program itself never returns.
--
-- What is not modelled. The crates `clap`, `log` and `rayon`, which parse the arguments, keep the
-- logger and its level, and run the threads, are parameters; the messages that the modelled
-- functions log are left out. What is printed is a list of lines, apart from the run that it is
-- about, with the standard library's formatting and floating point as a parameter. The pool of
-- search buffers is left out, since a buffer is written before it is read. The threads that resolve
-- a batch are taken one after the other, in the order that their results are collected in. The
-- private mount, `openat2` and the ioctls are calls of the system. The tests run the program on a
-- real kernel.
pub mod Prelude
pub mod Io
pub mod Abi
pub mod Format
pub mod Extent
pub mod Kernel
pub mod Scan
pub mod Run
pub mod App
pub mod Main
pub mod Tests
