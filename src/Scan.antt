-- ===== src/Scan.antt =====
-- src/scan.rs: the totals of a scan, the account of what was left alone, and the scanner that hands
-- over one extent after the other.
pub mod Account
pub mod Reasons
pub mod Classes
pub mod Report
pub mod Buckets
pub mod Keeps
use Prim.Native.String.{String}
use btrealloc.Prelude.{
  ℕ, zero, suc, ◌+◌, ◌/◌, max, Bool, true, false, ◌&&◌, Option, none, some, List, [], ◌∷◌, ◌==◌,
  if◌then◌else◌, add64, set, get_elem?, replicate,
}
use btrealloc.Io.{
  Result, ok, err, Action, IoError, stuck, panicked, custom, kind, is_changed, pure, raise, attempt,
  ◌>>=◌,
}
use btrealloc.Abi.{Abi}
use btrealloc.Extent.{
  Extent, LeftAlone, too_little_to_free, too_much_to_copy, no_data_cow, past_end, changed,
  unresolved, failed, deleted, disk_used_bytes, disk_free_bytes,
}
use btrealloc.Kernel.Os.{Os, State, Filesystem, Io}
use btrealloc.Kernel.Files.{fatal}
use btrealloc.Kernel.Resolve.{resolve_again}
use btrealloc.Kernel.Walk.{
  Resolved, resolved, left_alone, ExtentWalk, Item, finished, extent, failure, walk, next_extent,
}

pub record Bucket : Type 0 where
  pub count : ℕ
  pub allocated_bytes : ℕ
  pub used_bytes : ℕ
  pub unreachable_bytes : ℕ

-- `Bucket::ZERO`
abbrev pub zero_bucket : Bucket
zero_bucket = record { count = 0; allocated_bytes = 0; used_bytes = 0; unreachable_bytes = 0 }

pub record Totals : Type 0 where
  pub allocated_bytes : ℕ
  pub used_bytes : ℕ
  pub unreachable_bytes : ℕ
  pub buckets : List Bucket

-- `Totals::ZERO`
abbrev pub zero_totals : Totals
zero_totals = record {
  allocated_bytes = 0;
  used_bytes = 0;
  unreachable_bytes = 0;
  buckets = replicate 64 zero_bucket;
}

-- `ilog2` of a number that is not 0, with a round for each of its 64 bits.
unfoldable pub ilog2_loop : ℕ → ℕ → ℕ
ilog2_loop zero n = 0
ilog2_loop (suc bits) n = let rest = suc (ilog2_loop bits (n / 2)) in if n / 2 == 0 then 0 else rest

unfoldable pub ilog2 : ℕ → ℕ
unfolding ilog2_loop
ilog2 n = ilog2_loop 64 n

-- `bucket.count += 1`, and the bytes of an extent.
unfoldable pub count_extent : Bucket → Extent → Bucket
count_extent b e = record {
  count = add64 b.count 1;
  allocated_bytes = add64 b.allocated_bytes e.disk_bytes;
  used_bytes = add64 b.used_bytes (disk_used_bytes e);
  unreachable_bytes = add64 b.unreachable_bytes (disk_free_bytes e);
}

unfoldable pub count_alone : Bucket → Bucket
count_alone b = record b { count = add64 b.count 1 }

-- `&mut buckets[i]`, changed; out of range there is a panic.
unfoldable pub update_at : List Bucket → ℕ → (Bucket → Bucket) → Option (List Bucket)
update_at bs i f = elim (get_elem? bs i) [ none ↦ none | some b ↦ some (set bs i (f b)) ]

-- `Totals::add`; `none` is a panic.
unfoldable pub add_totals : Totals → Extent → Option Totals
add_totals t e = elim (update_at t.buckets (ilog2 (max e.disk_bytes 1)) (λ b. count_extent b e)) [
  | none ↦ none
  | some buckets ↦ some (record {
    allocated_bytes = add64 t.allocated_bytes e.disk_bytes;
    used_bytes = add64 t.used_bytes (disk_used_bytes e);
    unreachable_bytes = add64 t.unreachable_bytes (disk_free_bytes e);
    buckets = buckets;
  })
]

-- `LeftAlone::ALL`
abbrev pub all_reasons : List LeftAlone
all_reasons =
    too_little_to_free ∷ too_much_to_copy ∷ no_data_cow ∷ past_end ∷ changed ∷ unresolved ∷ failed
    ∷ deleted ∷ []

-- `reason as usize`
unfoldable pub reason_index : LeftAlone → ℕ
reason_index too_little_to_free = 0
reason_index too_much_to_copy = 1
reason_index no_data_cow = 2
reason_index past_end = 3
reason_index changed = 4
reason_index unresolved = 5
reason_index failed = 6
reason_index deleted = 7

pub record LeftAloneStats : Type 0 where
  pub reasons : List Bucket

-- `LeftAloneStats::ZERO`
abbrev pub zero_left_alone : LeftAloneStats
zero_left_alone = record { reasons = replicate 8 zero_bucket }

unfoldable pub count_left : Option Extent → Bucket → Bucket
count_left none b = count_alone b
count_left (some e) b = count_extent b e

-- `LeftAloneStats::add`; `none` is a panic.
unfoldable pub add_left_alone : LeftAloneStats → LeftAlone → Option Extent → Option LeftAloneStats
add_left_alone s reason e = elim (update_at s.reasons (reason_index reason) (count_left e)) [
  | none ↦ none
  | some reasons ↦ some (record { reasons = reasons })
]

-- `is_empty`
unfoldable pub all_empty : List Bucket → Bool
all_empty [] = true
all_empty (b ∷ bs) = b.count == 0 && all_empty bs

unfoldable pub is_empty : LeftAloneStats → Bool
unfolding all_empty
is_empty s = all_empty s.reasons

-- `get`; `none` is a panic.
unfoldable pub get : LeftAloneStats → LeftAlone → Option Bucket
get s reason = get_elem? s.reasons (reason_index reason)

unfoldable pub add_buckets : Bucket → Bucket → Bucket
add_buckets total b = record {
  count = add64 total.count b.count;
  allocated_bytes = add64 total.allocated_bytes b.allocated_bytes;
  used_bytes = add64 total.used_bytes b.used_bytes;
  unreachable_bytes = add64 total.unreachable_bytes b.unreachable_bytes;
}

unfoldable pub total_loop : Bucket → List Bucket → Bucket
total_loop total [] = total
total_loop total (b ∷ bs) = total_loop (add_buckets total b) bs

-- `total`
unfoldable pub total : LeftAloneStats → Bucket
unfolding total_loop add_buckets
total s = total_loop zero_bucket s.reasons

pub record ScanStats : Type 0 where
  pub extents : ℕ
  pub totals : Totals
  pub left_alone_stats : LeftAloneStats

-- `ScanStats::ZERO`
abbrev pub zero_stats : ScanStats
zero_stats = record { extents = 0; totals = zero_totals; left_alone_stats = zero_left_alone }

-- `Scanner`, less its handle on the filesystem.
pub record Scanner : Type 0 where
  pub extent_walk : ExtentWalk
  pub stats : ScanStats
  pub error : Option IoError

abbrev pub or_panic : {S A : Type 0} → Option A → Action S IoError A
or_panic none = raise panicked
or_panic (some a) = pure a

-- `self.stats.left_alone.add(reason, extent)`; `none` is a panic.
unfoldable pub count_reason : Scanner → LeftAlone → Option Extent → Option Scanner
count_reason sc reason e = elim (add_left_alone sc.stats.left_alone_stats reason e) [
  | none ↦ none
  | some counted ↦ some (record sc { stats = record sc.stats { left_alone_stats = counted } })
]

-- `leave_unresolved`
unfoldable pub leave_unresolved : Abi → Scanner → IoError → Option Extent → Option Scanner
leave_unresolved abi sc error e = elim (fatal abi error) [
  | some hint ↦ some (record sc { error = some (custom (kind error) "stopped at extent") })
  | none ↦ count_reason sc (if is_changed error then changed else unresolved) e
]

-- The first two lines of the `Ok(Resolved::Extent(extent))` arm of `next`.
unfoldable pub count_found : Scanner → Extent → Option Scanner
count_found sc e = elim (add_totals sc.stats.totals e) [
  | none ↦ none
  | some totals ↦ some (record sc {
    stats = record sc.stats { extents = add64 sc.stats.extents 1; totals = totals };
  })
]

module _ (os : Os) (fuel : ℕ) (fs : Filesystem os) where
  -- `Scanner::new`
  unfoldable pub new_scanner : Io os Scanner
  new_scanner = do
    w ← walk os fuel fs
    pure (record { extent_walk = w; stats = zero_stats; error = none })

  -- `Scanner::resolve_again`
  unfoldable pub resolve_extent_again : Scanner → Extent → Io os (Option Extent × Scanner)
  resolve_extent_again sc e = do
    found ← attempt (resolve_again os fuel fs e)
    elim found [
      | ok again ↦ pure (some again, sc)
      | err error ↦ do sc' ← or_panic (leave_unresolved os.abi sc error (some e)); pure (none, sc')
    ]

  -- What `next` does with what the walk gave: a scanner that goes on looking, or the result.
  unfoldable pub take_item : Scanner → Item → Io os (Option (Option Extent) × Scanner)
  take_item sc finished = pure (some none, sc)
  take_item sc (failure e) = pure (some none, record sc { error = some e })
  take_item sc (extent (resolved e)) = do
    sc' ← or_panic (count_found sc e)
    pure (some (some e), sc')
  take_item sc (extent (left_alone disk_address error)) = do
    sc' ← or_panic (leave_unresolved os.abi sc error none)
    pure (none, sc')

  -- `Scanner::next`, with fuel for the extents that are passed over.
  unfoldable pub scan_next : ℕ → Scanner → Io os (Option Extent × Scanner)
  scan_next zero sc = raise stuck
  scan_next (suc rounds) sc = elim sc.error [
    | some e ↦ pure (none, sc)
    | none ↦ do
      (item, w) ← next_extent os fuel fs fuel sc.extent_walk
      (result, sc') ← take_item (record sc { extent_walk = w }) item
      elim result [ some found ↦ pure (found, sc') | none ↦ scan_next rounds sc' ]
  ]
