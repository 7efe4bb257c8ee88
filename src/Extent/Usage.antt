-- ===== src/Extent/Usage.antt =====
-- `disk_used_bytes`, `disk_free_bytes` and `not_worth_rewriting` of src/extent.rs: how the bytes of
-- an extent divide, and which extents are worth rewriting.
use native.Mathlib.Nat.{
  div-le_of_le-mul, mul-div_cancel, mul-le-mul_right, le-div_iff_mul-le, mul-div-le, mul_comm,
  le_trans,
}
use btrealloc.Prelude.{
  inl, inr, ℕ, zero, suc, ◌+◌, ◌-◌, ◌*◌, ◌/◌, ◌≤◌, ◌<◌, ◌≡◌, refl, ◌↔◌, Bool, true, none, some,
  List, [], ◌∷◌, min, any, ◌==◌, arith, All, Bool-cases, u64_mod, u64_max, mul64, sub64-eq,
}
use btrealloc.Extent.{
  ExtentRef, Extent, too_little_to_free, too_much_to_copy, min_reclaim_bytes, max_copy_ratio,
  new_extent, live_uncompressed_bytes, disk_used_bytes, disk_free_bytes, not_worth_rewriting,
}
use btrealloc.Extent.Ranges.{AllFit}
use btrealloc.Extent.Live.{
  uses, bytes_used, count_below, count_below-le, count_below_mono,
  live_uncompressed_bytes-eq-bytes_used,
}

scaled-le : (m d u : ℕ) → m ≤ u → m * d / u ≤ d
scaled-le m d u h = div-le_of_le-mul u (mul-le-mul_right d h)

pub disk_used_bytes-le : (e : Extent) → disk_used_bytes e ≤ e.disk_bytes
unfolding disk_used_bytes
disk_used_bytes-le e = ground (
  arith,
  scaled-le (min (live_uncompressed_bytes e) e.uncompressed_bytes) e.disk_bytes
      e.uncompressed_bytes,
)

-- The used and the free bytes of an extent, whose size on disk is a 64-bit number, make up its
-- size: the subtraction of `disk_free_bytes` does not wrap.
pub used-add-free :
    (e : Extent) → e.disk_bytes < u64_mod → disk_used_bytes e + disk_free_bytes e ≡ e.disk_bytes
unfolding disk_free_bytes
used-add-free e h =
    let le = disk_used_bytes-le e in omega (arith, sub64-eq e.disk_bytes (disk_used_bytes e) le h)

div-le-div : (a b u : ℕ) → 0 < u → a ≤ b → a / u ≤ b / u
div-le-div a b u p h = (le-div_iff_mul-le p).1 (le_trans (rw mul_comm (mul-div-le a u)) h)

-- Of two sets of references that end within 64 bits, to extents of one size on disk and one
-- uncompressed, the one that uses every byte that the other uses makes at least as much of the
-- extent used.
pub disk_used_bytes_mono :
    (d u : ℕ) (a b : ℕ) (few many : List ExtentRef)
    → AllFit few
    → AllFit many
    → ((x : ℕ) → any (uses x) few ≡ true → any (uses x) many ≡ true)
    → disk_used_bytes (new_extent a d u few) ≤ disk_used_bytes (new_extent b d u many)
unfolding disk_used_bytes new_extent
disk_used_bytes_mono d u a b few many hf hm sub = elim (Bool-cases (u == 0)) [
  | inl e ↦ rw e (omega arith)
  | inr e ↦ rw e (div-le-div _ _ u (ground arith) (mul-le-mul_right d (omega (arith, more))))
]
  where
    more :
        live_uncompressed_bytes (new_extent a d u few)
        ≤ live_uncompressed_bytes (new_extent b d u many)
    more =
        rw
          (
            live_uncompressed_bytes-eq-bytes_used a d u few hf,
            live_uncompressed_bytes-eq-bytes_used b d u many hm,
          )
          (unfold bytes_used in count_below_mono u64_max _ _ sub)

-- References that end inside the first `n` bytes.
abbrev pub EndBy : ℕ → List ExtentRef → Type 0
EndBy n refs = All (λ r. r.extent_offset + r.num_bytes ≤ n) refs

EndBy-AllFit : (n : ℕ) (refs : List ExtentRef) → n < u64_mod → EndBy n refs → AllFit refs
EndBy-AllFit n [] h e = tt
EndBy-AllFit n (r ∷ refs) h e = (omega arith, EndBy-AllFit n refs h e.1)

uses-lt : (x n : ℕ) (refs : List ExtentRef) → EndBy n refs → any (uses x) refs ≡ true → x < n
unfolding uses
uses-lt x n [] e h = cc
uses-lt x n (r ∷ refs) e h = ground (arith, uses-lt x n refs e.1)

count_below-bounded :
    (k n : ℕ) (p : ℕ → Bool) → ((x : ℕ) → p x ≡ true → x < n) → count_below k p ≤ n
unfolding count_below
count_below-bounded zero n p h = omega arith
count_below-bounded (suc k) n p h = elim (Bool-cases (p k)) [
  | inl e ↦ rw e (omega (arith, count_below-le k p, h k e))
  | inr e ↦ rw e (omega (arith, count_below-bounded k n p h))
]

pub bytes_used-le : (n : ℕ) (refs : List ExtentRef) → EndBy n refs → bytes_used refs ≤ n
unfolding bytes_used
bytes_used-le n refs e = count_below-bounded u64_max n _ (λ x. uses-lt x n refs e)

-- An extent that is not compressed: its bytes on disk are the bytes of its data.
pub plain_extent_used :
    (a d : ℕ) (refs : List ExtentRef)
    → d < u64_mod
    → EndBy d refs
    → disk_used_bytes (new_extent a d d refs) ≡ bytes_used refs
unfolding disk_used_bytes new_extent
plain_extent_used a d refs h e =
    let live = live_uncompressed_bytes-eq-bytes_used a d d refs (EndBy-AllFit d refs h e) in
    let le = bytes_used-le d refs e in
    elim (Bool-cases (d == 0)) [
      | inl z ↦ rw z (ground arith)
      | inr z ↦
          let small : min (live_uncompressed_bytes (new_extent a d d refs)) d ≡ bytes_used refs =
            omega arith in
          rw (z, small) (mul-div_cancel (bytes_used refs) (ground arith))
    ]

-- The verdict of `not_worth_rewriting` on the bytes that it goes by.
module _ (e : Extent) (h : disk_free_bytes e * max_copy_ratio < u64_mod) where
  no_wrap : mul64 (disk_free_bytes e) max_copy_ratio ≡ disk_free_bytes e * max_copy_ratio
  unfolding mul64
  no_wrap = omega arith

  not_worth_rewriting_iff :
      ((not_worth_rewriting e ≡ some too_little_to_free) ↔ (disk_free_bytes e < min_reclaim_bytes))
      × ((not_worth_rewriting e ≡ some too_much_to_copy) ↔ (
          (min_reclaim_bytes ≤ disk_free_bytes e)
          × (disk_free_bytes e * max_copy_ratio < live_uncompressed_bytes e)))
      × ((not_worth_rewriting e ≡ none) ↔ (
          (min_reclaim_bytes ≤ disk_free_bytes e)
          × (live_uncompressed_bytes e ≤ disk_free_bytes e * max_copy_ratio)))
  unfolding not_worth_rewriting
  not_worth_rewriting_iff = ground (arith, no_wrap)

disk_bytes-new_extent : (a d u : ℕ) (refs : List ExtentRef) → (new_extent a d u refs).disk_bytes ≡ d
unfolding new_extent
disk_bytes-new_extent a d u refs = refl

-- An extent that is not compressed, of at most 2^61 bytes, whose references end inside it, is worth
-- rewriting exactly when at least 64 KiB of it are used by no reference, and the bytes used are at
-- most four times those that are not.
pub plain_extent_worth :
    (a d : ℕ) (refs : List ExtentRef)
    → d ≤ 2305843009213693952
    → EndBy d refs
    → (not_worth_rewriting (new_extent a d d refs) ≡ none)
      ↔ ((min_reclaim_bytes + bytes_used refs ≤ d) × (bytes_used refs ≤ 4 * (d - bytes_used refs)))
plain_extent_worth a d refs h e =
    let used = plain_extent_used a d refs (omega arith) e in
    let size = disk_bytes-new_extent a d d refs in
    let whole = used-add-free (new_extent a d d refs) (omega arith) in
    let live =
      live_uncompressed_bytes-eq-bytes_used a d d refs (EndBy-AllFit d refs (omega arith) e) in
    let verdict = (not_worth_rewriting_iff (new_extent a d d refs) (omega arith)).2 in
    let le = bytes_used-le d refs e in
    (
      λ p. let q = verdict.0 p in (omega arith, omega arith),
      λ q. verdict.1 (omega arith, omega arith),
    )
