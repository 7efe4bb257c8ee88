-- ===== src/Extent/Live.antt =====
-- `live_uncompressed_bytes` of src/extent.rs counts every live byte once.
use btrealloc.Prelude.{
  ℕ, zero, suc, ◌+◌, ◌-◌, ◌≤◌, ◌<◌, ◌≡◌, refl, sym, ◌∙◌, Bool, true, false, ◌&&◌, ◌||◌, any, List,
  [], ◌∷◌, map, ltb, leb, if◌then◌else◌, arith, All, u64_mod, u64_max, sub64, add64-eq, sub64-eq,
}
use btrealloc.Extent.{
  ExtentRef, Range, ref_range, live_ranges, new_extent, sum_lengths, live_uncompressed_bytes,
}
use btrealloc.Extent.Ranges.{
  ref_end-eq, holds, covered, IsApart, AllFit, live_ranges-covered, live_ranges-IsApart,
}

-- How many numbers below `n` pass a test.
unfoldable pub count_below : ℕ → (ℕ → Bool) → ℕ
count_below zero p = 0
count_below (suc n) p = (if p n then 1 else 0) + count_below n p

pub count_below-ext :
    (n : ℕ) (p q : ℕ → Bool) → ((x : ℕ) → p x ≡ q x) → count_below n p ≡ count_below n q
unfolding count_below
count_below-ext zero p q h = refl
count_below-ext (suc n) p q h = ground (arith, h n, count_below-ext n p q h)

count_below-or :
    (n : ℕ) (p q : ℕ → Bool)
    → ((x : ℕ) → p x ≡ true → q x ≡ false)
    → count_below n (λ x. p x || q x) ≡ count_below n p + count_below n q
unfolding count_below
count_below-or zero p q h = refl
count_below-or (suc n) p q h = ground (arith, h n, count_below-or n p q h)

count_below-false : (n : ℕ) → count_below n (λ x. false) ≡ 0
unfolding count_below
count_below-false zero = refl
count_below-false (suc n) = omega (arith, count_below-false n)

pub count_below-le : (n : ℕ) (p : ℕ → Bool) → count_below n p ≤ n
unfolding count_below
count_below-le zero p = omega arith
count_below-le (suc n) p = ground (arith, count_below-le n p)

pub count_below_mono :
    (n : ℕ) (p q : ℕ → Bool)
    → ((x : ℕ) → p x ≡ true → q x ≡ true)
    → count_below n p ≤ count_below n q
unfolding count_below
count_below_mono zero p q h = omega arith
count_below_mono (suc n) p q h = ground (arith, h n, count_below_mono n p q h)

-- The bytes of one range.
count_below-holds :
    (n : ℕ) (r : Range)
    → r.start ≤ r.end
    → count_below n (λ x. holds x r) ≡ (if leb r.end n then r.end else n) - r.start
unfolding count_below holds
count_below-holds zero r h = ground arith
count_below-holds (suc n) r h = ground (arith, count_below-holds n r h)

covered-after :
    (x : ℕ) (n : ℕ) (rs : List Range) → All (λ s. n < s.start) rs → x < n → covered x rs ≡ false
unfolding holds
covered-after x n [] a h = refl
covered-after x n (r ∷ rs) a h = ground (arith, covered-after x n rs a.1 h)

holds-lt : (x : ℕ) (r : Range) → holds x r ≡ true → x < r.end
unfolding holds
holds-lt x r h = ground arith

-- The lengths of separate ranges add up, without a wrap, to the number of bytes that they cover.
pub sum_lengths-eq_count :
    (bound : ℕ) (rs : List Range)
    → bound < u64_mod
    → IsApart (suc bound) rs
    → sum_lengths rs ≡ count_below bound (λ x. covered x rs)
unfolding sum_lengths
sum_lengths-eq_count bound [] b a = sym (count_below-false bound)
sum_lengths-eq_count bound (r ∷ rs) b a =
    let total =
      count_below-or bound (λ x. holds x r) (λ x. covered x rs)
        (λ x h. covered-after x r.end rs a.2 (holds-lt x r h)) in
    let rest = sum_lengths-eq_count bound rs b a.3 in
    let own = count_below-holds bound r a.0 in
    let most = count_below-le bound (λ x. covered x (r ∷ rs)) in
    let shorter = sub64-eq r.end r.start a.0 (omega arith) in
    let exact : count_below bound (λ x. holds x r) ≡ r.end - r.start = ground (arith, own) in
    let fits = add64-eq (sub64 r.end r.start) (sum_lengths rs) (omega arith) in omega arith

-- Whether a reference uses byte `x` of its extent, read off the item itself.
unfoldable pub uses : ℕ → ExtentRef → Bool
uses x r = leb r.extent_offset x && ltb x (r.extent_offset + r.num_bytes)

pub covered-uses :
    (x : ℕ) (refs : List ExtentRef)
    → AllFit refs
    → covered x (map ref_range refs) ≡ any (uses x) refs
unfolding holds uses ref_range
covered-uses x [] h = refl
covered-uses x (r ∷ refs) h = ground (arith, ref_end-eq r h.0, covered-uses x refs h.1)

-- The bytes of an extent that some reference uses, each counted once. No reference that ends
-- within `u64` uses byte `u64::MAX`.
unfoldable pub bytes_used : List ExtentRef → ℕ
bytes_used refs = count_below u64_max (λ x. any (uses x) refs)

-- `live_uncompressed_bytes` is the number of bytes of the extent that at least one reference
-- uses, however the references overlap, if every reference ends within `u64`.
pub live_uncompressed_bytes-eq-bytes_used :
    (disk_address disk_bytes uncompressed_bytes : ℕ) (refs : List ExtentRef)
    → AllFit refs
    → live_uncompressed_bytes (new_extent disk_address disk_bytes uncompressed_bytes refs)
      ≡ bytes_used refs
unfolding live_uncompressed_bytes new_extent bytes_used
live_uncompressed_bytes-eq-bytes_used a d u refs h =
    sum_lengths-eq_count u64_max (live_ranges refs) (omega arith) (live_ranges-IsApart refs h)
    ∙ count_below-ext u64_max _ _ (λ x. live_ranges-covered x refs ∙ covered-uses x refs h)
