-- ===== src/Scan/Account.antt =====
-- The counters of src/scan.rs add up: the totals are those of the size classes, what is allocated is
-- what is used and what is unreachable, and no counter is looked for out of range.
use native.Mathlib.Nat.{pow-suc}
use mathlib.Core.Option.{none-ne-some, some-injective}
use btrealloc.Prelude.{
  Bool-cases, inl, inr, ℕ, zero, suc, ◌+◌, ◌/◌, ◌^◌, ◌≤◌, ◌<◌, ◌≡◌, refl, sym, ap, ◌∙◌, max, some,
  List, [], ◌∷◌, arith, length, set, get_elem?, ◌==◌, add64, sub64, u64_mod, Option-cases,
}
use btrealloc.Extent.{Extent, disk_used_bytes, disk_free_bytes}
use btrealloc.Extent.Usage.{disk_used_bytes-le}
use btrealloc.Scan.{
  Bucket, Totals, zero_totals, ilog2_loop, ilog2, count_extent, update_at, add_totals,
}

-- The sum of one counter over all buckets, as it wraps.
abbrev pub sum64 : (Bucket → ℕ) → List Bucket → ℕ
sum64 f [] = 0
sum64 f (b ∷ bs) = add64 (f b) (sum64 f bs)

add64-swap : (a b c : ℕ) → add64 (add64 a b) c ≡ add64 (add64 a c) b
unfolding add64
add64-swap a b c = omega arith

add64_inner : (a b c : ℕ) → add64 a (add64 b c) ≡ add64 (add64 a b) c
unfolding add64
add64_inner a b c = omega arith

pub get_elem?-some :
    (i : ℕ) (bs : List Bucket) → i < length bs → (b : Bucket) × (get_elem? bs i ≡ some b)
get_elem?-some i [] h = absurd (omega arith)
get_elem?-some zero (b ∷ bs) h = (b, refl)
get_elem?-some (suc i) (b ∷ bs) h = get_elem?-some i bs (omega arith)

pub length-set : (bs : List Bucket) (i : ℕ) (b : Bucket) → length (set bs i b) ≡ length bs
length-set [] i b = refl
length-set (x ∷ bs) zero b = refl
length-set (x ∷ bs) (suc i) b = ap suc (length-set bs i b)

-- Adding to one bucket adds to the sum.
sum64-set :
    (f : Bucket → ℕ) (n : ℕ) (bs : List Bucket) (i : ℕ) (b b' : Bucket)
    → get_elem? bs i ≡ some b
    → f b' ≡ add64 (f b) n
    → sum64 f (set bs i b') ≡ add64 (sum64 f bs) n
sum64-set f n [] i b b' e h = cc
sum64-set f n (x ∷ bs) zero b b' e h =
    let same : x ≡ b = cc in rw (h, same) (add64-swap (f b) n (sum64 f bs))
sum64-set f n (x ∷ bs) (suc i) b b' e h =
    rw (sum64-set f n bs i b b' e h) (add64_inner (f x) (sum64 f bs) n)

-- `ilog2` names one of the 64 size classes.
ilog2_loop_bounds :
    (bits n : ℕ)
    → 0 < n
    → n < 2 ^ bits
    → (ilog2_loop bits n < bits) × (2 ^ ilog2_loop bits n ≤ n) × (n < 2 ^ suc (ilog2_loop bits n))
unfolding ilog2_loop
ilog2_loop_bounds zero n p h = absurd (omega arith)
ilog2_loop_bounds (suc bits) n p h = elim (Bool-cases (n / 2 == 0)) [
  | inl e ↦ let one : n ≡ 1 = ground arith in rw (e, one) (omega arith, omega arith, omega arith)
  | inr e ↦
      let deeper = ilog2_loop_bounds bits (n / 2) (ground arith) (omega (arith, pow-suc 2 bits)) in
      rw e (
        omega arith,
        omega (arith, pow-suc 2 (ilog2_loop bits (n / 2))),
        omega (arith, pow-suc 2 (suc (ilog2_loop bits (n / 2)))),
      )
]

-- The class is one of the 64, and the power of two that the size rounds down to.
pub ilog2_bounds :
    (n : ℕ)
    → n < u64_mod
    → (ilog2 (max n 1) < 64)
      × (2 ^ ilog2 (max n 1) ≤ max n 1)
      × (max n 1 < 2 ^ suc (ilog2 (max n 1)))
unfolding ilog2
ilog2_bounds n h = ilog2_loop_bounds 64 (max n 1) (omega arith) (omega arith)

-- The invariant of the totals.
pub record IsBalanced (t : Totals) : Type 0 where
  pub classes : length t.buckets ≡ 64
  pub split : t.allocated_bytes ≡ add64 t.used_bytes t.unreachable_bytes
  pub allocated : t.allocated_bytes ≡ sum64 (λ b. b.allocated_bytes) t.buckets
  pub used : t.used_bytes ≡ sum64 (λ b. b.used_bytes) t.buckets
  pub unreachable : t.unreachable_bytes ≡ sum64 (λ b. b.unreachable_bytes) t.buckets

pub zero_totals-IsBalanced : IsBalanced zero_totals
unfolding add64
zero_totals-IsBalanced = record {
  classes = refl;
  split = refl;
  allocated = refl;
  used = refl;
  unreachable = refl;
}

add64-shuffle : (a b c d : ℕ) → add64 (add64 a b) (c + d) ≡ add64 (add64 a c) (add64 b d)
unfolding add64
add64-shuffle a b c d = omega arith

-- What an extent's free bytes wrap by does not show in a sum that wraps.
add64-parts : (x a b : ℕ) → b ≤ a → add64 x a ≡ add64 x (b + sub64 a b)
unfolding add64 sub64
add64-parts x a b h = omega arith

-- How many extents the size classes count.
abbrev pub count_of : Totals → ℕ
count_of t = sum64 (λ b. b.count) t.buckets

-- What counting an extent in a size class makes of balanced totals.
counted-IsBalanced :
    (t : Totals) (e : Extent) (b : Bucket)
    → get_elem? t.buckets (ilog2 (max e.disk_bytes 1)) ≡ some b
    → IsBalanced t
    → (t' : Totals) × (add_totals t e ≡ some t')
      × IsBalanced t'
      × (count_of t' ≡ add64 (count_of t) 1)
unfolding add_totals update_at count_extent disk_free_bytes
counted-IsBalanced t e b found v =
    let i = ilog2 (max e.disk_bytes 1) in
    let b' = count_extent b e in
    rw (found, add_totals)
      (
        _,
        refl,
        record {
          classes = length-set t.buckets i b' ∙ v.classes;
          split =
              ap (λ x. add64 x e.disk_bytes) v.split
              ∙ add64-parts (add64 t.used_bytes t.unreachable_bytes) e.disk_bytes
                  (disk_used_bytes e) (disk_used_bytes-le e)
              ∙ add64-shuffle t.used_bytes t.unreachable_bytes (disk_used_bytes e)
                  (disk_free_bytes e);
          allocated =
              ap (λ x. add64 x e.disk_bytes) v.allocated
              ∙ sym (sum64-set (λ b. b.allocated_bytes) e.disk_bytes t.buckets i b b' found refl);
          used =
              ap (λ x. add64 x (disk_used_bytes e)) v.used
              ∙ sym (sum64-set (λ b. b.used_bytes) (disk_used_bytes e) t.buckets i b b' found refl);
          unreachable =
              ap (λ x. add64 x (disk_free_bytes e)) v.unreachable
              ∙ sym (
                  sum64-set (λ b. b.unreachable_bytes) (disk_free_bytes e) t.buckets i b b' found
                    refl);
        },
        sum64-set (λ b. b.count) 1 t.buckets i b b' found refl,
      )

-- Whatever the size of an extent, if it is counted, the totals stay balanced, and count one more.
pub add_totals-some :
    (t t' : Totals) (e : Extent)
    → add_totals t e ≡ some t'
    → IsBalanced t
    → IsBalanced t' × (count_of t' ≡ add64 (count_of t) 1)
unfolding add_totals update_at
add_totals-some t t' e runs v =
    elim (Option-cases (get_elem? t.buckets (ilog2 (max e.disk_bytes 1)))) [
      | inl missing ↦ absurd (none-ne-some t' (rw (add_totals, missing) at runs))
      | inr (b, found) ↦
          let (u, counts, balanced, counted) = counted-IsBalanced t e b found v in
          let same : u ≡ t' = some-injective u t' (sym counts ∙ runs) in
          rw⁻¹ same (balanced, counted)
    ]
