-- ===== src/Scan/Reasons.antt =====
-- `LeftAloneStats` of src/scan.rs: what counting an extent that is left alone does to the bucket of its
-- reason.
use mathlib.Core.Option.{none}
use btrealloc.Prelude.{
  ℕ, zero, suc, ◌<◌, ◌≡◌, ◌≢◌, refl, sym, ap, ◌∙◌, Option, some, List, [], ◌∷◌, arith, length, set,
  get_elem?, add64,
}
use btrealloc.Extent.{Extent, LeftAlone, disk_used_bytes, disk_free_bytes, too_little_to_free}
use btrealloc.Scan.{
  Bucket, count_extent, update_at, all_reasons, count_alone, reason_index, LeftAloneStats, get,
  add_left_alone, count_left,
}
use btrealloc.Scan.Account.{get_elem?-some, length-set}

-- The position of a reason in `LeftAlone::ALL` is its number.
pub reason_index-position : (r : LeftAlone) → get_elem? all_reasons (reason_index r) ≡ some r
unfolding reason_index
reason_index-position too_little_to_free = refl
reason_index-position _ = refl

reason_index-injective : (q r : LeftAlone) → reason_index q ≡ reason_index r → q ≡ r
reason_index-injective q r e =
    let p = reason_index-position q in
    let p' = reason_index-position r in
    let same : get_elem? all_reasons (reason_index q) ≡ get_elem? all_reasons (reason_index r) =
      ap (get_elem? all_reasons) e in
    cc

reason_index-lt : (r : LeftAlone) → reason_index r < 8
unfolding reason_index
reason_index-lt too_little_to_free = omega arith
reason_index-lt _ = omega arith

pub get_elem?-set_self :
    (bs : List Bucket) (i : ℕ) (b : Bucket) → i < length bs → get_elem? (set bs i b) i ≡ some b
get_elem?-set_self [] i b h = absurd (omega arith)
get_elem?-set_self (x ∷ bs) zero b h = refl
get_elem?-set_self (x ∷ bs) (suc i) b h = get_elem?-set_self bs i b (omega arith)

pub get_elem?-set_ne :
    (bs : List Bucket) (i j : ℕ) (b : Bucket) → i ≢ j → get_elem? (set bs i b) j ≡ get_elem? bs j
get_elem?-set_ne [] i j b h = refl
get_elem?-set_ne (x ∷ bs) zero zero b h = absurd (h refl)
get_elem?-set_ne (x ∷ bs) zero (suc j) b h = refl
get_elem?-set_ne (x ∷ bs) (suc i) zero b h = refl
get_elem?-set_ne (x ∷ bs) (suc i) (suc j) b h = get_elem?-set_ne bs i j b (λ e. h (ap suc e))

-- What counting one extent, or one of which nothing else is known, makes of a bucket.
pub record IsCounted (e : Option Extent) (before after : Bucket) : Type 0 where
  pub count : after.count ≡ add64 before.count 1
  pub allocated : after.allocated_bytes ≡ elim e [
    | none ↦ before.allocated_bytes
    | some x ↦ add64 before.allocated_bytes x.disk_bytes
  ]
  pub used :
      after.used_bytes
      ≡ elim e [ none ↦ before.used_bytes | some x ↦ add64 before.used_bytes (disk_used_bytes x) ]
  pub unreachable : after.unreachable_bytes ≡ elim e [
    | none ↦ before.unreachable_bytes
    | some x ↦ add64 before.unreachable_bytes (disk_free_bytes x)
  ]

count_left-IsCounted : (e : Option Extent) (b : Bucket) → IsCounted e b (count_left e b)
unfolding count_left count_alone count_extent
count_left-IsCounted none b = record {
  count = refl;
  allocated = refl;
  used = refl;
  unreachable = refl;
}
count_left-IsCounted (some x) b = record {
  count = refl;
  allocated = refl;
  used = refl;
  unreachable = refl;
}

-- What counting one extent under a reason does to the account.
pub record Counts (s : LeftAloneStats) (r : LeftAlone) (e : Option Extent)
    (result : Option LeftAloneStats) : Type 0 where
  pub after : LeftAloneStats
  pub bucket : Bucket
  pub returns : result ≡ some after
  pub before : get s r ≡ some bucket
  pub bucket_after : Bucket
  pub found : get after r ≡ some bucket_after
  pub counted : IsCounted e bucket bucket_after
  pub others : (q : LeftAlone) → q ≢ r → get after q ≡ get s q
  pub complete : length after.reasons ≡ 8

-- On an account with a bucket for each reason, counting an extent does not panic, and leaves a bucket
-- for each reason. The bucket of its reason counts one more, and adds the bytes that are allocated to
-- the extent, those that are used and those that are not, where these are known; no other bucket
-- changes.
pub add_left_alone-Counts :
    (s : LeftAloneStats) (r : LeftAlone) (e : Option Extent)
    → length s.reasons ≡ 8
    → Counts s r e (add_left_alone s r e)
unfolding add_left_alone update_at get
add_left_alone-Counts s r e h =
    let lt : reason_index r < length s.reasons = omega (arith, reason_index-lt r) in
    let (b, found) = get_elem?-some (reason_index r) s.reasons lt in
    record {
      after = record { reasons = set s.reasons (reason_index r) (count_left e b) };
      bucket = b;
      returns = rw (found, add_left_alone);
      before = found;
      bucket_after = count_left e b;
      found = get_elem?-set_self s.reasons (reason_index r) (count_left e b) lt;
      counted = count_left-IsCounted e b;
      others = λ q ne.
          get_elem?-set_ne s.reasons (reason_index r) (reason_index q) (count_left e b)
            (λ p. ne (reason_index-injective q r (sym p)));
      complete = length-set s.reasons (reason_index r) (count_left e b) ∙ h;
    }
