-- ===== src/Format/Units.antt =====
-- The unit that `human` of src/format.rs prints a number of bytes in.
use Prim.Native.String.{String, ◌++◌}
use btrealloc.Prelude.{
  ℕ, zero, suc, ◌+◌, ◌<◌, ◌≡◌, refl, true, false, some, List, [], ◌∷◌, ◌⊎◌, inl, inr, Bool-cases,
  length, get_elem?, arith,
}
use btrealloc.Format.{Formats, larger_units, human_from, human}

-- What is left of a number that is divided by 1024 so often.
abbrev pub reduced : (fmt : Formats) → fmt.Float → ℕ → fmt.Float
reduced fmt value zero = value
reduced fmt value (suc n) = reduced fmt (fmt.div value (fmt.of_u64 1024)) n

-- That a text is a number, to two digits, in the first of some units in which it is below 1024, or in
-- the last of them.
pub record IsInUnit (fmt : Formats) (value : fmt.Float) (units : List String) (text : String)
    : Type 0 where
  pub at : ℕ
  pub unit : String
  pub in_units : get_elem? units at ≡ some unit
  pub printed : text ≡ fmt.fixed 2 (reduced fmt value at) ++ (" " ++ unit)
  pub big_before : (j : ℕ) → j < at → fmt.ge (reduced fmt value j) (fmt.of_u64 1024) ≡ true
  pub stops : (at + 1 ≡ length units) ⊎ (fmt.ge (reduced fmt value at) (fmt.of_u64 1024) ≡ false)

-- The number as it is, where the loop does not go on.
stays :
    (fmt : Formats) (value : fmt.Float) (unit : String) (units : List String)
    → (1 ≡ length (unit ∷ units)) ⊎ (fmt.ge value (fmt.of_u64 1024) ≡ false)
    → IsInUnit fmt value (unit ∷ units) (fmt.fixed 2 value ++ (" " ++ unit))
stays fmt value unit units h = record {
  at = 0;
  unit = unit;
  in_units = refl;
  printed = refl;
  big_before = λ j h. absurd (omega arith);
  stops = h;
}

big_up_to :
    (fmt : Formats) (value : fmt.Float)
    → fmt.ge value (fmt.of_u64 1024) ≡ true
    → (n : ℕ)
    → ((j : ℕ)
        → j < n
        → fmt.ge (reduced fmt (fmt.div value (fmt.of_u64 1024)) j) (fmt.of_u64 1024) ≡ true)
    → (j : ℕ) → j < suc n
    → fmt.ge (reduced fmt value j) (fmt.of_u64 1024) ≡ true
big_up_to fmt value big n h zero lt = big
big_up_to fmt value big n h (suc j) lt = h j (omega arith)

human_from-IsInUnit :
    (fmt : Formats) (value : fmt.Float) (unit : String) (units : List String)
    → IsInUnit fmt value (unit ∷ units) (human_from fmt value unit units)
unfolding human_from
human_from-IsInUnit fmt value unit [] = stays fmt value unit [] (inl refl)
human_from-IsInUnit fmt value unit (larger ∷ units) =
    elim (Bool-cases (fmt.ge value (fmt.of_u64 1024))) [
      | inl big ↦
          let i = human_from-IsInUnit fmt (fmt.div value (fmt.of_u64 1024)) larger units in
          record {
            at = suc i.at;
            unit = i.unit;
            in_units = i.in_units;
            printed = rw big i.printed;
            big_before = big_up_to fmt value big i.at i.big_before;
            stops = elim i.stops [ inl last ↦ inl (omega arith) | inr small ↦ inr small ];
          }
      | inr small ↦ rw small (stays fmt value unit (larger ∷ units) (inr small))
    ]

-- `human` prints a number of bytes, to two digits, in a unit of B, KiB, MiB, GiB, TiB and PiB: the
-- number, divided by 1024 once for each unit passed over, is at least 1024 in every unit before that
-- one, and below 1024 in it, unless it is the last.
pub human-IsInUnit :
    (fmt : Formats) (bytes : ℕ)
    → IsInUnit fmt
        (fmt.of_u64 bytes)
        ("B" ∷ "KiB" ∷ "MiB" ∷ "GiB" ∷ "TiB" ∷ "PiB" ∷ [])
        (human fmt bytes)
unfolding human
human-IsInUnit fmt bytes = human_from-IsInUnit fmt (fmt.of_u64 bytes) "B" larger_units
