-- ===== src/Run/Copy/Gaps.antt =====
-- The gap that the end of a file leaves in a stretch: where `read_liveranges` of src/run.rs goes on.
use btrealloc.Prelude.{
  ℕ, ◌≤◌, ◌<◌, ◌≡◌, refl, Option, none, some, List, [], ◌∷◌, arith, min, ltb, Bool-cases, inl, inr,
  All,
}
use btrealloc.Run.Copy.{Source, min_past, unwrap_or}

module _ (read : ℕ) where
  -- The next stretch starts behind the gap, and no reference that starts there starts before it.
  abbrev pub IsNext : ℕ → Source → Type 0
  IsNext n src = read < src.0.extent_offset → n ≤ src.0.extent_offset

  least-eq : (a : ℕ) (o : Option ℕ) → elim o [ none ↦ a | some n ↦ min a n ] ≡ min a (unwrap_or o a)
  least-eq a none = omega arith
  least-eq a (some n) = refl

  pub min_past-IsNext :
      (refs : List Source) (end n : ℕ)
      → n ≤ unwrap_or (min_past read refs) end
      → All (IsNext n) refs
  unfolding min_past
  min_past-IsNext [] end n h = tt
  min_past-IsNext ((r, l) ∷ refs) end n h = elim (Bool-cases (ltb read r.extent_offset)) [
    | inl c ↦
        let least = rw (c, least-eq r.extent_offset (min_past read refs)) at h in
        (
          λ past. omega (arith, least),
          min_past-IsNext refs r.extent_offset n (omega (arith, least)),
        )
    | inr c ↦ (λ past. absurd (ground arith), min_past-IsNext refs end n (rw c at h))
  ]

  pub min_past-behind :
      (refs : List Source) (start end : ℕ)
      → start ≤ read
      → start < end
      → start < unwrap_or (min_past read refs) end
  unfolding min_past
  min_past-behind [] start end le lt = lt
  min_past-behind ((r, l) ∷ refs) start end le lt = elim (Bool-cases (ltb read r.extent_offset)) [
    | inl c ↦
        let past : start < r.extent_offset = ground arith in
        rw (c, least-eq r.extent_offset (min_past read refs))
          (omega (arith, past, min_past-behind refs start r.extent_offset le past))
    | inr c ↦ rw c (min_past-behind refs start end le lt)
  ]
