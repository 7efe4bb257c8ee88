-- ===== src/Kernel/Backrefs/Growth.antt =====
-- The loop of `logical_ino` in src/kernel.rs ends: its buffer grows in every round, up to a limit.
use btrealloc.Prelude.{
  ℕ, zero, suc, ◌+◌, ◌-◌, ◌/◌, ◌^◌, ◌<◌, ◌≡◌, ◌≢◌, refl, ap, List, arith, ltb, Bool-cases, inl, inr,
}
use btrealloc.Io.{
  attempt, Result, ok, err, IoError, stuck, not_found, invalid_data, other, os_kind, ErrorKind,
  kind,
}
use btrealloc.Kernel.Os.{Os, State, Filesystem}
use btrealloc.Kernel.Backrefs.{
  logical_ino_max_size, logical_ino_start_size, first_words, lookup_failed, logical_ino_loop,
  logical_ino,
}

-- The call of the system does not return the error that stands for a loop out of fuel.
abbrev pub NeverStuck : (os : Os) → Filesystem os → Type 0
NeverStuck os fs =
    (address size : ℕ) (w w' : os.World) → os.logical_ino fs.file address size w ≢ (err stuck, w')

module _ (os : Os) (fs : Filesystem os) (law : NeverStuck os fs) where
  lookup_failed-ne-stuck :
      {A : Type 0} (e : IoError) (s : State os)
      → e ≢ stuck
      → (lookup_failed os fs {A = A} e s).0 ≢ err stuck
  unfolding lookup_failed
  lookup_failed-ne-stuck {A = A} e s ne = go (kind e) refl
    where
      go : (k : ErrorKind) → kind e ≡ k → (lookup_failed os fs {A = A} e s).0 ≢ err stuck
      go not_found p = rw (p, lookup_failed) (λ q. cc)
      go invalid_data p = rw (p, lookup_failed) (λ q. ne cc)
      go other p = rw (p, lookup_failed) (λ q. ne cc)
      go (os_kind n) p = rw (p, lookup_failed) (λ q. ne cc)

  -- What a round makes of the answer to its call.
  logical_ino_loop-ne-stuck :
      (fuel address size : ℕ) (s : State os)
      → logical_ino_max_size - size < fuel
      → (logical_ino_loop os fs fuel address size s).0 ≢ err stuck
  unfolding logical_ino_loop attempt
  logical_ino_loop-ne-stuck zero address size s h = absurd (omega arith)
  logical_ino_loop-ne-stuck (suc fuel) address size s h =
      go (os.logical_ino fs.file address size s.world) refl (logical_ino_loop-ne-stuck fuel)
    where
      go :
          (x : Result IoError (List ℕ) × os.World)
          → os.logical_ino fs.file address size s.world ≡ x
          → ((a n : ℕ) (t : State os)
              → logical_ino_max_size - n < fuel
              → (logical_ino_loop os fs fuel a n t).0 ≢ err stuck)
          → (logical_ino_loop os fs (suc fuel) address size s).0 ≢ err stuck
      go (err e, w) p later =
          rw (p, logical_ino_loop)
            (lookup_failed-ne-stuck e (record s { world = w })
              (λ q. law address size s.world w (rw p (ap (λ e. (err e, w)) q))))
      go (ok buf, w) p later =
          let missing = (first_words buf).0 / 2 ^ 32 in
          let t = record s { world = w } in
          elim (Bool-cases (ltb 0 missing)) [
            | inl m ↦ elim (Bool-cases (ltb logical_ino_max_size (size + missing))) [
              | inl l ↦ rw (p, m, l, logical_ino_loop) (λ q. cc)
              | inr l ↦
                  rw (p, m, l, logical_ino_loop) (later address (size + missing) t (ground arith))
            ]
            | inr m ↦ rw (p, m, logical_ino_loop) (λ q. cc)
          ]

  -- With more rounds than 16 MiB less 4 KiB, and where the call of the system does not return the
  -- error that stands for a loop out of fuel, neither does `logical_ino`: its loop has ended before
  -- the fuel did, whatever the calls answer.
  pub logical_ino-ne-stuck :
      (fuel address : ℕ) (s : State os)
      → logical_ino_max_size - logical_ino_start_size < fuel
      → (logical_ino os fs fuel address s).0 ≢ err stuck
  unfolding logical_ino
  logical_ino-ne-stuck fuel address s h =
      logical_ino_loop-ne-stuck fuel address logical_ino_start_size s h
