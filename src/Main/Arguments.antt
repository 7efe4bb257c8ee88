-- ===== src/Main/Arguments.antt =====
-- `Args` and `parse_options` of src/main.rs, from the arguments that clap has parsed on.
use Prim.Native.String.{String, ◌++◌}
use mathlib.Core.Bool.{and-false}
use mathlib.Core.Path.{subst}
use btrealloc.Prelude.{
  ℕ, ◌≡◌, refl, sym, ap, ◌∙◌, Bool-cases, inl, inr, Bool, true, false, Option, none, some, List, [],
  ◌∷◌, not, if◌then◌else◌,
}
use btrealloc.Format.{Formats}
use btrealloc.Kernel.Os.{Os, FilePath, State}
use btrealloc.Main.{Options, Ended, panic, main}
use btrealloc.Abi.{Bytes}
use btrealloc.Main.Prefix.{starts_with_self, starts_with-rest}
use btrealloc.Main.Logger.{
  Level, LevelFilter, up_to, error, warn, info, debug, trace, passes, Message, own_target,
  starts_with, line_of, enabled, log,
}

-- `Args`
pub record Args : Type 0 where
  pub path : FilePath
  pub apply : Bool
  pub verbose : Bool
  pub jobs : Option ℕ

-- What the program takes from the crates `log` and `rayon`, with the state of both: `set_logger` and
-- `build_global` say whether they succeeded.
pub record Libraries : Type 1 where
  pub World : Type 0
  pub set_logger : World → Bool × World
  pub set_max_level : LevelFilter → World → World
  pub max_level : World → LevelFilter
  pub build_global : ℕ → World → Bool × World

-- What the user is shown of a message of the program itself, with `-v` or without.
abbrev pub shown : Bool → Message → List String
shown verbose m = elim m.level [
  | error ↦ ("error: " ++ m.args) ∷ []
  | warn ↦ ("warning: " ++ m.args) ∷ []
  | info ↦ if verbose then m.args ∷ [] else []
  | debug ↦ []
  | trace ↦ []
]

-- Whether a target names the program, or a part of it, and how it goes on from there.
abbrev pub IsOwn : Bytes → Bytes → Type 0
IsOwn target rest = target ≡ b'b' ∷ b't' ∷ b'r' ∷ b'e' ∷ b'a' ∷ b'l' ∷ b'l' ∷ b'o' ∷ b'c' ∷ rest

-- What is printed of a message: what is to be shown, if it is the program's own, and nothing else.
pub data Prints (verbose : Bool) (m : Message) : List String → Type 0 where
  own : (rest : Bytes) → IsOwn m.target rest → Prints verbose m (shown verbose m)
  foreign : ((rest : Bytes) → ¬ IsOwn m.target rest) → Prints verbose m []

-- The level that `-v` asks for.
abbrev pub level_of : Bool → LevelFilter
level_of verbose = if verbose then up_to info else up_to warn

-- What the level lets through of the program's own messages.
log_own :
    (verbose : Bool) (level : Level) (target : Bytes) (args : String)
    → starts_with own_target target ≡ true
    → log (level_of verbose) (record { level = level; target = target; args = args })
      ≡ shown verbose (record { level = level; target = target; args = args })
unfolding log enabled line_of
log_own true error target args h = rw h refl
log_own true warn target args h = rw h refl
log_own true info target args h = rw h refl
log_own true _ target args h = refl
log_own false error target args h = rw h refl
log_own false warn target args h = rw h refl
log_own false _ target args h = refl

log-Prints : (verbose : Bool) (m : Message) → Prints verbose m (log (level_of verbose) m)
unfolding log enabled
log-Prints verbose m = elim (Bool-cases (starts_with own_target m.target)) [
  | inl e ↦
      let (rest, same) = starts_with-rest own_target m.target e in
      subst (Prints verbose m) (sym (log_own verbose m.level m.target m.args e)) (own rest same)
  | inr e ↦
      rw (log, e, and-false (passes m.level (level_of verbose)))
        (foreign (λ rest same.
          let own_too : starts_with own_target m.target ≡ true =
            ap (starts_with own_target) same ∙ starts_with_self own_target rest in
          let clash : false ≡ true = sym e ∙ own_too in absurd cc))
]

module _ (lib : Libraries) where
  -- The pool, where a number of jobs is given; `expect` panics where it cannot be built.
  unfoldable pub set_jobs : Option ℕ → lib.World → Bool × lib.World
  set_jobs none w = (true, w)
  set_jobs (some jobs) w = lib.build_global jobs w

  -- `parse_options`; `none` is the panic of an `expect`.
  unfoldable pub parse_options : Args → lib.World → Option Options × lib.World
  unfolding set_jobs
  parse_options args w =
      let (logs, w1) = lib.set_logger w in
      if not logs
      then (none, w1)
      else let (built, w2) = set_jobs args.jobs (lib.set_max_level (level_of args.verbose) w1) in
        if not built
        then (none, w2)
        else (some (record { path = args.path; apply = args.apply }), w2)

  -- All of `main`, for the user that `geteuid` returns.
  unfoldable pub start :
      Formats → (os : Os) → ℕ → ℕ → Args → lib.World → State os → Ended × State os
  unfolding parse_options
  start fmt os fuel user args w s = elim (parse_options args w).0 [
    | none ↦ ((panic, []), s)
    | some options ↦ main fmt os fuel user options s
  ]

  -- What the documentation of the two crates says of a process in which neither was set up yet.
  pub record IsFresh (w : lib.World) : Type 0 where
    pub accepts : (lib.set_logger w).0 ≡ true
    pub keeps_level :
        (most : LevelFilter) (v : lib.World) → lib.max_level (lib.set_max_level most v) ≡ most
    -- the pool is built once the logger is there, whatever the level and the number of jobs
    pub builds :
        (jobs : ℕ) (most : LevelFilter)
        → (lib.build_global jobs (lib.set_max_level most (lib.set_logger w).1)).0 ≡ true
    pub leaves_level :
        (jobs : ℕ) (v : lib.World) → lib.max_level (lib.build_global jobs v).1 ≡ lib.max_level v

  set_jobs-level :
      (jobs : Option ℕ) (most : LevelFilter) {w : lib.World}
      → IsFresh w
      → ((set_jobs jobs (lib.set_max_level most (lib.set_logger w).1)).0 ≡ true)
        × (lib.max_level (set_jobs jobs (lib.set_max_level most (lib.set_logger w).1)).1 ≡ most)
  unfolding set_jobs
  set_jobs-level none most {w} h = (refl, h.keeps_level most (lib.set_logger w).1)
  set_jobs-level (some jobs) most {w} h =
      let v = lib.set_max_level most (lib.set_logger w).1 in
      (h.builds jobs most, h.leaves_level jobs v ∙ h.keeps_level most (lib.set_logger w).1)

  -- In a process that has neither a logger nor a pool of threads yet, `parse_options` does not panic,
  -- returns the options that the arguments name, and leaves the logger so that of the messages whose
  -- target starts with the name of the program, and of no other, errors and warnings are always printed, behind "error: " and
  -- "warning: ", messages of the level `info` as they are and only with `-v`, and others never.
  pub parse_options-shows :
      (args : Args) (w : lib.World)
      → IsFresh w
      → (w' : lib.World) × (parse_options args w
          ≡ (some (record { path = args.path; apply = args.apply }), w'))
        × ((m : Message) → Prints args.verbose m (log (lib.max_level w') m))
  unfolding parse_options
  parse_options-shows args w h =
      let w1 = (lib.set_logger w).1 in
      let w2 = lib.set_max_level (level_of args.verbose) w1 in
      let (built, level) = set_jobs-level args.jobs (level_of args.verbose) h in
      (
        (set_jobs args.jobs w2).1,
        rw (h.accepts, built) refl,
        λ m. rw level (log-Prints args.verbose m),
      )

  -- So nothing of `main` is lost before it has its options.
  start-eq :
      (fmt : Formats) (os : Os) (fuel user : ℕ) (args : Args) (w : lib.World) (s : State os)
      → IsFresh w
      → start fmt os fuel user args w s
        ≡ main fmt os fuel user (record { path = args.path; apply = args.apply }) s
  unfolding start
  start-eq fmt os fuel user args w s h =
      let (w', returns, level) = parse_options-shows args w h in rw (start, returns) refl
