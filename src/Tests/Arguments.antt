-- ===== src/Tests/Arguments.antt =====
-- The logger of a process that has set up nothing yet.
use btrealloc.Prelude.{◌≡◌, refl, Bool, true, false, not, some, [], ◌∷◌}
use btrealloc.Main.Logger.{LevelFilter, up_to, warn, Message, log}
use btrealloc.Main.Arguments.{Args, Libraries, IsFresh, parse_options, Prints, parse_options-shows}

-- Whether there is a logger, the level, and whether there is a pool.
record Process : Type 0 where
  pub logs : Bool
  pub most : LevelFilter
  pub pooled : Bool

-- Neither a logger nor a pool can be set a second time.
abbrev plain : Libraries
plain = record {
  World = Process;
  set_logger = λ w. (not w.logs, record w { logs = true });
  set_max_level = λ most w. record w { most = most };
  max_level = λ w. w.most;
  build_global = λ jobs w. (not w.pooled, record w { pooled = true });
}

abbrev untouched : plain.World
untouched = record { logs = false; most = up_to warn; pooled = false }

plain-IsFresh : IsFresh plain untouched
plain-IsFresh = record {
  accepts = refl;
  keeps_level = λ most v. refl;
  builds = λ jobs most. refl;
  leaves_level = λ jobs v. refl;
}

abbrev given : Args
given = record { path = b'/' ∷ []; apply = true; verbose = true; jobs = some 4 }

parse_options-shows_example :
    (w : plain.World) × (parse_options plain given untouched
      ≡ (some (record { path = given.path; apply = given.apply }), w))
    × ((m : Message) → Prints true m (log w.most m))
parse_options-shows_example = parse_options-shows plain given untouched plain-IsFresh
