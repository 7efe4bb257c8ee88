-- ===== src/Main/Logger.antt =====
-- The logger of src/main.rs: which messages it writes to stderr, and as what lines.
use Prim.Native.String.{String, ◌++◌}
use btrealloc.Prelude.{ℕ, Bool, true, false, ◌&&◌, not, List, [], ◌∷◌, ◌==◌, leb, if◌then◌else◌}
use btrealloc.Abi.{Bytes}

-- `log::Level`
pub data Level : Type 0 where
  error warn info debug trace : Level

-- The order of the levels: the more there is to say, the greater.
abbrev pub verbosity : Level → ℕ
verbosity error = 1
verbosity warn = 2
verbosity info = 3
verbosity debug = 4
verbosity trace = 5

-- `log::LevelFilter`
pub data LevelFilter : Type 0 where
  off : LevelFilter
  up_to : Level → LevelFilter

-- `level <= filter`
abbrev pub passes : Level → LevelFilter → Bool
passes level off = false
passes level (up_to most) = leb (verbosity level) (verbosity most)

-- `log::Record`, with its metadata; the target is the module that the message comes from.
pub record Message : Type 0 where
  pub level : Level
  pub target : Bytes
  pub args : String

-- `str::starts_with`
unfoldable pub starts_with : Bytes → Bytes → Bool
starts_with [] text = true
starts_with (c ∷ prefix) [] = false
starts_with (c ∷ prefix) (d ∷ text) = c == d && starts_with prefix text

abbrev pub own_target : Bytes
own_target = b'b' ∷ b't' ∷ b'r' ∷ b'e' ∷ b'a' ∷ b'l' ∷ b'l' ∷ b'o' ∷ b'c' ∷ []

-- `Logger::enabled`, where `most` is `log::max_level()`.
unfoldable pub enabled : LevelFilter → Message → Bool
enabled most m = passes m.level most && starts_with own_target m.target

-- The line that a message makes.
unfoldable pub line_of : Level → String → String
line_of error args = "error: " ++ args
line_of warn args = "warning: " ++ args
line_of _ args = args

-- `Logger::log`
unfoldable pub log : LevelFilter → Message → List String
unfolding enabled line_of
log most m = if not (enabled most m) then [] else line_of m.level m.args ∷ []
