-- ===== src/Format.antt =====
-- src/format.rs, and what it and the printed reports use of the standard library's formatting, as a
-- parameter.
pub mod Units
use Prim.Native.String.{String, ◌++◌}
use btrealloc.Prelude.{ℕ, Bool, List, [], ◌∷◌, if◌then◌else◌}
use btrealloc.Abi.{Bytes}

pub record Formats : Type 1 where
  -- `{}` of a `u64`, and of a path's `display()`
  pub show : ℕ → String
  pub display : Bytes → String
  -- `{:>n}`
  pub pad : ℕ → String → String
  -- `f64`: `as f64` and a literal of a whole number, `>=`, `/` and `{:.n}`
  pub Float : Type 0
  pub of_u64 : ℕ → Float
  pub ge : Float → Float → Bool
  pub div : Float → Float → Float
  pub fixed : ℕ → Float → String

-- `UNITS`, behind the first
abbrev pub larger_units : List String
larger_units = "KiB" ∷ "MiB" ∷ "GiB" ∷ "TiB" ∷ "PiB" ∷ []

-- The loop of `human`: the value in the unit that was reached, with those behind it to go.
unfoldable pub human_from : (fmt : Formats) → fmt.Float → String → List String → String
human_from fmt value unit [] = fmt.fixed 2 value ++ (" " ++ unit)
human_from fmt value unit (larger ∷ units) =
    if fmt.ge value (fmt.of_u64 1024)
    then human_from fmt (fmt.div value (fmt.of_u64 1024)) larger units
    else fmt.fixed 2 value ++ (" " ++ unit)

unfoldable pub human : Formats → ℕ → String
unfolding human_from
human fmt bytes = human_from fmt (fmt.of_u64 bytes) "B" larger_units
