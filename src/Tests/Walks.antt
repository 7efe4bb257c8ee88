-- ===== src/Tests/Walks.antt =====
-- A look-up of the backreference walk that finds three items in two files.
use btrealloc.Prelude.{ℕ, ◌≢◌, List, [], ◌∷◌, arith}
use btrealloc.Io.{err, stuck}
use btrealloc.Kernel.Backrefs.{logical_ino}
use btrealloc.Kernel.Backrefs.Growth.{logical_ino-ne-stuck}
use btrealloc.Tests.Toy.{toy, toy_fs, toy_state}

abbrev three_items : List ℕ
three_items = 258 ∷ 0 ∷ 5 ∷ 257 ∷ 8192 ∷ 5 ∷ 257 ∷ 0 ∷ 5 ∷ []

logical_ino-ne-stuck_example : (logical_ino toy toy_fs 16777217 1048576 toy_state).0 ≢ err stuck
logical_ino-ne-stuck_example =
    logical_ino-ne-stuck toy toy_fs (λ address size w w' e. cc) 16777217 1048576 toy_state
      (omega arith)
