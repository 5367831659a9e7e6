-- ===== src/PuzzleConfig.antt =====
-- The constants of src/puzzle_config.rs.
use puzzle71_solver.Prelude.{ℕ, ◌-◌, ◌^◌}

abbrev pub puzzle_number : ℕ
puzzle_number = 71

abbrev pub range_min : ℕ
range_min = 2 ^ 70

abbrev pub range_max : ℕ
range_max = 2 ^ 71 - 1

abbrev pub range_size : ℕ
range_size = 2 ^ 70
