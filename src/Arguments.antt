-- ===== src/Arguments.antt =====
-- The loop over command-line arguments of `parse_args` in src/main.rs, which `main` of
-- bench/run_bench.rs has too, for any type of configuration.
pub mod Reading
use rust_kernel_engine.Base.{ℕ, zero, suc, ◌+◌, List, Option, none, some, get_elem?}
use rust_kernel_engine.Std.Keys.{Text}

-- `--help` prints a text and ends the program.
pub data Command (C : Type 0) : Type 0 where
  serve : C → Command C
  help : Command C

-- What a round of the loop does: new configuration and index, or the exit of `--help`.
pub data Step (C : Type 0) : Type 0 where
  next : C → ℕ → Step C
  exit : Step C

module _ {C : Type 0} where
  -- An option that takes a value: without a value it is passed over.
  unfoldable pub with_value : List Text → C → ℕ → (Text → C) → Step C
  with_value args config i assign = elim (get_elem? args (i + 1)) [
    | none ↦ next config i
    | some v ↦ next (assign v) (i + 1)
  ]

  -- The `while` loop; `none` means that the fuel ran out. A round moves the index forward.
  unfoldable pub parse_loop :
      (List Text → C → ℕ → Text → Step C) → ℕ → List Text → C → ℕ → Option (Command C)
  parse_loop parse_arg zero args config i = none
  parse_loop parse_arg (suc fuel) args config i = elim (get_elem? args i) [
    | none ↦ some (serve config)
    | some arg ↦ elim (parse_arg args config i arg) [
      | next config' i' ↦ parse_loop parse_arg fuel args config' (i' + 1)
      | exit ↦ some help
    ]
  ]
