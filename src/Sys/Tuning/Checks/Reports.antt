-- ===== src/Sys/Tuning/Checks/Reports.antt =====
-- `check_irq_affinity` of src/sys/tuning.rs: the lines that it logs.
use mathlib.Core.Option
use rust_kernel_engine.Base.{
  ℕ, ◌+◌, ◌-◌, ◌≤◌, ◌^◌, ◌≡◌, refl, List, [], ◌∷◌, Option, none, some, All, length, ltb, arith,
  Option-cases, Bool-cases, inl, inr,
}
use rust_kernel_engine.Std.Keys.{Text}
use rust_kernel_engine.Std.Words.{trim}
use rust_kernel_engine.Std.Numbers.{from_str_radix}
use rust_kernel_engine.Sys.Tuning.{Files}
use rust_kernel_engine.Sys.Tuning.Checks.{irq_loop, check_irq_affinity, affinity_path}

-- A line about an interrupt shows the trimmed text of its file.
abbrev pub Shows : Files → ℕ × Text → Type 0
Shows files (irq, shown) =
    (content : Text) × (files (affinity_path irq) ≡ some content) × (shown ≡ trim content)

irq_loop-Shows :
    (files : Files) (count : ℕ) (names : List (Option Text))
    → (length (irq_loop files count names) ≤ 5 - count)
      × All (Shows files) (irq_loop files count names)
unfolding irq_loop
irq_loop-Shows files count [] = (omega arith, tt)
irq_loop-Shows files count (name ∷ names) =
    let skipped = irq_loop-Shows files count names in
    let counted = irq_loop-Shows files (count + 1) names in
    elim (Option-cases (from_str_radix 10 (2 ^ 32 - 1) (Option.get_or name []))) [
      | inl e ↦ rw (e, irq_loop) skipped
      | inr (irq, e) ↦ elim (Option-cases (files (affinity_path irq))) [
        | inl f ↦ rw (e, f, irq_loop) skipped
        | inr (content, f) ↦ elim (Bool-cases (ltb count 5)) [
          | inl l ↦
              rw (e, f, l, irq_loop) (ground (arith, counted.0), ((content, f, refl), counted.1))
          | inr l ↦ rw (e, f, l, irq_loop) skipped
        ]
      ]
    ]

-- At most five interrupts are shown, each with the trimmed text of its own file.
check_irq_affinity-Shows :
    (names : Option (List (Option Text))) (files : Files)
    → (length (check_irq_affinity names files) ≤ 5)
      × All (Shows files) (check_irq_affinity names files)
unfolding check_irq_affinity
check_irq_affinity-Shows none files = (omega arith, tt)
check_irq_affinity-Shows (some names) files = irq_loop-Shows files 0 names
