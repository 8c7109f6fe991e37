-- ===== src/Arguments/Reading.antt =====
-- The loop over the arguments against a description by the list of the arguments.
use rust_kernel_engine.Base.{
  ℕ, zero, suc, ◌+◌, ◌<◌, ◌≡◌, refl, ◌∙◌, ap, List, [], ◌∷◌, Option, none, some, length,
  length-drop, drop, get_elem?, arith,
}
use rust_kernel_engine.Std.Keys.{Text}
use rust_kernel_engine.Arguments.{Command, serve, help, Step, next, exit, with_value, parse_loop}

-- What an option does to a configuration: it takes a value, is a flag, or asks for help. An argument
-- that is not known is a flag that changes nothing.
pub data Meaning (C : Type 0) : Type 0 where
  takes : (Text → C → C) → Meaning C
  flag : (C → C) → Meaning C
  asks_help : Meaning C

module _ {C : Type 0} (meaning : Text → Meaning C) where
  -- The arguments read from the left, by recursion on the list.
  abbrev pub interpret : List Text → C → Command C
  interpret [] c = serve c
  interpret (arg ∷ []) c = elim (meaning arg) [
    | takes assign ↦ serve c
    | flag change ↦ serve (change c)
    | asks_help ↦ help
  ]
  interpret (arg ∷ v ∷ rest) c = elim (meaning arg) [
    | takes assign ↦ interpret rest (assign v c)
    | flag change ↦ interpret (v ∷ rest) (change c)
    | asks_help ↦ help
  ]

  get-drop :
      (args : List Text) (i : ℕ) {a : Text} {rest : List Text}
      → drop i args ≡ a ∷ rest
      → (get_elem? args i ≡ some a) × (drop (suc i) args ≡ rest)
  get-drop [] zero h = cc
  get-drop [] (suc i) h = cc
  get-drop (x ∷ args) zero h = (ground arith, ground arith)
  get-drop (x ∷ args) (suc i) h = get-drop args i h

  get-drop_nil : (args : List Text) (i : ℕ) → drop i args ≡ [] → get_elem? args i ≡ none
  get-drop_nil [] i h = refl
  get-drop_nil (x ∷ args) zero h = cc
  get-drop_nil (x ∷ args) (suc i) h = get-drop_nil args i h

  unfoldable pub by_meaning : Meaning C → List Text → C → ℕ → Step C
  unfolding with_value
  by_meaning (takes assign) args c i = with_value args c i (λ v. assign v c)
  by_meaning (flag change) args c i = next (change c) i
  by_meaning asks_help args c i = exit

  module _ (parse_arg : List Text → C → ℕ → Text → Step C)
      (agrees : (args : List Text) (c : C) (i : ℕ) (arg : Text)
        → parse_arg args c i arg ≡ by_meaning (meaning arg) args c i) where
    -- The rest of the loop does what the list of the remaining arguments says.
    abbrev Interprets : ℕ → List Text → Type 0
    Interprets fuel args =
        (rest : List Text) (c : C) (i : ℕ)
        → length rest < fuel
        → drop i args ≡ rest
        → parse_loop parse_arg fuel args c i ≡ some (interpret rest c)

    abbrev go_on : ℕ → List Text → Step C → Option (Command C)
    go_on fuel args step = elim step [
      | next c i ↦ parse_loop parse_arg fuel args c (i + 1)
      | exit ↦ some help
    ]

    last_arg :
        (m : Meaning C) (fuel : ℕ) (args : List Text) (c : C) (i : ℕ)
        → Interprets fuel args
        → 0 < fuel
        → drop (i + 1) args ≡ []
        → go_on fuel args (by_meaning m args c i)
          ≡ some (elim m [
            | takes assign ↦ serve c
            | flag change ↦ serve (change c)
            | asks_help ↦ help
          ])
    unfolding by_meaning
    last_arg (takes assign) fuel args c i ih f d =
        rw (get-drop_nil args (i + 1) d, with_value) (ih [] c (i + 1) f d)
    last_arg (flag change) fuel args c i ih f d = ih [] (change c) (i + 1) f d
    last_arg asks_help fuel args c i ih f d = refl

    inner_arg :
        (m : Meaning C) (fuel : ℕ) (args rest : List Text) (v : Text) (c : C) (i : ℕ)
        → Interprets fuel args
        → length rest + 1 < fuel
        → drop (i + 1) args ≡ v ∷ rest
        → go_on fuel args (by_meaning m args c i)
          ≡ some (elim m [
            | takes assign ↦ interpret rest (assign v c)
            | flag change ↦ interpret (v ∷ rest) (change c)
            | asks_help ↦ help
          ])
    unfolding by_meaning
    inner_arg (takes assign) fuel args rest v c i ih f d =
        let (here, after) = get-drop args (i + 1) d in
        let e : i + 1 + 1 ≡ suc (i + 1) = omega arith in
        rw (here, with_value)
          (ih rest (assign v c) (i + 1 + 1) (omega arith) (ap (λ k. drop k args) e ∙ after))
    inner_arg (flag change) fuel args rest v c i ih f d =
        ih (v ∷ rest) (change c) (i + 1) (omega arith) d
    inner_arg asks_help fuel args rest v c i ih f d = refl

    parse_loop-interpret :
        (fuel : ℕ) (args rest : List Text) (c : C) (i : ℕ)
        → length rest < fuel
        → drop i args ≡ rest
        → parse_loop parse_arg fuel args c i ≡ some (interpret rest c)
    unfolding parse_loop
    parse_loop-interpret zero args rest c i f d = elim f [ ]
    parse_loop-interpret (suc fuel) args [] c i f d = rw (get-drop_nil args i d, parse_loop) refl
    parse_loop-interpret (suc fuel) args (arg ∷ []) c i f d =
        let (at_i, after) = get-drop args i d in
        let e : i + 1 ≡ suc i = omega arith in
        rw (at_i, parse_loop, agrees args c i arg)
          (last_arg (meaning arg) fuel args c i (parse_loop-interpret fuel args) (omega arith)
            (ap (λ k. drop k args) e ∙ after))
    parse_loop-interpret (suc fuel) args (arg ∷ v ∷ rest) c i f d =
        let (at_i, after) = get-drop args i d in
        let e : i + 1 ≡ suc i = omega arith in
        rw (at_i, parse_loop, agrees args c i arg)
          (inner_arg (meaning arg) fuel args rest v c i (parse_loop-interpret fuel args)
            (omega arith) (ap (λ k. drop k args) e ∙ after))

    -- From the first argument behind the program's name, with as much fuel as there are arguments.
    pub parse_loop_all :
        (args : List Text) (c : C)
        → parse_loop parse_arg (suc (length args)) args c 1 ≡ some (interpret (drop 1 args) c)
    parse_loop_all args c =
        parse_loop-interpret (suc (length args)) args (drop 1 args) c 1
          (omega (arith, length-drop 1 args)) refl
