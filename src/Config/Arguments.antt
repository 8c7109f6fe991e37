-- ===== src/Config/Arguments.antt =====
-- `parse_args` of src/main.rs against a reading of the list of arguments.
use rust_kernel_engine.Base.{
  ℕ, ◌≤◌, ◌≡◌, refl, ap, List, [], ◌∷◌, Bool, true, false, ◌||◌, Option, some, drop, if◌then◌else◌,
  arith,
}
use mathlib.Core.Option
use rust_kernel_engine.Arguments.Reading.{
  Meaning, takes, flag, asks_help, interpret, by_meaning, parse_loop_all,
}
use rust_kernel_engine.Std.Keys.{Text, text_eq}
use rust_kernel_engine.Std.Numbers.{from_str_radix, usize_max, to_string, from_str_radix-to_string}
use rust_kernel_engine.Std.Str.{codes}
use rust_kernel_engine.Config.{
  ServerMode, fast_path, dynamic_path, ServerConfig, serve, num_cpus, default, mode_of, parse_arg,
  parse_args,
}

-- What each argument means.
module _ (available_parallelism : Option ℕ) where
  abbrev pub meaning : Text → Meaning ServerConfig
  meaning arg =
      if text_eq arg (codes "--host")
      then takes (λ v c. record c { host = v })
      else if text_eq arg (codes "--port")
      then takes (λ v c. record c { port = Option.get_or (from_str_radix 10 65535 v) 8080 })
      else if text_eq arg (codes "--workers")
      then takes (λ v c. record c {
        num_workers =
            Option.get_or (from_str_radix 10 usize_max v) (num_cpus available_parallelism);
      })
      else if text_eq arg (codes "--mode")
      then takes (λ v c. record c { mode = mode_of v })
      else if text_eq arg (codes "--static-dir")
      then takes (λ v c. record c { static_dir = v })
      else if text_eq arg (codes "--no-io-uring")
      then flag (λ c. record c { use_io_uring = false })
      else if text_eq arg (codes "--help") || text_eq arg (codes "-h")
      then asks_help
      else flag (λ c. c)

  parse_arg-by_meaning :
      (args : List Text) (c : ServerConfig) (i : ℕ) (arg : Text)
      → parse_arg available_parallelism args c i arg ≡ by_meaning meaning (meaning arg) args c i
  unfolding parse_arg by_meaning
  parse_arg-by_meaning args c i arg = ground arith

-- The loop over an index ends, and reads the arguments behind the program's name from left to right:
-- an option that takes a value takes the next argument, whatever it is, and is passed over if there
-- is none; `--help` ends the reading; an unknown argument changes nothing.
pub parse_args-interpret :
    (available_parallelism : Option ℕ) (feature : Bool) (args : List Text)
    → parse_args available_parallelism feature args
      ≡ some (
          interpret
            (meaning available_parallelism)
            (drop 1 args)
            (default available_parallelism feature))
unfolding parse_args
parse_args-interpret available_parallelism feature args =
    parse_loop_all (meaning available_parallelism) (parse_arg available_parallelism)
      (parse_arg-by_meaning available_parallelism) args (default available_parallelism feature)

abbrev mode_name : ServerMode → Text
mode_name fast_path = codes "fast-path"
mode_name dynamic_path = codes "dynamic-path"

abbrev uring_args : Bool → List Text
uring_args true = []
uring_args false = codes "--no-io-uring" ∷ []

-- A command line that asks for a configuration.
abbrev pub args_for : ServerConfig → List Text
args_for c =
    codes "server"
    ∷ codes "--host"
    ∷ c.host
    ∷ codes "--port"
    ∷ to_string c.port
    ∷ codes "--workers"
    ∷ to_string c.num_workers
    ∷ codes "--mode"
    ∷ mode_name c.mode
    ∷ codes "--static-dir"
    ∷ c.static_dir
    ∷ uring_args c.use_io_uring

mode_of_name : (m : ServerMode) → mode_of (mode_name m) ≡ m
mode_of_name fast_path = refl
mode_of_name dynamic_path = refl

uring_args-interpret :
    (available_parallelism : Option ℕ) (c : ServerConfig) (b : Bool)
    → interpret (meaning available_parallelism) (uring_args b) (record c { use_io_uring = true })
      ≡ serve (record c { use_io_uring = b })
uring_args-interpret available_parallelism c true = refl
uring_args-interpret available_parallelism c false = refl

-- Every configuration whose port fits 16 bits and whose number of workers fits `usize` is what the
-- command line that asks for it yields, in a build with the feature `io_uring`.
pub parse_args-args_for :
    (available_parallelism : Option ℕ) (c : ServerConfig)
    → c.port ≤ 65535
    → c.num_workers ≤ usize_max
    → parse_args available_parallelism true (args_for c) ≡ some (serve c)
unfolding default
parse_args-args_for available_parallelism c hp hw =
    let port = from_str_radix-to_string 65535 c.port hp in
    let workers = from_str_radix-to_string usize_max c.num_workers hw in
    rw parse_args-interpret (
      ap some (
        cc (
          uring_args-interpret available_parallelism (read_back c) c.use_io_uring,
          port,
          workers,
          mode_of_name c.mode,
        )))
  where
    read_back : ServerConfig → ServerConfig
    read_back d = record d {
      port = Option.get_or (from_str_radix 10 65535 (to_string d.port)) 8080;
      num_workers =
          Option.get_or (from_str_radix 10 usize_max (to_string d.num_workers))
            (num_cpus available_parallelism);
      mode = mode_of (mode_name d.mode);
    }
