-- ===== src/Examples/CommandLine.antt =====
-- Examples for the command line of src/main.rs, on a machine with four processors.
use rust_kernel_engine.Base.{◌≡◌, refl, List, [], ◌∷◌, true, false, none, some, drop}
use rust_kernel_engine.Std.Keys.{Text}
use rust_kernel_engine.Std.Numbers.{from_str_radix}
use rust_kernel_engine.Std.Str.{codes}
use rust_kernel_engine.Config.{
  ServerConfig, dynamic_path, serve, help, default, parse_args, detect_backend, io_uring, epoll,
}
use rust_kernel_engine.Arguments.Reading.{interpret}
use rust_kernel_engine.Config.Arguments.{meaning, parse_args-interpret}

-- The last option has no value.
abbrev command_line : List Text
command_line =
    codes "server"
    ∷ codes "--port"
    ∷ codes "99999"
    ∷ codes "--mode"
    ∷ codes "dynamic-path"
    ∷ codes "--workers"
    ∷ []

command_line_result :
    parse_args (some 4) true command_line
    ≡ some (serve (record (default (some 4) true) { mode = dynamic_path }))
unfolding parse_args default from_str_radix
command_line_result = refl

-- An option takes the next argument, `--help` too.
help_tests :
    (parse_args none true (codes "server" ∷ codes "x" ∷ codes "-h" ∷ []) ≡ some help)
    × (parse_args none true (codes "server" ∷ codes "--host" ∷ codes "--help" ∷ [])
        ≡ some (serve (record (default none true) { host = codes "--help" })))
unfolding parse_args default
help_tests = (refl, refl)

backend_tests :
    (detect_backend true true true ≡ io_uring)
    × (detect_backend true false true ≡ epoll)
    × (detect_backend false true true ≡ epoll)
    × (detect_backend true true false ≡ epoll)
unfolding detect_backend
backend_tests = (refl, refl, refl, refl)

abbrev pub wanted : ServerConfig
wanted = record {
  host = codes "127.0.0.1";
  port = 3000;
  num_workers = 8;
  mode = dynamic_path;
  static_dir = codes "/srv";
  use_io_uring = false;
}

parse_args-interpret_example :
    parse_args (some 4) true command_line
    ≡ some (interpret (meaning (some 4)) (drop 1 command_line) (default (some 4) true))
parse_args-interpret_example = parse_args-interpret (some 4) true command_line
