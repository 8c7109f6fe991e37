-- ===== src/Bench/Options.antt =====
-- The options of bench/run_bench.rs against a reading of the list of arguments.
use rust_kernel_engine.Base.{ℕ, ◌≡◌, List, ◌||◌, some, drop, if◌then◌else◌, arith}
use mathlib.Core.Option
use rust_kernel_engine.Arguments.Reading.{
  Meaning, takes, flag, asks_help, interpret, by_meaning, parse_loop_all,
}
use rust_kernel_engine.Std.Keys.{Text, text_eq}
use rust_kernel_engine.Std.Numbers.{from_str_radix}
use rust_kernel_engine.Std.Str.{codes}
use rust_kernel_engine.Bench.{BenchmarkConfig, defaults, size_or, parse_arg, parse_args}

abbrev pub meaning : Text → Meaning BenchmarkConfig
meaning arg =
    if text_eq arg (codes "--host")
    then takes (λ v c. record c { target_host = v })
    else if text_eq arg (codes "--port")
    then takes (λ v c. record c { target_port = Option.get_or (from_str_radix 10 65535 v) 8080 })
    else if text_eq arg (codes "--connections") || text_eq arg (codes "-c")
    then takes (λ v c. record c { num_connections = size_or 10 v })
    else if text_eq arg (codes "--requests") || text_eq arg (codes "-n")
    then takes (λ v c. record c { requests_per_connection = size_or 1000 v })
    else if text_eq arg (codes "--payload") || text_eq arg (codes "-p")
    then takes (λ v c. record c { payload_size = size_or 128 v })
    else if text_eq arg (codes "--help") || text_eq arg (codes "-h")
    then asks_help
    else flag (λ c. c)

parse_arg-by_meaning :
    (args : List Text) (c : BenchmarkConfig) (i : ℕ) (arg : Text)
    → parse_arg args c i arg ≡ by_meaning meaning (meaning arg) args c i
unfolding parse_arg by_meaning
parse_arg-by_meaning args c i arg = ground arith

-- The loop over the arguments of the benchmark ends, and reads them from left to right as the table
-- of its options says.
parse_args_lem :
    (args : List Text) → parse_args args ≡ some (interpret meaning (drop 1 args) defaults)
unfolding parse_args
parse_args_lem args = parse_loop_all meaning parse_arg parse_arg-by_meaning args defaults
