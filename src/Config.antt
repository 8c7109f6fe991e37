-- ===== src/Config.antt =====
-- The configuration in src/main.rs. The number of processors (`available_parallelism`, or 4) and the
-- feature `io_uring` are parameters.
pub mod Arguments
use rust_kernel_engine.Base.{
  ℕ, zero, suc, ◌+◌, List, [], ◌∷◌, Bool, true, false, ◌||◌, Option, none, some, ltb, length,
  get_elem?, if◌then◌else◌,
}
use mathlib.Core.Option
pub use rust_kernel_engine.Arguments.{Command, serve, help}
use rust_kernel_engine.Arguments.{Step, next, exit, with_value, parse_loop}
use rust_kernel_engine.Std.Keys.{Text, text_eq}
use rust_kernel_engine.Std.Numbers.{from_str_radix, usize_max}
use rust_kernel_engine.Std.Str.{codes}

pub data ServerMode : Type 0 where
  fast_path dynamic_path : ServerMode

pub record ServerConfig : Type 0 where
  pub host : Text
  pub port : ℕ
  pub num_workers : ℕ
  pub mode : ServerMode
  pub static_dir : Text
  pub use_io_uring : Bool

pub data NetworkBackend : Type 0 where
  io_uring epoll : NetworkBackend

abbrev pub num_cpus : Option ℕ → ℕ
num_cpus available_parallelism = Option.get_or available_parallelism 4

unfoldable pub default : (available_parallelism : Option ℕ) (feature : Bool) → ServerConfig
default available_parallelism feature = record {
  host = codes "0.0.0.0";
  port = 8080;
  num_workers = num_cpus available_parallelism;
  mode = fast_path;
  static_dir = codes "./static";
  use_io_uring = feature;
}

abbrev pub mode_of : Text → ServerMode
mode_of s =
    if text_eq s (codes "fast-path")
    then fast_path
    else if text_eq s (codes "dynamic-path")
    then dynamic_path
    else fast_path

module _ (available_parallelism : Option ℕ) where
  parse_arg : List Text → ServerConfig → ℕ → Text → Step ServerConfig
  unfolding with_value
  parse_arg args config i arg =
      if text_eq arg (codes "--host")
      then with_value args config i (λ v. record config { host = v })
      else if text_eq arg (codes "--port")
      then with_value args config i
          (λ v. record config { port = Option.get_or (from_str_radix 10 65535 v) 8080 })
      else if text_eq arg (codes "--workers")
      then with_value args config i (λ v. record config {
        num_workers =
            Option.get_or (from_str_radix 10 usize_max v) (num_cpus available_parallelism);
      })
      else if text_eq arg (codes "--mode")
      then with_value args config i (λ v. record config { mode = mode_of v })
      else if text_eq arg (codes "--static-dir")
      then with_value args config i (λ v. record config { static_dir = v })
      else if text_eq arg (codes "--no-io-uring")
      then next (record config { use_io_uring = false }) i
      else if text_eq arg (codes "--help") || text_eq arg (codes "-h")
      then exit
      else next config i

  unfoldable pub parse_args : (feature : Bool) → List Text → Option (Command ServerConfig)
  unfolding parse_loop parse_arg default
  parse_args feature args =
      parse_loop parse_arg (suc (length args)) args (default available_parallelism feature) 1

-- `is_available` is the check of src/net/io_uring.rs, which the feature compiles in.
unfoldable pub detect_backend : (feature is_available : Bool) → Bool → NetworkBackend
detect_backend feature is_available use_io_uring =
    if use_io_uring
    then (if feature then (if is_available then io_uring else epoll) else epoll)
    else epoll
