-- ===== src/Sys/Tuning.antt =====
-- src/sys/tuning.rs. Files are a function from a path to the text that it holds; the test of what may
-- be written is a parameter, and so are the answer of `getrlimit` and the text of `/proc/version`. A
-- check returns what it logs.
pub mod Settings
pub mod Checks
use rust_kernel_engine.Base.{
  ℕ, suc, zero, ◌-◌, ◌^◌, ℤ, pos, negsuc, List, [], ◌∷◌, ◌++◌, map, Bool, true, false, ◌&&◌, ◌||◌,
  Option, none, some, Outcome, ok, err, rlimit_failed, ltb, leb, ◌==◌, if◌then◌else◌,
}
use mathlib.Core.Option
use rust_kernel_engine.Std.Keys.{Text, text_eq}
use rust_kernel_engine.Std.Numbers.{from_str_radix}
use rust_kernel_engine.Std.Str.{codes}
use rust_kernel_engine.Std.Words.{trim}

abbrev pub Files : Type 0
Files = Text → Option Text

abbrev negated : ℕ → ℤ
negated zero = pos 0
negated (suc n) = negsuc n

-- `parse::<i32>`, with one sign.
abbrev parse_i32 : Text → Option ℤ
parse_i32 (c ∷ d ∷ s) =
    if c == b'-'
    then (if d == b'+' then none else Option.map negated (from_str_radix 10 (2 ^ 31) (d ∷ s)))
    else Option.map pos (from_str_radix 10 (2 ^ 31 - 1) (c ∷ d ∷ s))
parse_i32 s = Option.map pos (from_str_radix 10 (2 ^ 31 - 1) s)

-- `check_file_descriptors`: is the soft limit reported as low?
unfoldable pub check_file_descriptors : Option (ℕ × ℕ) → Outcome Bool
check_file_descriptors none = err rlimit_failed
check_file_descriptors (some (soft, hard)) = ok (ltb soft 65536)

-- A line about a parameter, with its mark.
pub record Report : Type 0 where
  pub name : Text
  pub value : ℤ
  pub recommended : ℕ
  pub is_good : Bool

abbrev pub at_least : ℤ → ℕ → Bool
at_least (pos n) recommended = leb recommended n
at_least (negsuc n) recommended = false

abbrev params : List (Text × Text × ℕ)
params =
    (codes "/proc/sys/net/core/somaxconn", codes "somaxconn", 4096)
    ∷ (codes "/proc/sys/net/ipv4/tcp_max_syn_backlog", codes "tcp_max_syn_backlog", 8192)
    ∷ (codes "/proc/sys/net/core/netdev_max_backlog", codes "netdev_max_backlog", 5000)
    ∷ (codes "/proc/sys/net/ipv4/tcp_fin_timeout", codes "tcp_fin_timeout", 30)
    ∷ (codes "/proc/sys/net/ipv4/tcp_tw_reuse", codes "tcp_tw_reuse", 1)
    ∷ []

-- A file that cannot be read, or holds no number, is passed over.
read_number : Option Text → Option ℤ
read_number none = none
read_number (some content) = parse_i32 (trim content)

check_params : Files → List (Text × Text × ℕ) → List Report
unfolding read_number
check_params files [] = []
check_params files ((path, name, recommended) ∷ rest) =
    let reports = check_params files rest in
    elim (read_number (files path)) [
      | none ↦ reports
      | some value ↦
          record {
            name = name;
            value = value;
            recommended = recommended;
            is_good = at_least value recommended;
          }
          ∷ reports
    ]

unfoldable pub check_network_tuning : Files → List Report
unfolding check_params
check_network_tuning files = check_params files params

abbrev pub settings : List (Text × Text)
settings =
    (codes "net.core.somaxconn", codes "4096")
    ∷ (codes "net.ipv4.tcp_max_syn_backlog", codes "8192")
    ∷ (codes "net.core.netdev_max_backlog", codes "5000")
    ∷ (codes "net.ipv4.tcp_fin_timeout", codes "15")
    ∷ (codes "net.ipv4.tcp_tw_reuse", codes "1")
    ∷ (codes "net.core.rmem_max", codes "16777216")
    ∷ (codes "net.core.wmem_max", codes "16777216")
    ∷ []

-- `format!("/proc/sys/{}", key.replace('.', "/"))`
abbrev pub path_of : Text → Text
path_of key = codes "/proc/sys/" ++ map (λ c. if c == b'.' then b'/' else c) key

abbrev pub write_file : Text → Text → Files → Files
write_file path value files p = if text_eq path p then some value else files p

apply_settings : (Text → Bool) → List (Text × Text) → Files → Files
apply_settings may_write [] files = files
apply_settings may_write ((key, value) ∷ rest) files =
    apply_settings may_write rest
      (if may_write (path_of key) then write_file (path_of key) value files else files)

unfoldable pub apply_tuning : (Text → Bool) → Files → Files
unfolding apply_settings
apply_tuning may_write files = apply_settings may_write settings files
