-- ===== src/Examples/SystemLimits.antt =====
-- Examples for src/sys/tuning.rs, with two files at first.
use rust_kernel_engine.Base.{◌≡◌, refl, [], ◌∷◌, true, false, none, some, if◌then◌else◌}
use rust_kernel_engine.Std.Keys.{text_eq}
use rust_kernel_engine.Std.Numbers.{from_str_radix}
use rust_kernel_engine.Std.Str.{codes}
use rust_kernel_engine.Sys.Tuning.{Files, check_network_tuning, apply_tuning}
use rust_kernel_engine.Sys.Tuning.Settings.{marks, check_network_tuning-apply_tuning}

abbrev pub files : Files
files path =
    if text_eq path (codes "/proc/sys/net/core/somaxconn")
    then some (codes "128\n")
    else if text_eq path (codes "/proc/sys/net/ipv4/tcp_tw_reuse")
    then some (codes " -1")
    else none

before :
    marks (check_network_tuning files)
    ≡ (codes "somaxconn", false) ∷ (codes "tcp_tw_reuse", false) ∷ []
unfolding check_network_tuning from_str_radix
before = refl

check_network_tuning-apply_tuning_example :
    marks (check_network_tuning (apply_tuning (λ path. true) files))
    ≡ (codes "somaxconn", true)
      ∷ (codes "tcp_max_syn_backlog", true)
      ∷ (codes "netdev_max_backlog", true)
      ∷ (codes "tcp_fin_timeout", false)
      ∷ (codes "tcp_tw_reuse", true)
      ∷ []
check_network_tuning-apply_tuning_example =
    check_network_tuning-apply_tuning (λ path. true) files (λ path. refl)
