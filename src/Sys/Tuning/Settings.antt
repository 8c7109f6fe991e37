-- ===== src/Sys/Tuning/Settings.antt =====
-- `apply_tuning` of src/sys/tuning.rs against what `check_network_tuning` reports.
use rust_kernel_engine.Base.{
  ◌≡◌, refl, ◌≢◌, ◌∙◌, List, [], ◌∷◌, Bool, true, false, All, map, arith, ◌||◌, ◌++◌,
}
use rust_kernel_engine.Std.Keys.{Text, text_eq, text_eq_iff}
use rust_kernel_engine.Std.Numbers.{from_str_radix}
use rust_kernel_engine.Std.Str.{codes}
use rust_kernel_engine.Sys.Tuning.Checks.{recommendations}
use rust_kernel_engine.Sys.Tuning.{
  Files, Report, check_network_tuning, settings, path_of, apply_settings, apply_tuning,
}

abbrev pub marks : List Report → List (Text × Bool)
marks reports = map (λ r. (r.name, r.is_good)) reports

-- If every file may be written, then after `apply_tuning` the check reports all five parameters,
-- whatever the files held before: all are good but `tcp_fin_timeout`.
pub check_network_tuning-apply_tuning :
    (may_write : Text → Bool) (files : Files)
    → ((path : Text) → may_write path ≡ true)
    → marks (check_network_tuning (apply_tuning may_write files))
      ≡ (codes "somaxconn", true)
        ∷ (codes "tcp_max_syn_backlog", true)
        ∷ (codes "netdev_max_backlog", true)
        ∷ (codes "tcp_fin_timeout", false)
        ∷ (codes "tcp_tw_reuse", true)
        ∷ []
unfolding check_network_tuning apply_tuning apply_settings from_str_radix
check_network_tuning-apply_tuning may_write files h =
    rw
      (
        h (path_of (codes "net.core.somaxconn")),
        h (path_of (codes "net.ipv4.tcp_max_syn_backlog")),
        h (path_of (codes "net.core.netdev_max_backlog")),
        h (path_of (codes "net.ipv4.tcp_fin_timeout")),
        h (path_of (codes "net.ipv4.tcp_tw_reuse")),
        h (path_of (codes "net.core.rmem_max")),
        h (path_of (codes "net.core.wmem_max")),
      )
      refl

apply_settings-other :
    (may_write : Text → Bool) (rest : List (Text × Text)) (files : Files) (path : Text)
    → All (λ s. path_of s.0 ≢ path) rest
    → apply_settings may_write rest files path ≡ files path
unfolding apply_settings
apply_settings-other may_write [] files path h = refl
apply_settings-other may_write ((key, value) ∷ rest) files path (other, h) =
    apply_settings-other may_write rest _ path h ∙ ground (arith, text_eq_iff (path_of key) path)

-- `apply_tuning` changes no file but those of its seven settings.
apply_tuning-other :
    (may_write : Text → Bool) (files : Files) (path : Text)
    → All (λ s. path_of s.0 ≢ path) settings
    → apply_tuning may_write files path ≡ files path
unfolding apply_tuning
apply_tuning-other may_write files path h = apply_settings-other may_write settings files path h

-- Is the line in the list?
abbrev lists : Text → List Text → Bool
lists line [] = false
lists line (other ∷ rest) = text_eq other line || lists line rest

-- Every setting of `apply_tuning` is among the recommendations, with the same value.
settings-recommended :
    All
      (λ s. lists (codes "sysctl -w " ++ (s.0 ++ (codes "=" ++ s.1))) recommendations ≡ true)
      settings
settings-recommended = (refl, (refl, (refl, (refl, (refl, (refl, (refl, tt)))))))
