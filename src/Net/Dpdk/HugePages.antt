-- ===== src/Net/Dpdk/HugePages.antt =====
-- `check_dpdk_available` of src/net/dpdk_adapter.rs against the line of `/proc/meminfo` that states the
-- number of huge pages.
use rust_kernel_engine.Base.{
  ℕ, ◌-◌, ◌<◌, ◌^◌, ◌≡◌, refl, ap, ◌∙◌, List, [], ◌∷◌, ◌++◌, true, false, none, some, All, ltb,
  arith,
}
use rust_kernel_engine.Std.Keys.{Text}
use rust_kernel_engine.Std.Numbers.{to_string, from_str_radix-to_string}
use rust_kernel_engine.Std.Str.{codes}
use rust_kernel_engine.Std.Words.{lines, starts_with, split_whitespace}
use rust_kernel_engine.Net.Dpdk.{count_of, lines_loop, check_dpdk_available}

abbrev label : Text
label = codes "HugePages_Total:"

-- The first line with the label has the decimal number `n` for its second word.
pub record States (content : Text) (n : ℕ) : Type 0 where
  pub before : List Text
  pub line : Text
  pub after : List Text
  pub words : List Text
  pub split : lines content ≡ before ++ line ∷ after
  pub none_before : All (λ l. starts_with l label ≡ false) before
  pub labelled : starts_with line label ≡ true
  pub second : split_whitespace line ≡ label ∷ to_string n ∷ words

count_of-none : (l : Text) → starts_with l label ≡ false → count_of l ≡ none
count_of-none l e = rw e refl

count_of-some :
    (l : Text) (words : List Text) (n : ℕ)
    → n < 2 ^ 32
    → starts_with l label ≡ true
    → split_whitespace l ≡ label ∷ to_string n ∷ words
    → count_of l ≡ some n
count_of-some l words n fits e f = rw (e, f) (from_str_radix-to_string (2 ^ 32 - 1) n (omega arith))

lines_loop_first :
    (before : List Text) (line : Text) (after : List Text) (n : ℕ)
    → All (λ l. starts_with l label ≡ false) before
    → count_of line ≡ some n
    → lines_loop (before ++ line ∷ after) ≡ ltb 0 n
unfolding lines_loop
lines_loop_first [] line after n none_before here = rw here refl
lines_loop_first (l ∷ before) line after n (e, none_before) here =
    rw (count_of-none l e) (lines_loop_first before line after n none_before here)

-- In a build with the feature: if the first line of `/proc/meminfo` that starts with
-- "HugePages_Total:" has the decimal number `n`, below 2^32, for its second word, the check says
-- whether `n` is above 0.
pub check_dpdk_available_lem :
    (content : Text) (n : ℕ)
    → n < 2 ^ 32
    → States content n
    → check_dpdk_available true (some content) ≡ ltb 0 n
unfolding check_dpdk_available
check_dpdk_available_lem content n fits s =
    ap lines_loop s.split
    ∙ lines_loop_first s.before s.line s.after n s.none_before
        (count_of-some s.line s.words n fits s.labelled s.second)
