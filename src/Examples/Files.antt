-- ===== src/Examples/Files.antt =====
-- Examples for src/file, with a kernel that has one file of five bytes.
use rust_kernel_engine.Base.{ℕ, ◌≡◌, refl, pos, [], ok, min}
use rust_kernel_engine.Std.Str.{codes}
use rust_kernel_engine.Os.{sendfile, file_size, Reply, Kernel}
use rust_kernel_engine.File.Sendfile.{send_entire_file, send_file}
use rust_kernel_engine.File.Mmap.{new}
use rust_kernel_engine.File.Mmap.Mapping.{Balanced, new-Balanced}

abbrev returns : ℕ → Reply
returns n = record { ret = pos n; bytes = codes "hello"; events = []; cpus = [] }

-- A transfer takes two bytes at most.
abbrev slow : Kernel
slow t (file_size _) = returns 5
slow t (sendfile _ _ _ count) = returns (min count 2)
slow t _ = returns 4

send_test : (send_entire_file slow (pos 8) (pos 4) []).0 ≡ ok 5
unfolding send_entire_file send_file
send_test = refl

new_test :
    (new slow (codes "a") []).0
    ≡ ok (record { ptr = 4; len = 5; file = pos 4; bytes = codes "hello" })
unfolding new
new_test = refl

new-Balanced_example : Balanced slow (pos 9) [] (new slow (codes "a") [])
new-Balanced_example = new-Balanced slow (pos 9) (codes "a") []
