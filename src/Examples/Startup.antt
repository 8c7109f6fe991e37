-- ===== src/Examples/Startup.antt =====
-- Examples for the listening socket and for processor affinity, with a kernel that answers a query of
-- the affinity by the set given last.
use rust_kernel_engine.Base.{
  ℕ, zero, suc, ◌≡◌, ◌&&◌, Bool-cases, inl, inr, refl, pos, negsuc, List, [], ◌∷◌, Bool, true,
  false, Option, none, some, ok, if◌then◌else◌,
}
use rust_kernel_engine.State.{bind}
use rust_kernel_engine.Std.Keys.{Text, text_eq}
use rust_kernel_engine.Std.Str.{codes}
use rust_kernel_engine.Config.{ServerConfig, default}
use rust_kernel_engine.Os.{
  sched_setaffinity, sched_getaffinity, socket, listen, Reply, Trace, Kernel,
}
use rust_kernel_engine.Worker.Listener.{create_listen_socket}
use rust_kernel_engine.Worker.Listener.Sockets.{Leaves, create_listen_socket-Leaves}
use rust_kernel_engine.Sys.Affinity.{cpu_isset, set_affinity_mask, get_affinity_mask}
use rust_kernel_engine.Sys.Affinity.Masks.{Remembers, Reads, get_affinity_mask-set_affinity_mask}

abbrev returns : ℕ → List Bool → Reply
returns n cpus = record { ret = pos n; bytes = []; events = []; cpus = cpus }

abbrev last_set : Trace → List Bool
last_set [] = []
last_set ((sched_setaffinity bits, _) ∷ t) = bits
last_set (_ ∷ t) = last_set t

-- The system has three processors, and allows two of them.
abbrev allowed : List Bool
allowed = true ∷ true ∷ false ∷ []

abbrev both : List Bool → List Bool → List Bool
both (b ∷ bits) (c ∷ cs) = (b && c) ∷ both bits cs
both _ _ = []

abbrev count : List Bool → ℕ
count [] = 0
count (b ∷ bits) = if b then suc (count bits) else count bits

abbrev machine : Kernel
machine t sched_getaffinity = returns 0 (both (last_set t) allowed)
machine t socket = returns 6 []
machine t (listen _ _) = record (returns 0 []) { ret = negsuc 0 }
machine t _ = returns 0 []

abbrev pub any_address : Text → Option ℕ
any_address host = if text_eq host (codes "0.0.0.0") then some 0 else none

abbrev settings : ServerConfig
settings = default (some 4) false

-- The port is in use: the socket is closed again.
create_listen_socket-Leaves_example :
    Leaves (pos 6) 0 settings.port [] (create_listen_socket machine any_address settings [])
unfolding default
create_listen_socket-Leaves_example =
    create_listen_socket-Leaves machine any_address (pos 6) settings 0 [] refl

abbrev mask : List Bool
mask = true ∷ false ∷ true ∷ []

-- As many processors as the thread may use.
abbrev usable : Trace → ℕ
usable t = count (both (last_set t) allowed)

isset-both :
    (xs ys : List Bool) (k : ℕ) → cpu_isset k (both xs ys) ≡ (cpu_isset k xs && cpu_isset k ys)
isset-both [] ys k = refl
isset-both (true ∷ xs) [] zero = refl
isset-both (false ∷ xs) [] zero = refl
isset-both (x ∷ xs) [] (suc k) = elim (Bool-cases (cpu_isset k xs)) [
  | inl e ↦ rw e refl
  | inr e ↦ rw e refl
]
isset-both (x ∷ xs) (y ∷ ys) zero = refl
isset-both (x ∷ xs) (y ∷ ys) (suc k) = isset-both xs ys k

machine-Remembers : Remembers machine allowed
machine-Remembers t bits reply e = (refl, isset-both bits allowed)

mask_set : (set_affinity_mask machine usable mask []).0 ≡ ok tt
unfolding set_affinity_mask
mask_set = refl

-- The processors 0 and 2 are asked for, and 2 is not allowed; the mask read back has one entry.
read_back :
    (bind (set_affinity_mask machine usable mask []) (λ _. get_affinity_mask machine usable)).0
    ≡ ok (true ∷ [])
unfolding set_affinity_mask get_affinity_mask
read_back = refl

get_affinity_mask-set_affinity_mask_example :
    Reads mask allowed
      (usable
        (bind (set_affinity_mask machine usable mask []) (λ _. get_affinity_mask machine usable)).1)
      (bind (set_affinity_mask machine usable mask []) (λ _. get_affinity_mask machine usable)).0
get_affinity_mask-set_affinity_mask_example =
    get_affinity_mask-set_affinity_mask machine usable mask allowed [] machine-Remembers mask_set
