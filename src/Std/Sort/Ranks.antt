-- ===== src/Std/Sort/Ranks.antt =====
-- A sorted list, and the number of items on either side of one.
use mathlib.Core.Logic.{∥∥₁_elim}
use mathlib.Core.List.{Perm, Permᴰ}
use mathlib.Core.List.Permᴰ.{nil, cons, swap, trans}
use mathlib.Core.Option.{some-injective}
use rust_kernel_engine.Base.{
  ℕ, zero, suc, ◌+◌, ◌≤◌, ◌<◌, ◌≡◌, refl, ap, ap₂, sym, subst, ◌∙◌, List, [], ◌∷◌, Bool, some, leb,
  ltb, if◌then◌else◌, All, length, get_elem?, arith, Bool-cases, inl, inr,
}
use rust_kernel_engine.Std.Sort.{insert_sorted, sort, IsSorted}

All-le : (x y : ℕ) (zs : List ℕ) → x ≤ y → All (λ z. y ≤ z) zs → All (λ z. x ≤ z) zs
All-le x y [] h a = tt
All-le x y (z ∷ zs) h (b, a) = (omega arith, All-le x y zs h a)

All-insert_sorted :
    (v x : ℕ) (ys : List ℕ) → v ≤ x → All (λ y. v ≤ y) ys → All (λ y. v ≤ y) (insert_sorted x ys)
unfolding insert_sorted
All-insert_sorted v x [] h a = (h, tt)
All-insert_sorted v x (y ∷ ys) h (b, a) = ground (arith, All-insert_sorted v x ys h a)

insert_sorted-IsSorted : (x : ℕ) (ys : List ℕ) → IsSorted ys → IsSorted (insert_sorted x ys)
unfolding insert_sorted
insert_sorted-IsSorted x [] h = (tt, tt)
insert_sorted-IsSorted x (y ∷ ys) (low, h) = elim (Bool-cases (leb x y)) [
  | inl e ↦ rw e (((ground arith), All-le x y ys (ground arith) low), (low, h))
  | inr e ↦ rw e (All-insert_sorted y x ys (ground arith) low, insert_sorted-IsSorted x ys h)
]

pub sort-IsSorted : (xs : List ℕ) → IsSorted (sort xs)
unfolding sort
sort-IsSorted [] = tt
sort-IsSorted (x ∷ xs) = insert_sorted-IsSorted x (sort xs) (sort-IsSorted xs)

-- The number of items that pass a test.
abbrev pub count : (ℕ → Bool) → List ℕ → ℕ
count test [] = 0
count test (x ∷ xs) = (if test x then 1 else 0) + count test xs

count-insert_sorted :
    (test : ℕ → Bool) (x : ℕ) (ys : List ℕ) → count test (insert_sorted x ys) ≡ count test (x ∷ ys)
unfolding insert_sorted
count-insert_sorted test x [] = refl
count-insert_sorted test x (y ∷ ys) = ground (arith, count-insert_sorted test x ys)

pub count-sort : (test : ℕ → Bool) (xs : List ℕ) → count test (sort xs) ≡ count test xs
unfolding sort
count-sort test [] = refl
count-sort test (x ∷ xs) = omega (arith, count-insert_sorted test x (sort xs), count-sort test xs)

length-insert_sorted : (x : ℕ) (ys : List ℕ) → length (insert_sorted x ys) ≡ suc (length ys)
unfolding insert_sorted
length-insert_sorted x [] = refl
length-insert_sorted x (y ∷ ys) = ground (arith, length-insert_sorted x ys)

pub length-sort : (xs : List ℕ) → length (sort xs) ≡ length xs
unfolding sort
length-sort [] = refl
length-sort (x ∷ xs) = length-insert_sorted x (sort xs) ∙ ap suc (length-sort xs)

insert_sorted_comm :
    (x y : ℕ) (zs : List ℕ)
    → insert_sorted x (insert_sorted y zs) ≡ insert_sorted y (insert_sorted x zs)
unfolding insert_sorted
insert_sorted_comm x y [] = ground arith
insert_sorted_comm x y (z ∷ zs) = ground (arith, insert_sorted_comm x y zs)

sort-Permᴰ : {xs ys : List ℕ} → Permᴰ xs ys → sort xs ≡ sort ys
unfolding sort
sort-Permᴰ nil = refl
sort-Permᴰ (cons e p) = ap₂ insert_sorted e (sort-Permᴰ p)
sort-Permᴰ (swap {a} {b} {l} e f) =
    insert_sorted_comm a b (sort l) ∙ ap₂ insert_sorted f (ap (λ x. insert_sorted x (sort l)) e)
sort-Permᴰ (trans p q) = sort-Permᴰ p ∙ sort-Permᴰ q

-- Sorting forgets the order.
pub sort-Perm : {xs ys : List ℕ} → Perm xs ys → sort xs ≡ sort ys
sort-Perm p = ∥∥₁_elim p (hlevel) (λ d. sort-Permᴰ d)

pub get-All :
    (P : ℕ → Type 0) (xs : List ℕ) (i : ℕ) {x : ℕ} → All P xs → get_elem? xs i ≡ some x → P x
get-All P [] i a e = absurd (cc)
get-All P (y ∷ xs) zero a e = subst P (some-injective _ _ e) a.0
get-All P (y ∷ xs) (suc i) a e = get-All P xs i a.1 e

count-low : (x : ℕ) (xs : List ℕ) → All (λ y. x ≤ y) xs → count (λ y. ltb y x) xs ≡ 0
count-low x [] a = refl
count-low x (y ∷ xs) (h, a) = ground (arith, count-low x xs a)

-- In a sorted list at most `i` items lie below the item at `i`, and more than `i` are not above it.
pub IsSorted-rank :
    (xs : List ℕ) (i : ℕ) (x : ℕ)
    → IsSorted xs
    → get_elem? xs i ≡ some x
    → (count (λ y. ltb y x) xs ≤ i) × (i < count (λ y. leb y x) xs)
IsSorted-rank [] i x s e = absurd (cc)
IsSorted-rank (y ∷ xs) zero x (low, s) e =
    let same : y ≡ x = some-injective _ _ e in
    let low' = All-le x y xs (omega (arith, same)) low in ground (arith, same, count-low x xs low')
IsSorted-rank (y ∷ xs) (suc i) x (low, s) e =
    let (below, above) = IsSorted-rank xs i x s e in
    ground (arith, below, above, get-All (λ z. y ≤ z) xs i low e)

pub IsSorted-mono :
    (xs : List ℕ) (i j : ℕ) {x y : ℕ}
    → IsSorted xs
    → i ≤ j
    → get_elem? xs i ≡ some x
    → get_elem? xs j ≡ some y
    → x ≤ y
IsSorted-mono [] i j s h e f = absurd (cc)
IsSorted-mono (z ∷ xs) zero zero s h e f =
    let same = some-injective _ _ (sym e ∙ f) in omega (arith, same)
IsSorted-mono (z ∷ xs) zero (suc j) (low, s) h e f =
    let same = some-injective _ _ e in
    let above = get-All (λ y. z ≤ y) xs j low f in omega (arith, same, above)
IsSorted-mono (z ∷ xs) (suc i) zero s h e f = absurd (omega arith)
IsSorted-mono (z ∷ xs) (suc i) (suc j) (low, s) h e f = IsSorted-mono xs i j s (omega arith) e f

pub get-lt : (xs : List ℕ) (i : ℕ) → i < length xs → (x : ℕ) × (get_elem? xs i ≡ some x)
get-lt [] i h = absurd (omega arith)
get-lt (x ∷ xs) zero h = (x, refl)
get-lt (x ∷ xs) (suc i) h = get-lt xs i (omega arith)
