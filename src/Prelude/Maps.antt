-- ===== src/Prelude/Maps.antt =====
-- Arrays as functions of their index, and the doubly linked lists of k-list.hh as lists of the
-- indices of their members, with how often a member occurs.
use Prim.Native.Nat.{ℕ, ◌+◌, ◌-◌}
use mathlib.Core.Path.{◌≡◌, refl}
use mathlib.Core.List.{List, [], ◌∷◌, ◌++◌}
use native.Mathlib.Omega.{arith}
use pug_os.Prelude.Tests.{◌==◌, if◌then◌else◌}

abbrev pub update {ℓ} : {A : Type ℓ} → (ℕ → A) → ℕ → A → ℕ → A
update f p v q = if p == q then v else f q

-- What a change of one index leaves there, and elsewhere.
pub update_here {ℓ} : {A : Type ℓ} (f : ℕ → A) (i k : ℕ) (x : A) → i ≡ k → x ≡ update f i x k
update_here f i k x h = ground (arith, h)

pub update_other {ℓ} :
    {A : Type ℓ} (f : ℕ → A) (i k : ℕ) (x : A) → (i ≡ k → ⊥) → f k ≡ update f i x k
update_other f i k x h = ground (arith, h)

pub count : ℕ → List ℕ → ℕ
count i [] = 0
count i (x ∷ xs) = (if x == i then 1 else 0) + count i xs

pub erase : ℕ → List ℕ → List ℕ
erase i [] = []
erase i (x ∷ xs) = if x == i then xs else x ∷ erase i xs

pub count-nil : (i : ℕ) → count i [] ≡ 0
unfolding count
count-nil i = refl

pub count-cons : (i x : ℕ) (xs : List ℕ) → count i (x ∷ xs) ≡ (if x == i then 1 else 0) + count i xs
unfolding count
count-cons i x xs = refl

pub count-append : (i : ℕ) (xs ys : List ℕ) → count i (xs ++ ys) ≡ count i xs + count i ys
unfolding count
count-append i [] ys = omega arith
count-append i (x ∷ xs) ys = omega (arith, count-append i xs ys)

pub count-push_back :
    (i x : ℕ) (xs : List ℕ) → count i (xs ++ x ∷ []) ≡ count i xs + (if x == i then 1 else 0)
unfolding count
count-push_back i x xs = omega (arith, count-append i xs (x ∷ []))

pub count-erase :
    (i j : ℕ) (xs : List ℕ) → count j (erase i xs) ≡ (if i == j then count j xs - 1 else count j xs)
unfolding count erase
count-erase i j [] = ground arith
count-erase i j (x ∷ xs) = ground (arith, count-erase i j xs)

pub erase-nil : (i : ℕ) → erase i [] ≡ []
unfolding erase
erase-nil i = refl
