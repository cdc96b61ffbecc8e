-- ===== src/Query/Paging/Order.antt =====
-- src/modules/query: the rows behind a row of the table.
use log_stream.Base.{
  ℕ, zero, suc, ◌+◌, ◌≤◌, ◌<◌, ◌≡◌, refl, ap, Bool, true, false, List, [], ◌∷◌, ◌++◌, some, All,
  take, drop, keep_if, arith, length, max,
}
use log_stream.Query.Repository.{ApiLogResponseItem}
use log_stream.Query.Service.{last}
use log_stream.Query.Paging.{position_of, Behind, IsDescending}

keep_if-All :
    {A : Type 0} (test : A → Bool) (xs : List A)
    → All (λ x. test x ≡ true) xs
    → keep_if test xs ≡ xs
keep_if-All test [] h = refl
keep_if-All test (x ∷ xs) (h, k) = rw h (ap (◌∷◌ x) (keep_if-All test xs k))

pub All-middle :
    {A : Type 0} (P : A → Type 0) (xs : List A) (y : A) (ys : List A) → All P (xs ++ (y ∷ ys)) → P y
All-middle P [] y ys h = h.0
All-middle P (x ∷ xs) y ys h = All-middle P xs y ys h.1

pub keep_if-IsDescending :
    (behind : Behind) (xs : List ApiLogResponseItem) (row : ApiLogResponseItem)
    (ys : List ApiLogResponseItem)
    → IsDescending behind (xs ++ (row ∷ ys))
    → keep_if (behind (position_of row)) (xs ++ (row ∷ ys)) ≡ ys
keep_if-IsDescending behind [] row ys (after, before, later) =
    rw (before.0) (keep_if-All (behind (position_of row)) ys after)
keep_if-IsDescending behind (x ∷ xs) row ys (after, before, later) =
    let out = All-middle (λ r. behind (position_of r) x ≡ false) xs row ys before.1 in
    rw out (keep_if-IsDescending behind xs row ys later)

-- A list that is not empty ends in its last element.
pub last-split :
    {A : Type 0} (x : A) (xs : List A)
    → (front : List A) × (y : A) × (last (x ∷ xs) ≡ some y) × (x ∷ xs ≡ front ++ (y ∷ []))
last-split x [] = ([], x, refl, refl)
last-split x (x' ∷ xs) = let (front, y, e, f) = last-split x' xs in (x ∷ front, y, e, ap (◌∷◌ x) f)

pub take-drop : {A : Type 0} (n : ℕ) (xs : List A) → take n xs ++ drop n xs ≡ xs
take-drop zero xs = refl
take-drop (suc n) [] = refl
take-drop (suc n) (x ∷ xs) = ap (◌∷◌ x) (take-drop n xs)

pub length-take_more :
    {A : Type 0} (n : ℕ) (xs : List A) → n < length xs → length (take (suc n) xs) ≡ suc n
length-take_more n [] h = absurd (omega arith)
length-take_more zero (x ∷ xs) h = refl
length-take_more (suc n) (x ∷ xs) h = ap suc (length-take_more n xs (omega (arith, h)))

pub take-take_more : {A : Type 0} (n : ℕ) (xs : List A) → take n (take (suc n) xs) ≡ take n xs
take-take_more zero xs = refl
take-take_more (suc n) [] = refl
take-take_more (suc n) (x ∷ xs) = ap (◌∷◌ x) (take-take_more n xs)

pub take_all : {A : Type 0} (n : ℕ) (xs : List A) → length xs ≤ n → take n xs ≡ xs
take_all zero [] h = refl
take_all (suc n) [] h = refl
take_all zero (x ∷ xs) h = absurd (omega (arith, h))
take_all (suc n) (x ∷ xs) h = ap (◌∷◌ x) (take_all n xs (omega (arith, h)))

pub length-drop : {A : Type 0} (n : ℕ) (xs : List A) → length (drop n xs) + n ≡ max (length xs) n
length-drop zero xs = omega arith
length-drop (suc n) [] = omega arith
length-drop (suc n) (x ∷ xs) = omega (arith, length-drop n xs)

-- The first elements of a list, one at least, end in one of them.
pub last_taken :
    {A : Type 0} (n : ℕ) (xs : List A)
    → 1 ≤ n
    → 1 ≤ length xs
    → (front : List A) × (y : A) × (last (take n xs) ≡ some y) × (take n xs ≡ front ++ (y ∷ []))
last_taken zero xs h k = absurd (omega arith)
last_taken (suc n) [] h k = absurd (omega arith)
last_taken (suc n) (x ∷ xs) h k = last-split x (take n xs)
