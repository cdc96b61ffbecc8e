-- ===== src/Query/Sorting.antt =====
-- `sort(compare)` of the language: stable, by a test whether the first argument comes before.
use log_stream.Base.{Bool, List, [], ◌∷◌, if◌then◌else◌}

module _ {A : Type 0} (before : A → A → Bool) where
  unfoldable pub place : A → List A → List A
  place x [] = x ∷ []
  place x (y ∷ ys) = if before y x then y ∷ place x ys else x ∷ y ∷ ys

  unfoldable pub sort : List A → List A
  sort [] = []
  sort (x ∷ xs) = place x (sort xs)
