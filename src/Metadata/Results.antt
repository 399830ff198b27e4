-- ===== src/Metadata/Results.antt =====
-- drivers/metadata/metadata.go: `resultSet`, the rows of a listing, with a filter.
pub mod Read
use usql.Base.{
  ℕ, zero, suc, ◌+◌, ◌-◌, Bool, true, false, Option, none, some, List, [], ◌∷◌, ltb, leb,
  if◌then◌else◌, length, drop,
}

-- The rows, the number of the current one from 1 on, and the filter, if one is set.
pub record ResultSet (A : Type 0) : Type 0 where
  pub results : List A
  pub current : ℕ
  pub filter : Option (A → Bool)

module _ {A : Type 0} where
  unfoldable pub set_filter : (A → Bool) → ResultSet A → ResultSet A
  set_filter f r = record r { filter = some f }

  pub count : (A → Bool) → List A → ℕ
  count f [] = 0
  count f (x ∷ xs) = let n = count f xs in if f x then suc n else n

  len_with : List A → Option (A → Bool) → ℕ
  unfolding count
  len_with xs none = length xs
  len_with xs (some f) = count f xs

  unfoldable pub len : ResultSet A → ℕ
  unfolding len_with
  len r = len_with r.results r.filter

  unfoldable pub reset : ResultSet A → ResultSet A
  reset r = record r { current = 0 }

  -- The number of the first row that the filter lets pass, from the number `c` of the first of `xs` on.
  pub skip : (A → Bool) → List A → ℕ → ℕ
  skip f [] c = c
  skip f (x ∷ xs) c = let d = skip f xs (c + 1) in if f x then c else d

  next_with : List A → ℕ → Option (A → Bool) → ℕ
  unfolding skip
  next_with xs c none = c
  next_with xs c (some f) = skip f (drop (c - 1) xs) c

  -- Whether there is a row, behind the state.
  unfoldable pub next : ResultSet A → ResultSet A × Bool
  unfolding next_with
  next r =
      let c = next_with r.results (r.current + 1) r.filter in
      (record r { current = c }, leb c (length r.results))

  head : List A → Option A
  head [] = none
  head (x ∷ xs) = some x

  -- `r.results[r.current-1]`, which Scan takes its values from; `none` is a panic.
  unfoldable pub current_row : ResultSet A → Option A
  unfolding head
  current_row r = if ltb 0 r.current then head (drop (r.current - 1) r.results) else none
