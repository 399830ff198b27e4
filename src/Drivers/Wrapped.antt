-- ===== src/Drivers/Wrapped.antt =====
-- drivers/errors.go: the errors of drivers and their texts.
pub mod Once
use usql.Base.{
  ℕ, Bool, true, false, Option, none, some, [], ◌∷◌, ◌++◌, ◌==◌, if◌then◌else◌, Runes, codes,
}
use usql.Stmt.Rune.{is_space}

-- An error of code that is not modelled, told apart by a number, or `*Error` with its driver and the error inside.
pub data DriverError : Type 0 where
  plain : ℕ → DriverError
  wrapped : Runes → DriverError → DriverError

-- `Driver.Name` and `Driver.Err`, which takes an error to its code and message.
pub record NamedDriver : Type 0 where
  pub name : Runes
  pub err : Option (DriverError → Runes × Runes)

unfoldable pub wrap_err : Runes → Option DriverError → Option DriverError
wrap_err driver none = none
wrap_err driver (some (DriverError.wrapped d e)) = some (DriverError.wrapped d e)
wrap_err driver (some (DriverError.plain n)) =
    some (DriverError.wrapped driver (DriverError.plain n))

unfoldable pub unwrap : DriverError → Option DriverError
unwrap (DriverError.plain n) = none
unwrap (DriverError.wrapped d e) = some e

-- `strings.TrimLeftFunc`
unfoldable pub trim_left : Runes → Runes
trim_left [] = []
trim_left (c ∷ s) = if is_space c then trim_left s else c ∷ s

unfoldable pub unless_space : ℕ → Runes → Runes
unless_space c [] = if is_space c then [] else c ∷ []
unless_space c (d ∷ s) = c ∷ d ∷ s

unfoldable pub trim_right : Runes → Runes
unfolding unless_space
trim_right [] = []
trim_right (c ∷ s) = unless_space c (trim_right s)

unfoldable pub cut_prefix : Runes → Runes → Option Runes
cut_prefix [] s = some s
cut_prefix (p ∷ prefix) [] = none
cut_prefix (p ∷ prefix) (c ∷ s) = let rest = cut_prefix prefix s in if p == c then rest else none

unfoldable pub or_whole : Runes → Option Runes → Runes
or_whole s none = s
or_whole s (some rest) = rest

-- `strings.TrimPrefix`
unfoldable pub trim_prefix : Runes → Runes → Runes
unfolding cut_prefix or_whole
trim_prefix s prefix = or_whole s (cut_prefix prefix s)

unfoldable pub chop : Runes → Runes → Runes
unfolding trim_left trim_right trim_prefix
chop s prefix = trim_left (trim_prefix (trim_left (trim_right s)) (prefix ++ codes ":"))

-- `n` in Error.
unfoldable pub shown : Runes → Runes → Runes
shown driver [] = driver
shown driver (c ∷ name) = c ∷ name

unfoldable pub with_code : Runes → Runes → Runes
with_code n [] = n
with_code n (c ∷ code) = n ++ codes ": " ++ c ∷ code

-- Error for a driver of the table, its text being what the error inside prints.
unfoldable pub known_text :
    Runes → Option (DriverError → Runes × Runes) → DriverError → Runes → Runes
unfolding with_code chop
known_text n none e text = n ++ codes ": " ++ chop text n
known_text n (some err) e text = with_code n (err e).0 ++ codes ": " ++ chop (err e).1 n

unfoldable pub driver_text : Runes → Option NamedDriver → DriverError → Runes → Runes
unfolding known_text shown chop
driver_text d (some k) e text = known_text (shown d k.name) k.err e text
driver_text d none e text = d ++ codes ": " ++ chop text d

-- The texts of other errors, and the table of drivers.
module _ (other_text : ℕ → Runes) (drivers : Runes → Option NamedDriver) where
  unfoldable pub error_text : DriverError → Runes
  unfolding driver_text
  error_text (DriverError.plain n) = other_text n
  error_text (DriverError.wrapped d e) = driver_text d (drivers d) e (error_text e)
