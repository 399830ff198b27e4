-- ===== src/Completer/Options.antt =====
-- drivers/completer/completer.go: CompleteFromListCase and CompleteFromList, the options that the text begins.
pub mod Offered
use mathlib.Core.Option
use usql.Base.{
  ℕ, zero, suc, ◌-◌, Bool, true, false, ◌&&◌, Option, none, some, List, [], ◌∷◌, ◌++◌, leb, ◌==◌,
  if◌then◌else◌, Runes, same, length, take, utf8_len,
}
use usql.Completer.Casing.{Casing, to_upper, to_lower}
use usql.Completer.Pattern.{CaseType}

-- What a completion returns: nil, or a list, or a panic.
pub data Completion : Type 0 where
  no_list : Completion
  list : List Runes → Completion
  panicked : Completion

replicate : ℕ → ℕ → Runes
replicate zero c = []
replicate (suc n) c = c ∷ replicate n c

-- `[]rune(s[n:])` of a string: the bytes left of a rune that the cut splits are no UTF-8. `none` is the panic.
unfoldable pub byte_drop : ℕ → Runes → Option Runes
unfolding replicate
byte_drop n [] = if n == 0 then some [] else none
byte_drop n (c ∷ s) =
    let size = utf8_len (c ∷ []) in
    let rest = byte_drop (n - size) s in
    if n == 0
    then some (c ∷ s)
    else if leb size n
    then rest
    else some (replicate (size - n) 0xfffd ++ s)

-- `strings.HasPrefix`
abbrev pub has_prefix : Runes → Runes → Bool
has_prefix s p = same (take (length p) s) p

module _ ⦃k : Casing⦄ where
  -- The text and an option, as they are compared.
  abbrev pub folded : CaseType → Runes → Runes
  folded CaseType.ignore_case s = to_upper s
  folded CaseType.match_case s = s

  -- `isLower`
  abbrev pub starts_lower : Runes → Bool
  starts_lower [] = false
  starts_lower (c ∷ s) = k.is_lower c

  abbrev pub cased : CaseType → Bool → Runes → Runes
  cased CaseType.ignore_case true s = to_lower s
  cased CaseType.ignore_case false s = s
  cased CaseType.match_case lower s = s

  -- What an option adds to the result.
  pub offer : CaseType → Runes → Runes → Option (List Runes)
  unfolding byte_drop
  offer ct text o =
      if has_prefix (folded ct o) (folded ct text)
      then Option.map (λ m. cased ct (starts_lower text) m ∷ []) (byte_drop (length text) o)
      else some []

  appended : Option (List Runes) → Option (List Runes) → Option (List Runes)
  appended none ys = none
  appended (some xs) ys = Option.map (λ zs. xs ++ zs) ys

  pub offers : CaseType → Runes → List Runes → Option (List Runes)
  unfolding offer appended
  offers ct text [] = some []
  offers ct text (o ∷ os) = appended (offer ct text o) (offers ct text os)

  abbrev as_list : Option (List Runes) → Completion
  as_list none = Completion.panicked
  as_list (some ms) = Completion.list ms

  unfoldable pub complete_from_list_case : CaseType → Runes → List Runes → Completion
  unfolding offers
  complete_from_list_case ct text [] = Completion.no_list
  complete_from_list_case ct text (o ∷ os) = as_list (offers ct text (o ∷ os))

  unfoldable pub complete_from_list : Runes → List Runes → Completion
  unfolding complete_from_list_case
  complete_from_list text options = complete_from_list_case CaseType.ignore_case text options
