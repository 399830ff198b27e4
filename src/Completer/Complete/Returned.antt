-- ===== src/Completer/Complete/Returned.antt =====
-- `Do` returns, whatever the line is.
use usql.Base.{
  le→ltb, ◌≤◌, length, ℕ, ◌-◌, Bool, true, Option, none, some, List, [], ◌∷◌, ◌==◌, Runes, if_rule,
}
use usql.Completer.Casing.{Casing}
use usql.Completer.Pattern.{CaseType}
use usql.Completer.Options.{Completion}
use usql.Completer.Sources.{complete_from_variables}
use usql.Completer.Ladder.{Completer, World}
use usql.Completer.Ladder.Safe.{
  Returns, returns_nil, returns_list, first_of-Returns, complete_from_list-Returns,
  complete_from_list_case-Returns,
}
use usql.Completer.Ladder.Returns.{all_rungs-AreSafe}
use usql.Completer.Complete.{
  after_colon, by_words, complete, Done, done, answered, asked, before_or_complete, do_complete,
  text_start,
}
use usql.Stmt.Scan.{slice}

-- What `Do` returns for a text of `n` runes: nil and 0, or completions and `n`.
pub data IsAnswer (n : ℕ) : Done → Type 0 where
  nil_answer : IsAnswer n (done none 0)
  list_answer : (ms : List Runes) → IsAnswer n (done (some ms) n)

module _ ⦃k : Casing⦄ (w : World) (c : Completer) where
  variables-Returns :
      (text prefix suffix : Runes) (need : Bool)
      → Returns (complete_from_variables w.vars text prefix suffix need)
  unfolding complete_from_variables
  variables-Returns text prefix suffix need =
      complete_from_list_case-Returns CaseType.match_case text _

  colon-Returns : (text s : Runes) → Returns (after_colon w c text s)
  unfolding after_colon
  colon-Returns text [] = returns_nil
  colon-Returns text (d ∷ s) =
      if_rule Returns (d == b':') (λ e. returns_nil)
        (λ e.
          if_rule Returns (d == b'\'') (λ e. variables-Returns text _ _ true)
            (λ e.
              if_rule Returns (d == b'"') (λ e. variables-Returns text _ _ true)
                (λ e. variables-Returns text _ _ true)))

  words-Returns : (words : List Runes) (text : Runes) → Returns (by_words w c words text)
  unfolding by_words
  words-Returns [] text = complete_from_list-Returns text _
  words-Returns (word ∷ words) text =
      first_of-Returns _ _ (all_rungs-AreSafe w c word words text)
        (complete_from_list-Returns text _)

  complete-Returns : (words : List Runes) (text : Runes) → Returns (complete w c words text)
  unfolding complete
  complete-Returns words [] = words-Returns words []
  complete-Returns [] (d ∷ s) =
      if_rule Returns (d == b'\\')
        (λ e. complete_from_list_case-Returns CaseType.match_case (d ∷ s) _)
        (λ e.
          if_rule Returns (d == b':') (λ e. colon-Returns (d ∷ s) s)
            (λ e. words-Returns [] (d ∷ s)))
  complete-Returns (word ∷ words) (d ∷ s) =
      if_rule Returns (d == b':') (λ e. colon-Returns (d ∷ s) s)
        (λ e. words-Returns (word ∷ words) (d ∷ s))

  answered-IsAnswer : {r : Completion} (n : ℕ) → Returns r → IsAnswer n (answered w c r n)
  unfolding answered
  answered-IsAnswer n returns_nil = nil_answer
  answered-IsAnswer n (returns_list ms) = list_answer ms

  asked-IsAnswer :
      (o : Option (List Runes)) {r : Completion} (n : ℕ) → Returns r → IsAnswer n (asked w c o r n)
  unfolding asked
  asked-IsAnswer none n h = answered-IsAnswer n h
  asked-IsAnswer (some ms) n h = list_answer ms

  before_or_complete-IsAnswer :
      (o : Option (List Runes → Runes → Option (List Runes))) (words : List Runes) (text : Runes)
      → IsAnswer (length text) (before_or_complete w c o words text)
  unfolding before_or_complete
  before_or_complete-IsAnswer none words text = answered-IsAnswer _ (complete-Returns words text)
  before_or_complete-IsAnswer (some before) words text =
      asked-IsAnswer (before words text) _ (complete-Returns words text)

  -- With the cursor in the line or at its end, `Do` never panics, though completion reads words and runes at
  -- fixed places and slices strings at computed ones: it returns nil and 0, or a list of completions and the
  -- number of the runes from the start of the text to the cursor.
  pub do_complete-IsAnswer :
      (line : Runes) (start : ℕ)
      → start ≤ length line
      → IsAnswer
          (length (slice line (text_start line (start - 1)) start))
          (do_complete w c line start)
  unfolding do_complete
  do_complete-IsAnswer line start inside =
      rw (le→ltb (length line) start inside) (before_or_complete-IsAnswer c.before_complete _ _)
