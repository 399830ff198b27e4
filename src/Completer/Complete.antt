-- ===== src/Completer/Complete.antt =====
-- drivers/completer/completer.go: `complete` and `Do`.
pub mod Returned
pub mod Start
use usql.Base.{
  ℕ, zero, suc, ◌+◌, ◌-◌, Bool, true, false, Option, none, some, List, [], ◌∷◌, ◌++◌, ◌==◌,
  if◌then◌else◌, Runes, codes, length, get_or, ltb,
}
use usql.Completer.Casing.{Casing}
use usql.Completer.Pattern.{CaseType}
use usql.Completer.Options.{Completion, complete_from_list, complete_from_list_case}
use usql.Completer.Words.{is_break, get_previous_words}
use usql.Completer.Sources.{complete_from_variables}
use usql.Completer.Ladder.{
  Completer, World, first_of, delete_create_rungs, insert_rungs, update_from_rungs, backslash_rungs,
  pset_rungs,
}
use usql.Stmt.Scan.{slice}

-- The loop of `Do` from an index down to 1: the start of the text.
unfoldable pub text_start : Runes → ℕ → ℕ
unfolding is_break
text_start line zero = 0
text_start line (suc i) =
    let earlier = text_start line i in
    if is_break (get_or line (suc i) 0) then suc i + 1 else earlier

-- What `Do` returns: the completions, nil or a list, and the number of runes that they complete.
pub data Done : Type 0 where
  done : Option (List Runes) → ℕ → Done
  do_panicked : Done

module _ ⦃k : Casing⦄ (w : World) (c : Completer) where
  -- A text that a colon begins, by what is behind the colon.
  unfoldable pub after_colon : Runes → Runes → Completion
  unfolding complete_from_variables
  after_colon text [] = Completion.no_list
  after_colon text (d ∷ s) =
      if d == b':'
      then Completion.no_list
      else if d == b'\''
      then complete_from_variables w.vars text (codes ":'") (codes "'") true
      else if d == b'"'
      then complete_from_variables w.vars text (codes ":\"") (codes "\"") true
      else complete_from_variables w.vars text (codes ":") [] true

  -- What the previous words ask for.
  unfoldable pub by_words : List Runes → Runes → Completion
  unfolding first_of
  by_words [] text = complete_from_list text c.sql_start_commands
  by_words (word ∷ words) text =
      let all = word ∷ words in
      first_of
        (delete_create_rungs w c all text
          ++ insert_rungs w c all text
          ++ update_from_rungs w c all text
          ++ backslash_rungs w c all text
          ++ pset_rungs w c all text)
        (complete_from_list text c.sql_commands)

  unfoldable pub complete : List Runes → Runes → Completion
  unfolding after_colon by_words
  complete words [] = by_words words []
  complete [] (d ∷ s) =
      if d == b'\\'
      then complete_from_list_case CaseType.match_case (d ∷ s) c.backslash_commands
      else if d == b':'
      then after_colon (d ∷ s) s
      else by_words [] (d ∷ s)
  complete (word ∷ words) (d ∷ s) =
      if d == b':' then after_colon (d ∷ s) s else by_words (word ∷ words) (d ∷ s)

  unfoldable pub answered : Completion → ℕ → Done
  answered Completion.no_list n = Done.done none 0
  answered (Completion.list ms) n = Done.done (some ms) n
  answered Completion.panicked n = Done.do_panicked

  unfoldable pub asked : Option (List Runes) → Completion → ℕ → Done
  unfolding answered
  asked none other n = answered other n
  asked (some ms) other n = Done.done (some ms) n

  unfoldable pub before_or_complete :
      Option (List Runes → Runes → Option (List Runes)) → List Runes → Runes → Done
  unfolding asked complete
  before_or_complete none words text = answered (complete words text) (length text)
  before_or_complete (some before) words text =
      asked (before words text) (complete words text) (length text)

  -- The words before a cursor behind the end of the line are read out of range.
  unfoldable pub do_complete : Runes → ℕ → Done
  unfolding before_or_complete text_start get_previous_words
  do_complete line start =
      if ltb (length line) start
      then Done.do_panicked
      else before_or_complete c.before_complete (get_previous_words start line)
          (slice line (text_start line (start - 1)) start)
