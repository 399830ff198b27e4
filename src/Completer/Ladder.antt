-- ===== src/Completer/Ladder.antt =====
-- drivers/completer/completer.go: the completer, and the conditions of its `complete`, in their order.
pub mod Safe
pub mod Returns
use usql.Base.{
  ℕ, zero, suc, ◌+◌, ◌-◌, Bool, true, false, not, Option, none, some, List, [], ◌∷◌, ◌++◌, ◌==◌,
  if◌then◌else◌, Runes, codes, map, length, take, drop, same, get_or, ltb,
}
use Prim.Native.String.{String}
use mathlib.Core.Option
use usql.Completer.Casing.{Casing}
use usql.Completer.Pattern.{CaseType, tail_matches, matches, nth, and_then}
use usql.Completer.Options.{Completion, complete_from_list, complete_from_list_case}
use usql.Completer.Names.{Reader}
use usql.Completer.Files.{Entry, complete_from_files}
use usql.Completer.Words.{is_break, get_previous_words}
use usql.Completer.Sources.{
  complete_from_variables, complete_with_selectables, complete_with_tables, complete_with_functions,
  complete_with_indexes, complete_with_sequences, complete_with_schemas, complete_with_catalogs,
  complete_with_updatables, complete_with_attributes,
}
use usql.Stmt.Scan.{slice}

-- The state of a completer, as `NewDefaultCompleter` and its options set it. What `before_complete` gives is `none` for nil.
pub record Completer : Type 0 where
  pub reader : Reader
  pub sql_start_commands : List Runes
  pub sql_commands : List Runes
  pub backslash_commands : List Runes
  pub conn_strings : List Runes
  pub before_complete : Option (List Runes → Runes → Option (List Runes))

-- What surrounds it: the order in which maps are iterated over, the variables, in such an order, and the directories.
pub record World : Type 0 where
  pub arrange : List Runes → List Runes
  pub vars : List (Runes × Runes)
  pub read_dir : Runes → Option (List Entry)

-- `||` on results that may be panics.
unfoldable pub or_else : Option Bool → Option Bool → Option Bool
or_else none b = none
or_else (some true) b = some true
or_else (some false) b = b

-- `strings.HasSuffix(word, ")")`
pub ends_in_parenthesis : Runes → Bool
ends_in_parenthesis [] = false
ends_in_parenthesis (c ∷ []) = c == b')'
ends_in_parenthesis (c ∷ d ∷ s) = ends_in_parenthesis (d ∷ s)

-- A condition of `complete`, and what it returns where the condition holds.
abbrev pub Rung : Type 0
Rung = Option Bool × Completion

-- One condition after the other, and at last what is returned where none holds.
unfoldable pub first_of : List Rung → Completion → Completion
first_of [] last = last
first_of ((none, c) ∷ rs) last = Completion.panicked
first_of ((some true, c) ∷ rs) last = c
first_of ((some false, c) ∷ rs) last = first_of rs last

module _ ⦃k : Casing⦄ (w : World) (c : Completer) (words : List Runes) (text : Runes) where
  abbrev pub tail : CaseType → List String → Option Bool
  tail ct patterns = tail_matches ct words (map codes patterns)

  abbrev pub whole : CaseType → List String → Option Bool
  whole ct patterns = matches ct words (map codes patterns)

  abbrev pub offer_words : List String → Completion
  offer_words options = complete_from_list text (map codes options)

  -- The columns of a previous word; the word that is not there is a panic.
  abbrev pub attributes : Option Runes → List String → Completion
  attributes none options = Completion.panicked
  attributes (some selectable) options =
      complete_with_attributes w.arrange c.reader selectable text (map codes options)

  -- DELETE and CREATE.
  unfoldable pub delete_create_rungs : List Rung
  delete_create_rungs =
      (whole CaseType.ignore_case ("DELETE" ∷ []), offer_words ("FROM" ∷ []))
      ∷ (
        tail CaseType.ignore_case ("DELETE" ∷ "FROM" ∷ []),
        complete_with_updatables w.arrange c.reader text,
      )
      ∷ (
        tail CaseType.ignore_case ("DELETE" ∷ "FROM" ∷ "*" ∷ []),
        offer_words ("USING" ∷ "WHERE" ∷ []),
      )
      ∷ (
        tail CaseType.ignore_case ("CREATE" ∷ []),
        offer_words ("DATABASE" ∷ "SCHEMA" ∷ "SEQUENCE" ∷ "TABLE" ∷ "VIEW" ∷ "TEMPORARY" ∷ []),
      )
      ∷ (
        tail CaseType.ignore_case ("CREATE" ∷ "TEMP|TEMPORARY" ∷ []),
        offer_words ("TABLE" ∷ "VIEW" ∷ []),
      )
      ∷ (
        or_else (tail CaseType.ignore_case ("CREATE" ∷ "TABLE" ∷ "*" ∷ []))
            (tail CaseType.ignore_case ("CREATE" ∷ "TEMP|TEMPORARY" ∷ "TABLE" ∷ "*" ∷ [])),
        offer_words ("(" ∷ []),
      )
      ∷ []

  -- INSERT, OVERRIDING and VALUES.
  unfoldable pub insert_rungs : List Rung
  unfolding ends_in_parenthesis
  insert_rungs =
      (tail CaseType.ignore_case ("INSERT" ∷ []), offer_words ("INTO" ∷ []))
      ∷ (
        tail CaseType.ignore_case ("INSERT" ∷ "INTO" ∷ []),
        complete_with_updatables w.arrange c.reader text,
      )
      ∷ (
        tail CaseType.ignore_case ("INSERT" ∷ "INTO" ∷ "*" ∷ "(" ∷ []),
        attributes (nth words 1) [],
      )
      ∷ (
        tail CaseType.ignore_case ("INSERT" ∷ "INTO" ∷ "*" ∷ []),
        offer_words ("(" ∷ "DEFAULT VALUES" ∷ "SELECT" ∷ "TABLE" ∷ "VALUES" ∷ "OVERRIDING" ∷ []),
      )
      ∷ (
        and_then (tail CaseType.ignore_case ("INSERT" ∷ "INTO" ∷ "*" ∷ "*" ∷ []))
            (Option.map ends_in_parenthesis (nth words 0)),
        offer_words ("SELECT" ∷ "TABLE" ∷ "VALUES" ∷ "OVERRIDING" ∷ []),
      )
      ∷ (
        tail CaseType.ignore_case ("OVERRIDING" ∷ []),
        offer_words ("SYSTEM VALUE" ∷ "USER VALUE" ∷ []),
      )
      ∷ (
        tail CaseType.ignore_case ("OVERRIDING" ∷ "*" ∷ "VALUE" ∷ []),
        offer_words ("SELECT" ∷ "TABLE" ∷ "VALUES" ∷ []),
      )
      ∷ (
        and_then (tail CaseType.ignore_case ("VALUES" ∷ []))
            (Option.map not (tail CaseType.ignore_case ("DEFAULT" ∷ "VALUES" ∷ []))),
        offer_words ("(" ∷ []),
      )
      ∷ []

  -- UPDATE, WHERE, FROM, JOIN and TABLE.
  unfoldable pub update_from_rungs : List Rung
  update_from_rungs =
      (tail CaseType.ignore_case ("UPDATE" ∷ []), complete_with_updatables w.arrange c.reader text)
      ∷ (tail CaseType.ignore_case ("UPDATE" ∷ "*" ∷ []), offer_words ("SET" ∷ []))
      ∷ (tail CaseType.ignore_case ("UPDATE" ∷ "*" ∷ "SET" ∷ []), attributes (nth words 1) [])
      ∷ (tail CaseType.ignore_case ("UPDATE" ∷ "*" ∷ "SET" ∷ "!*=" ∷ []), offer_words ("=" ∷ []))
      ∷ (
        tail CaseType.ignore_case ("*" ∷ "WHERE" ∷ []),
        attributes (nth words 1) ("AND" ∷ "OR" ∷ "CASE" ∷ "WHEN" ∷ "THEN" ∷ "ELSE" ∷ "END" ∷ []),
      )
      ∷ (
        tail CaseType.ignore_case ("FROM|JOIN" ∷ []),
        complete_with_selectables w.arrange c.reader text,
      )
      ∷ (
        whole CaseType.ignore_case ("TABLE" ∷ []),
        complete_with_updatables w.arrange c.reader text,
      )
      ∷ []

  -- The backslash commands.
  unfoldable pub backslash_rungs : List Rung
  backslash_rungs =
      (
        tail CaseType.match_case (
            "\\cd|\\e|\\edit|\\g|\\gx|\\i|\\include|\\ir|\\include_relative|\\o|\\out|\\s|\\w|\\write"
            ∷ []),
        complete_from_files w.read_dir text,
      )
      ∷ (
        or_else (tail CaseType.match_case ("\\c|\\connect|\\copy" ∷ []))
            (tail CaseType.match_case ("\\copy" ∷ "*" ∷ [])),
        complete_from_list text c.conn_strings,
      )
      ∷ (tail CaseType.match_case ("\\copy" ∷ "*" ∷ "*" ∷ []), Completion.no_list)
      ∷ (
        tail CaseType.match_case ("\\da*" ∷ []),
        complete_with_functions w.arrange c.reader text (map codes ("AGGREGATE" ∷ [])),
      )
      ∷ (
        tail CaseType.match_case ("\\df*" ∷ []),
        complete_with_functions w.arrange c.reader text (map codes []),
      )
      ∷ (tail CaseType.match_case ("\\di*" ∷ []), complete_with_indexes w.arrange c.reader text)
      ∷ (tail CaseType.match_case ("\\dn*" ∷ []), complete_with_schemas w.arrange c.reader text)
      ∷ (tail CaseType.match_case ("\\ds*" ∷ []), complete_with_sequences w.arrange c.reader text)
      ∷ (
        tail CaseType.match_case ("\\dt*" ∷ []),
        complete_with_tables w.arrange c.reader text (
            map codes (
              "TABLE" ∷ "BASE TABLE" ∷ "SYSTEM TABLE" ∷ "SYNONYM" ∷ "LOCAL TEMPORARY"
              ∷ "GLOBAL TEMPORARY" ∷ [])),
      )
      ∷ (
        tail CaseType.match_case ("\\dv*" ∷ []),
        complete_with_tables w.arrange c.reader text (map codes ("VIEW" ∷ "SYSTEM VIEW" ∷ [])),
      )
      ∷ (
        tail CaseType.match_case ("\\dm*" ∷ []),
        complete_with_tables w.arrange c.reader text (map codes ("MATERIALIZED VIEW" ∷ [])),
      )
      ∷ (tail CaseType.match_case ("\\d*" ∷ []), complete_with_selectables w.arrange c.reader text)
      ∷ (
        or_else (tail CaseType.match_case ("\\l*" ∷ [])) (tail CaseType.match_case ("\\lo*" ∷ [])),
        complete_with_catalogs w.arrange c.reader text,
      )
      ∷ []

  -- \pset and \?.
  unfoldable pub pset_rungs : List Rung
  pset_rungs =
      (
        tail CaseType.match_case ("\\pset" ∷ []),
        offer_words (
            "border" ∷ "columns" ∷ "expanded" ∷ "fieldsep" ∷ "fieldsep_zero" ∷ "footer" ∷ "format"
            ∷ "linestyle" ∷ "null" ∷ "numericlocale" ∷ "pager" ∷ "pager_min_lines" ∷ "recordsep"
            ∷ "recordsep_zero" ∷ "tableattr" ∷ "title" ∷ "title" ∷ "tuples_only"
            ∷ "unicode_border_linestyle" ∷ "unicode_column_linestyle" ∷ "unicode_header_linestyle"
            ∷ []),
      )
      ∷ (
        tail CaseType.match_case ("\\pset" ∷ "expanded" ∷ []),
        offer_words ("auto" ∷ "on" ∷ "off" ∷ []),
      )
      ∷ (
        tail CaseType.match_case ("\\pset" ∷ "pager" ∷ []),
        offer_words ("always" ∷ "on" ∷ "off" ∷ []),
      )
      ∷ (
        tail CaseType.match_case
            ("\\pset" ∷ "fieldsep_zero|footer|numericlocale|pager|recordsep_zero|tuples_only" ∷ []),
        offer_words ("on" ∷ "off" ∷ []),
      )
      ∷ (
        tail CaseType.match_case ("\\pset" ∷ "format" ∷ []),
        offer_words (
            "unaligned" ∷ "aligned" ∷ "wrapped" ∷ "html" ∷ "asciidoc" ∷ "latex" ∷ "latex-longtable"
            ∷ "troff-ms" ∷ "csv" ∷ "json" ∷ "vertical" ∷ []),
      )
      ∷ (
        tail CaseType.match_case ("\\pset" ∷ "linestyle" ∷ []),
        offer_words ("ascii" ∷ "old-ascii" ∷ "unicode" ∷ []),
      )
      ∷ (
        tail CaseType.match_case (
            "\\pset" ∷ "unicode_border_linestyle|unicode_column_linestyle|unicode_header_linestyle"
            ∷ []),
        offer_words ("single" ∷ "double" ∷ []),
      )
      ∷ (
        or_else (tail CaseType.match_case ("\\pset" ∷ "*" ∷ []))
            (tail CaseType.match_case ("\\pset" ∷ "*" ∷ "*" ∷ [])),
        Completion.no_list,
      )
      ∷ (
        tail CaseType.match_case ("\\?" ∷ []),
        offer_words ("commands" ∷ "options" ∷ "variables" ∷ []),
      )
      ∷ []
