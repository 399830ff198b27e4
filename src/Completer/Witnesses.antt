-- ===== src/Completer/Witnesses.antt =====
-- The theorems about completion, applied at concrete inputs.
use mathlib.Core.List.{Permᴰ, reverse, reverse_aux}
use mathlib.Core.List.Permᴰ
use usql.Base.{
  ℕ, ◌≡◌, ◌↔◌, refl, true, Bool, none, some, List, [], ◌∷◌, ◌++◌, Runes, codes, length, arith, ◌-◌,
}
use usql.Completer.Casing.{Casing, ascii_casing}
use usql.Completer.Words.{get_previous_words}
use usql.Completer.Words.Placed.{IsLastBreak, ArePlaced, get_previous_words-ArePlaced}
use usql.Completer.Pattern.{CaseType, word_matches, tail_matches, matches}
use usql.Completer.Pattern.Star.{Encloses, word_matches-Encloses}
use usql.Completer.Pattern.Tail.{in_order, tail_matches-in_order}
use usql.Completer.Identifier.{parse_identifier, qualified_identifier}
use usql.Metadata.Filter.{no_filter}
use usql.Completer.Identifier.RoundTrip.{kept, parse_identifier-qualified_identifier}
use usql.Completer.Names.{Row, Reader}
use usql.Completer.Sources.{
  complete_with_selectables, complete_with_tables, complete_with_functions, complete_with_indexes,
  complete_with_sequences, complete_with_updatables,
}
use usql.Completer.Sources.Arranged.{completions_arranged}
use usql.Completer.Ladder.{Completer, World}
use usql.Completer.Complete.{do_complete, text_start}
use usql.Completer.Complete.Start.{IsStart, text_start-IsStart}
use usql.Completer.Complete.Returned.{IsAnswer, do_complete-IsAnswer}
use usql.Stmt.Scan.{slice}

instance abbrev ascii_tables : Casing
ascii_tables = ascii_casing

abbrev line : Runes
line = codes "update users set na"

get_previous_words-ArePlaced_example :
    (p : ℕ) × IsLastBreak line 19 p × ArePlaced line p (get_previous_words 19 line)
get_previous_words-ArePlaced_example = get_previous_words-ArePlaced line 19

tail_matches-in_order_example :
    (tail_matches CaseType.ignore_case
        (reverse_aux (codes "update" ∷ codes "users" ∷ []) (codes "begin" ∷ []))
        (codes "UPDATE" ∷ codes "*" ∷ [])
      ≡ in_order CaseType.ignore_case
          (codes "update" ∷ codes "users" ∷ [])
          (codes "UPDATE" ∷ codes "*" ∷ []))
    × (matches CaseType.ignore_case
          (reverse (codes "update" ∷ codes "users" ∷ []))
          (codes "UPDATE" ∷ codes "*" ∷ [])
        ≡ in_order CaseType.ignore_case
            (codes "update" ∷ codes "users" ∷ [])
            (codes "UPDATE" ∷ codes "*" ∷ []))
tail_matches-in_order_example =
    tail_matches-in_order CaseType.ignore_case (codes "update" ∷ codes "users" ∷ [])
      (codes "begin" ∷ []) (codes "UPDATE" ∷ codes "*" ∷ []) refl

word_matches-Encloses_example :
    (b : Bool) × (word_matches CaseType.match_case (codes "\\d" ++ b'*' ∷ codes "+") (codes "\\dt+")
      ≡ some b)
    × ((b ≡ true) ↔ Encloses (codes "\\d") (codes "+") (codes "\\dt+"))
word_matches-Encloses_example =
    word_matches-Encloses (codes "\\d") (codes "+") (codes "\\dt+") (refl, (refl, tt))
      (refl, (refl, (refl, (refl, tt)))) (refl, tt)

parse_identifier-qualified_identifier_example :
    parse_identifier (
      qualified_identifier
        (record no_filter { schema = codes "m" })
        (codes "db")
        (codes "main")
        (codes "users"))
    ≡ kept (record no_filter { schema = codes "m" }) (codes "db") (codes "main") (codes "users")
parse_identifier-qualified_identifier_example =
    parse_identifier-qualified_identifier (record no_filter { schema = codes "m" }) (codes "db")
      (codes "main") (codes "users") (refl, (refl, tt)) (refl, (refl, (refl, (refl, tt))))
      (refl, (refl, (refl, (refl, (refl, tt))))) ne
  where
    ne : ◌≡◌ {A = Runes} (codes "main") [] → ⊥
    ne e = cc

abbrev a_row : Runes → Row
a_row s = record { catalog = []; schema = codes "main"; name = s }

abbrev a_reader : Reader
a_reader = record {
  catalogs = none;
  schemas = none;
  tables = some (λ f. some (a_row (codes "users") ∷ a_row (codes "events") ∷ []));
  functions = none;
  indexes = none;
  sequences = some (λ f. none);
  columns = none;
}

abbrev a_completer : Completer
a_completer = record {
  reader = a_reader;
  sql_start_commands = codes "SELECT" ∷ [];
  sql_commands = codes "FROM" ∷ [];
  backslash_commands = codes "\\q" ∷ [];
  conn_strings = [];
  before_complete = none;
}

abbrev a_world : World
a_world = record { arrange = reverse; vars = []; read_dir = λ d. none }

text_start-IsStart_example : IsStart line 19 (text_start line 18)
text_start-IsStart_example = text_start-IsStart line 18

do_complete-IsAnswer_example :
    IsAnswer
      (length (slice line (text_start line (19 - 1)) 19))
      (do_complete a_world a_completer line 19)
do_complete-IsAnswer_example = do_complete-IsAnswer a_world a_completer line 19 (omega arith)

completions_arranged_example :
    (complete_with_selectables reverse a_reader (codes "us")
      ≡ complete_with_selectables (λ l. l) a_reader (codes "us"))
    × (complete_with_tables reverse a_reader (codes "us") []
        ≡ complete_with_tables (λ l. l) a_reader (codes "us") [])
    × (complete_with_functions reverse a_reader (codes "us") []
        ≡ complete_with_functions (λ l. l) a_reader (codes "us") [])
    × (complete_with_indexes reverse a_reader (codes "us")
        ≡ complete_with_indexes (λ l. l) a_reader (codes "us"))
    × (complete_with_sequences reverse a_reader (codes "us")
        ≡ complete_with_sequences (λ l. l) a_reader (codes "us"))
    × (complete_with_updatables reverse a_reader (codes "us")
        ≡ complete_with_updatables (λ l. l) a_reader (codes "us"))
completions_arranged_example =
    completions_arranged reverse (λ l. l) reverse_same a_reader (codes "us") []
  where
    reverse_same : (l : List Runes) → Permᴰ (reverse l) l
    reverse_same l = Permᴰ.reverse l
