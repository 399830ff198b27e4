-- ===== src/Completer/Tests.antt =====
-- Runs of completion.
use Prim.Native.String.{String}
use usql.Base.{ℕ, ◌≡◌, refl, true, false, none, some, [], ◌∷◌, codes, utf8, utf8_len}
use usql.Completer.Casing.{Casing, ascii_casing}
use usql.Completer.Pattern.{tail_matches, matches}
use usql.Completer.Options.{complete_from_list, complete_from_list_case}
use usql.Completer.Identifier.{parse_identifier, parse_parent_identifier, qualified_identifier}
use usql.Completer.Names.{Row, Reader, sort, get_namespaces}
use usql.Stmt.Rune.{is_space}
use usql.Completer.Sources.{complete_with_attributes, complete_with_selectables}
use usql.Completer.Files.{clean, dir_of, complete_from_files}
use usql.Completer.Ladder.{
  Completer, World, or_else, delete_create_rungs, insert_rungs, update_from_rungs, backslash_rungs,
}
use usql.Completer.Complete.{Done, done, do_complete}
use usql.Completer.Commands.{
  common_sql_start_commands, common_sql_commands, default_backslash_commands,
}

instance abbrev tables : Casing
tables = ascii_casing

abbrev row : String → Row
row s = record { catalog = []; schema = codes "main"; name = codes s }

abbrev reader : Reader
reader = record {
  catalogs = none;
  schemas = some (λ f. some (row "" ∷ []));
  tables = some (λ f. some (row "users" ∷ row "events" ∷ row "users" ∷ []));
  functions = none;
  indexes = none;
  sequences = some (λ f. none);
  columns = some (λ f. some (row "id" ∷ row "name" ∷ []));
}

abbrev completer : Completer
completer = record {
  reader = reader;
  sql_start_commands = common_sql_start_commands;
  sql_commands = common_sql_commands;
  backslash_commands = default_backslash_commands;
  conn_strings = [];
  before_complete = none;
}

abbrev world : World
world = record {
  arrange = λ l. l;
  vars = (codes "EDITOR", codes "vi") ∷ (codes "PAGER", []) ∷ [];
  read_dir = λ d. some ((codes "a.sql", false) ∷ (codes "old", true) ∷ []);
}

-- A line, and the cursor at its end.
completed : String → ℕ → Done
unfolding do_complete is_space delete_create_rungs matches tail_matches utf8 or_else insert_rungs
    update_from_rungs backslash_rungs complete_with_attributes complete_with_selectables
    complete_from_list complete_from_list_case complete_from_files sort get_namespaces
    parse_identifier parse_parent_identifier qualified_identifier utf8_len
completed s n = do_complete world completer (codes s) n

complete_start : completed "sel" 3 ≡ done (some (codes "ect" ∷ [])) 3
unfolding completed
complete_start = refl

complete_from : completed "select * from ev" 16 ≡ done (some (codes "ents" ∷ [])) 2
unfolding completed
complete_from = refl

complete_where : completed "update users set id = 1 where na" 32 ≡ done (some (codes "me" ∷ [])) 2
unfolding completed
complete_where = refl

complete_variable : completed "select :E" 9 ≡ done (some (codes "DITOR" ∷ [])) 2
unfolding completed
complete_variable = refl

complete_file : completed "\\i x/ol" 7 ≡ done (some (codes "d/" ∷ [])) 4
unfolding completed
complete_file = refl

clean_dots : clean (codes "/a/./b//../c/") ≡ codes "/a/c"
unfolding clean
clean_dots = refl

dir_of_nothing : dir_of (codes "x") ≡ codes "."
unfolding dir_of
dir_of_nothing = refl
