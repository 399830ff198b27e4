-- ===== src/Completer/Commands.antt =====
-- drivers/completer/completer.go: the commands that completion offers.
use usql.Base.{List, [], ◌∷◌, map, Runes, codes}

abbrev pub common_sql_start_commands : List Runes
common_sql_start_commands = map codes (
    "ABORT" ∷ "ALTER" ∷ "ANALYZE" ∷ "BEGIN" ∷ "CALL" ∷ "CHECKPOINT" ∷ "CLOSE" ∷ "CLUSTER"
    ∷ "COMMENT" ∷ "COMMIT" ∷ "COPY" ∷ "CREATE" ∷ "DEALLOCATE" ∷ "DECLARE" ∷ "DELETE FROM" ∷ "DESC"
    ∷ "DESCRIBE" ∷ "DISCARD" ∷ "DO" ∷ "DROP" ∷ "END" ∷ "EXEC" ∷ "EXECUTE" ∷ "EXPLAIN" ∷ "FETCH"
    ∷ "GRANT" ∷ "IMPORT" ∷ "INSERT" ∷ "LIST" ∷ "LISTEN" ∷ "LOAD" ∷ "LOCK" ∷ "MOVE" ∷ "NOTIFY"
    ∷ "PRAGMA" ∷ "PREPARE" ∷ "REASSIGN" ∷ "REFRESH MATERIALIZED VIEW" ∷ "REINDEX" ∷ "RELEASE"
    ∷ "RESET" ∷ "REVOKE" ∷ "ROLLBACK" ∷ "SAVEPOINT" ∷ "SECURITY LABEL" ∷ "SELECT" ∷ "SET" ∷ "SHOW"
    ∷ "START" ∷ "TABLE" ∷ "TRUNCATE" ∷ "UNLISTEN" ∷ "UPDATE" ∷ "VACUUM" ∷ "VALUES" ∷ "WITH" ∷ [])

abbrev pub common_sql_commands : List Runes
common_sql_commands = map codes (
    "AND" ∷ "CASE" ∷ "CROSS JOIN" ∷ "ELSE" ∷ "END" ∷ "FETCH" ∷ "FROM" ∷ "FULL OUTER JOIN"
    ∷ "GROUP BY" ∷ "HAVING" ∷ "IN" ∷ "INNER JOIN" ∷ "IS NOT NULL" ∷ "IS NULL" ∷ "JOIN" ∷ "LEFT JOIN"
    ∷ "LIMIT" ∷ "NOT" ∷ "ON" ∷ "OR" ∷ "ORDER BY" ∷ "THEN" ∷ "WHEN" ∷ "WHERE" ∷ [])

-- The backslash commands of `NewDefaultCompleter`.
abbrev pub default_backslash_commands : List Runes
default_backslash_commands = map codes (
    "\\!" ∷ "\\?" ∷ "\\a" ∷ "\\begin" ∷ "\\c" ∷ "\\connect" ∷ "\\C" ∷ "\\cd" ∷ "\\commit"
    ∷ "\\conninfo" ∷ "\\copyright" ∷ "\\copy" ∷ "\\d+" ∷ "\\da+" ∷ "\\da" ∷ "\\daS+" ∷ "\\daS"
    ∷ "\\df+" ∷ "\\df" ∷ "\\dfS+" ∷ "\\dfS" ∷ "\\di+" ∷ "\\di" ∷ "\\diS+" ∷ "\\diS" ∷ "\\dm+"
    ∷ "\\dm" ∷ "\\dmS+" ∷ "\\dmS" ∷ "\\dn+" ∷ "\\dn" ∷ "\\dnS+" ∷ "\\dnS" ∷ "\\drivers" ∷ "\\ds+"
    ∷ "\\ds" ∷ "\\dS+" ∷ "\\dS" ∷ "\\dsS+" ∷ "\\dsS" ∷ "\\dt+" ∷ "\\dt" ∷ "\\dtS+" ∷ "\\dtS"
    ∷ "\\dv+" ∷ "\\dv" ∷ "\\dvS+" ∷ "\\dvS" ∷ "\\e" ∷ "\\echo" ∷ "\\f" ∷ "\\g" ∷ "\\gexec"
    ∷ "\\gset" ∷ "\\gx" ∷ "\\H" ∷ "\\i" ∷ "\\ir" ∷ "\\l+" ∷ "\\l" ∷ "\\p" ∷ "\\password"
    ∷ "\\prompt" ∷ "\\pset" ∷ "\\q" ∷ "\\r" ∷ "\\raw" ∷ "\\rollback" ∷ "\\set" ∷ "\\setenv" ∷ "\\t"
    ∷ "\\T" ∷ "\\timing" ∷ "\\unset" ∷ "\\w" ∷ "\\watch" ∷ "\\x" ∷ "\\Z" ∷ [])
