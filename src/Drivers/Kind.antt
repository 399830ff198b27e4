-- ===== src/Drivers/Kind.antt =====
-- drivers/qtype.go: QueryExecType with its tables of prefixes.
pub mod Longest
pub mod Counted
pub mod Query
use usql.Base.{
  ℕ, zero, suc, ◌+◌, Bool, true, false, ◌&&◌, not, Option, none, some, List, [], ◌∷◌, ◌++◌, ◌==◌,
  if◌then◌else◌, map, Runes, codes, same, among, length, take,
}

abbrev pub query_map : List Runes
query_map = map codes (
    "WITH" ∷ "PRAGMA" ∷ "EXPLAIN" ∷ "DESCRIBE" ∷ "DESC" ∷ "FETCH" ∷ "SELECT" ∷ "SHOW" ∷ "ADMIN SHOW"
    ∷ "VALUES" ∷ "LIST" ∷ "EXEC" ∷ "TABLE" ∷ "CALL" ∷ "FROM" ∷ [])

-- `execMap`, in three parts: the prefixes that are not of PostgreSQL, and the first and the second half of its own.
abbrev exec_other : List Runes
exec_other = map codes (
    "ALTER KEYSPACE" ∷ "CREATE KEYSPACE" ∷ "DROP KEYSPACE" ∷ "BEGIN BATCH" ∷ "APPLY BATCH"
    ∷ "CREATE LOGIN" ∷ "CREATE PROCEDURE" ∷ "DROP LOGIN" ∷ "DROP PROCEDURE" ∷ "BEGIN TRANSACTION"
    ∷ [])

abbrev exec_postgres : List Runes
exec_postgres = map codes (
    "ABORT" ∷ "ALTER AGGREGATE" ∷ "ALTER COLLATION" ∷ "ALTER CONVERSION" ∷ "ALTER DATABASE"
    ∷ "ALTER DEFAULT PRIVILEGES" ∷ "ALTER DOMAIN" ∷ "ALTER EVENT TRIGGER" ∷ "ALTER EXTENSION"
    ∷ "ALTER FOREIGN DATA WRAPPER" ∷ "ALTER FOREIGN TABLE" ∷ "ALTER FUNCTION" ∷ "ALTER GROUP"
    ∷ "ALTER INDEX" ∷ "ALTER LANGUAGE" ∷ "ALTER LARGE OBJECT" ∷ "ALTER MATERIALIZED VIEW"
    ∷ "ALTER OPERATOR CLASS" ∷ "ALTER OPERATOR FAMILY" ∷ "ALTER OPERATOR" ∷ "ALTER POLICY"
    ∷ "ALTER ROLE" ∷ "ALTER RULE" ∷ "ALTER SCHEMA" ∷ "ALTER SEQUENCE" ∷ "ALTER SERVER"
    ∷ "ALTER SYSTEM" ∷ "ALTER TABLESPACE" ∷ "ALTER TABLE" ∷ "ALTER TEXT SEARCH CONFIGURATION"
    ∷ "ALTER TEXT SEARCH DICTIONARY" ∷ "ALTER TEXT SEARCH PARSER" ∷ "ALTER TEXT SEARCH TEMPLATE"
    ∷ "ALTER TRIGGER" ∷ "ALTER TYPE" ∷ "ALTER USER MAPPING" ∷ "ALTER USER" ∷ "ALTER VIEW"
    ∷ "ANALYZE" ∷ "BEGIN" ∷ "CHECKPOINT" ∷ "CLOSE" ∷ "CLUSTER" ∷ "COMMENT" ∷ "COMMIT PREPARED"
    ∷ "COMMIT" ∷ "COPY" ∷ "CREATE ACCESS METHOD" ∷ "CREATE AGGREGATE" ∷ "CREATE CAST"
    ∷ "CREATE COLLATION" ∷ "CREATE CONVERSION" ∷ "CREATE DATABASE" ∷ "CREATE DOMAIN"
    ∷ "CREATE EVENT TRIGGER" ∷ "CREATE EXTENSION" ∷ "CREATE FOREIGN DATA WRAPPER"
    ∷ "CREATE FOREIGN TABLE" ∷ "CREATE FUNCTION" ∷ "CREATE GROUP" ∷ "CREATE INDEX"
    ∷ "CREATE LANGUAGE" ∷ "CREATE MATERIALIZED VIEW" ∷ "CREATE OPERATOR CLASS"
    ∷ "CREATE OPERATOR FAMILY" ∷ "CREATE OPERATOR" ∷ "CREATE POLICY" ∷ "CREATE ROLE" ∷ "CREATE RULE"
    ∷ "CREATE SCHEMA" ∷ "CREATE SEQUENCE" ∷ "CREATE SERVER" ∷ "CREATE STATISTICS"
    ∷ "CREATE SUBSCRIPTION" ∷ "CREATE TABLE AS" ∷ "CREATE TABLESPACE" ∷ "CREATE TABLE"
    ∷ "CREATE TEXT SEARCH CONFIGURATION" ∷ "CREATE TEXT SEARCH DICTIONARY"
    ∷ "CREATE TEXT SEARCH PARSER" ∷ "CREATE TEXT SEARCH TEMPLATE" ∷ "CREATE TRANSFORM"
    ∷ "CREATE TRIGGER" ∷ "CREATE TYPE" ∷ [])

abbrev exec_postgres_more : List Runes
exec_postgres_more = map codes (
    "CREATE USER MAPPING" ∷ "CREATE USER" ∷ "CREATE VIEW" ∷ "DEALLOCATE ALL" ∷ "DEALLOCATE"
    ∷ "DECLARE" ∷ "DELETE" ∷ "DISCARD" ∷ "DO" ∷ "DROP ACCESS METHOD" ∷ "DROP AGGREGATE"
    ∷ "DROP CAST" ∷ "DROP COLLATION" ∷ "DROP CONVERSION" ∷ "DROP DATABASE" ∷ "DROP DOMAIN"
    ∷ "DROP EVENT TRIGGER" ∷ "DROP EXTENSION" ∷ "DROP FOREIGN DATA WRAPPER" ∷ "DROP FOREIGN TABLE"
    ∷ "DROP FUNCTION" ∷ "DROP GROUP" ∷ "DROP INDEX" ∷ "DROP LANGUAGE" ∷ "DROP MATERIALIZED VIEW"
    ∷ "DROP OPERATOR CLASS" ∷ "DROP OPERATOR FAMILY" ∷ "DROP OPERATOR" ∷ "DROP OWNED"
    ∷ "DROP POLICY" ∷ "DROP PUBLICATION" ∷ "DROP ROLE" ∷ "DROP RULE" ∷ "DROP SCHEMA"
    ∷ "DROP SEQUENCE" ∷ "DROP SERVER" ∷ "DROP STATISTICS" ∷ "DROP SUBSCRIPTION" ∷ "DROP TABLESPACE"
    ∷ "DROP TABLE" ∷ "DROP TEXT SEARCH CONFIGURATION" ∷ "DROP TEXT SEARCH DICTIONARY"
    ∷ "DROP TEXT SEARCH PARSER" ∷ "DROP TEXT SEARCH TEMPLATE" ∷ "DROP TRANSFORM" ∷ "DROP TRIGGER"
    ∷ "DROP TYPE" ∷ "DROP USER MAPPING" ∷ "DROP USER" ∷ "DROP VIEW" ∷ "END" ∷ "EXECUTE" ∷ "GRANT"
    ∷ "IMPORT FOREIGN SCHEMA" ∷ "INSERT" ∷ "LISTEN" ∷ "LOAD" ∷ "LOCK" ∷ "MOVE" ∷ "NOTIFY"
    ∷ "PREPARE TRANSACTION" ∷ "PREPARE" ∷ "REASSIGN OWNED" ∷ "REFRESH MATERIALIZED VIEW" ∷ "REINDEX"
    ∷ "RELEASE" ∷ "RESET" ∷ "REVOKE" ∷ "ROLLBACK PREPARED" ∷ "ROLLBACK TO SAVEPOINT" ∷ "ROLLBACK"
    ∷ "SAVEPOINT" ∷ "SECURITY LABEL" ∷ "SELECT INTO" ∷ "SET CONSTRAINTS" ∷ "SET ROLE"
    ∷ "SET SESSION AUTHORIZATION" ∷ "SET TRANSACTION" ∷ "SET" ∷ "START TRANSACTION" ∷ "TRUNCATE"
    ∷ "UNLISTEN" ∷ "UPDATE" ∷ "VACUUM" ∷ [])

abbrev pub exec_map : List Runes
exec_map = exec_other ++ (exec_postgres ++ exec_postgres_more)

abbrev create_ignore : List Runes
create_ignore = map codes (
    "DEFAULT" ∷ "GLOBAL" ∷ "LOCAL" ∷ "OR" ∷ "PROCEDURAL" ∷ "RECURSIVE" ∷ "REPLACE" ∷ "TEMPORARY"
    ∷ "TEMP" ∷ "TRUSTED" ∷ "UNIQUE" ∷ "UNLOGGED" ∷ [])

-- `strings.Split(s, " ")`: the word that a text starts with, and the others.
unfoldable pub split_words : Runes → Runes × List Runes
split_words [] = ([], [])
split_words (c ∷ s) =
    let (word, words) = split_words s in if c == b' ' then ([], word ∷ words) else (c ∷ word, words)

-- `strings.Join(words, " ")`
unfoldable pub join_words : List Runes → Runes
join_words [] = []
join_words (w ∷ []) = w
join_words (w ∷ v ∷ ws) = w ++ b' ' ∷ join_words (v ∷ ws)

abbrev pub without : (Runes → Bool) → List Runes → List Runes
without drop_it [] = []
without drop_it (w ∷ ws) = if drop_it w then without drop_it ws else w ∷ without drop_it ws

-- The words behind the first one that count.
unfoldable pub normalized : Runes → List Runes → List Runes
normalized first words =
    if same first (codes "CREATE")
    then without (λ w. among w create_ignore) words
    else if same first (codes "DROP")
    then without (λ w. same w (codes "PROCEDURAL")) words
    else words

-- The longest of the first `n` runs of words that is in `execMap`.
unfoldable pub longest_match : List Runes → ℕ → Option Runes
unfolding join_words
longest_match s zero = none
longest_match s (suc n) =
    let typ = join_words (take (suc n) s) in
    let rest = longest_match s n in if among typ exec_map then some typ else rest

abbrev or_first : Runes → Option Runes → Runes
or_first first none = first
or_first first (some typ) = typ

abbrev contains : ℕ → Runes → Bool
contains c [] = false
contains c (d ∷ s) = if c == d then true else contains c s

abbrev starts_with_into : List Runes → Bool
starts_with_into [] = false
starts_with_into (w ∷ ws) = same w (codes "INTO")

-- The type of a statement whose first word is in `queryMap`.
unfoldable pub query_type : Runes → List Runes → Runes → Runes × Bool
query_type first words sqlstr =
    if same first (codes "SELECT") && starts_with_into words
    then (codes "SELECT INTO", false)
    else if same first (codes "PRAGMA")
    then (first, not (contains b'=' sqlstr))
    else (first, true)

unfoldable pub query_exec_type : Runes → Runes → Runes × Bool
unfolding split_words normalized longest_match query_type
query_exec_type prefix sqlstr =
    let (first, words) = split_words prefix in
    let s = first ∷ normalized first words in
    if same prefix []
    then (codes "EXEC", false)
    else if among first query_map
    then query_type first words sqlstr
    else (or_first first (longest_match s (length s)), false)
