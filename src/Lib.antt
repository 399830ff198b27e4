-- ===== src/Lib.antt =====
-- usql: a universal command-line client for SQL databases, written in Go.
--
-- A session is a loop of the handler (handler/handler.go). It reads lines from a source of runes, splits them into
-- statements and backslash commands with the statement buffer (stmt/), runs the commands (metacmd/), decides
-- by the first words of a statement whether it is a query or an execution (drivers/qtype.go), and sends it to the
-- driver of the open connection (drivers/). Variables and print settings are kept by env/.
--
-- Which file models what:
--   Base              lists, cuts and tests on the native numbers; texts as rune codes, and their UTF-8 bytes
--   Failure           the error values of text/errors.go
--   Stmt.Rune         the classes of runes, and `IsSpaceOrControl` and `RunesLastIndex` of stmt/stmt.go
--   Stmt.Scan         stmt/parse.go: grab, findSpace, findNonSpace, findRune, isEmptyLine
--   Stmt.Quote        stmt/parse.go: readDollarAndTag, readString, readMultilineComment
--   Stmt.Variable     stmt/stmt.go: Var; stmt/parse.go: readVar, readStringVar
--   Stmt.Command      stmt/parse.go: readCommand
--   Stmt.Prefix       stmt/parse.go: findPrefix, FindPrefix
--   Stmt.Splice       stmt/parse.go: substitute, substituteVar, appendUpperRunes
--   Stmt.Buffer       stmt/stmt.go: Stmt, New and its options, String, RawString, Reset, Append, State
--   Stmt.Next         stmt/stmt.go: Stmt.Next, with its loop cut into rounds
--   Stmt.Params       stmt/params.go: Params with Get, GetAll and GetRaw
--   Env               env/types.go: the print settings with Pget, Pset and Ptoggle, the variables with Set and Unset
--   Drivers.Kind      drivers/qtype.go: QueryExecType with its tables
--   Drivers.Batch     drivers/drivers.go: the prefixes of batched queries
--   Drivers.Wrapped   drivers/errors.go: Error, WrapErr and chop
--   Handler.Batch     handler/handler.go: how `Run` gathers the statements of a batch
--   Handler.Session   handler/handler.go: the connection and the transaction, and Execute
--   Metadata.Privileges  drivers/metadata/metadata.go: the texts of ObjectPrivileges and ColumnPrivileges
--   Metadata.Results  drivers/metadata/metadata.go: resultSet
--   Metadata.Filter   drivers/metadata/metadata.go: Filter
--   InformationSchema  drivers/metadata/informationschema/metadata.go: the statements of the readers and their rows
--   Completer         drivers/completer/completer.go: completion, from the words before the cursor to what `Do` returns
--   Metacmd           metacmd/: the parameters, the names and the processes of the backslash commands
-- The modules below these hold proofs, Tests hold runs, and Witnesses hold the theorems at concrete inputs.
--
-- A rune is its code, a native number; a Go `[]rune` and a `string` cut by runes are lists of codes, and a string cut by
-- bytes is its list of UTF-8 bytes. A slice is modelled by its runes; where the
-- code writes behind the end of a slice, the stale rest of the array is an argument or a field. The text of a statement
-- buffer and the line it was cut from share an array: the buffer keeps where the line lies in it, and what the code
-- writes to one is seen in the other. The rune source gives a line in an array of its own. A method on a pointer
-- takes the state and returns the new one. `unicode.IsLetter`, `IsNumber` and `ToUpper` are an instance
-- argument with their values below 128 as laws; `IsSpace` and `IsControl` are written out.
-- Callbacks, the rune source, databases, directories and the order in which Go iterates over a map are arguments.
--
-- A loop that counts up to the end of a line is recursion on the number of runes left, which is enough for the rounds
-- that the source makes. The loop of `Next`, which can lengthen its own line, has its fuel as an argument, as have the
-- loops of `Get` and `GetAll`, and running out is a result of its own. `int` has 64 bits where the width matters, in
-- `Atoi`, and its decimal digits are at most 19.
--
-- Not modelled: the drivers of single databases, which send SQL texts, and the printers of metadata; the
-- backslash commands that only drive files or databases, and the process environment; the terminal, the drawing of tables
-- and graphics and the start of the program, which call third-party packages.
pub mod Base
pub mod Completer
pub mod Drivers
pub mod Env
pub mod Failure
pub mod Handler
pub mod InformationSchema
pub mod Metacmd
pub mod Metadata
pub mod Stmt
