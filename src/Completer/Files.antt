-- ===== src/Completer/Files.antt =====
-- drivers/completer/completer.go: completeFromFiles, with what `filepath.Dir` does to a path.
use usql.Base.{
  Bool, false, Option, none, some, List, [], ◌∷◌, ◌++◌, ◌==◌, if◌then◌else◌, Runes, codes, same,
}
use usql.Completer.Casing.{Casing}
use usql.Completer.Options.{Completion, complete_from_list}

-- The elements of a path: the first one and the others.
split_slashes : Runes → Runes × List Runes
split_slashes [] = ([], [])
split_slashes (c ∷ s) =
    let (part, parts) = split_slashes s in
    if c == b'/' then ([], part ∷ parts) else (c ∷ part, parts)

-- An element behind those already clean, the last one first.
clean_one : Bool → List Runes → Runes → List Runes
clean_one rooted [] p =
    if same p []
    then []
    else if same p (codes ".")
    then []
    else if same p (codes "..")
    then (if rooted then [] else p ∷ [])
    else p ∷ []
clean_one rooted (q ∷ qs) p =
    if same p []
    then q ∷ qs
    else if same p (codes ".")
    then q ∷ qs
    else if same p (codes "..")
    then (if same q (codes "..") then p ∷ q ∷ qs else qs)
    else p ∷ q ∷ qs

clean_all : Bool → List Runes → List Runes → List Runes
unfolding clean_one
clean_all rooted done [] = done
clean_all rooted done (p ∷ ps) = clean_all rooted (clean_one rooted done p) ps

-- The elements, the last one first, with slashes between them.
join_slashes : List Runes → Runes
join_slashes [] = []
join_slashes (p ∷ []) = p
join_slashes (p ∷ q ∷ ps) = join_slashes (q ∷ ps) ++ b'/' ∷ p

is_rooted : Runes → Bool
is_rooted [] = false
is_rooted (c ∷ s) = c == b'/'

or_dot : Runes → Runes
or_dot [] = codes "."
or_dot (c ∷ s) = c ∷ s

-- `filepath.Clean`
unfoldable pub clean : Runes → Runes
unfolding split_slashes clean_all join_slashes is_rooted or_dot
clean path =
    let (part, parts) = split_slashes path in
    let elements = join_slashes (clean_all (is_rooted path) [] (part ∷ parts)) in
    if is_rooted path then b'/' ∷ elements else or_dot elements

-- The path as far as its last slash, if it has one.
to_slash : Runes → Option Runes
to_slash [] = none
to_slash (c ∷ s) =
    let rest = to_slash s in
    elim rest [ some p ↦ some (c ∷ p) | none ↦ if c == b'/' then some (c ∷ []) else none ]

or_empty : Option Runes → Runes
or_empty none = []
or_empty (some p) = p

-- `filepath.Dir`
unfoldable pub dir_of : Runes → Runes
unfolding clean to_slash or_empty
dir_of path = clean (or_empty (to_slash path))

-- What stands before the names of a directory's entries.
unfoldable pub dir_prefix : Runes → Runes
dir_prefix dir =
    if same dir (codes ".") then [] else if same dir (codes "/") then dir else dir ++ codes "/"

-- An entry of a directory: its name, and whether it is a directory.
abbrev pub Entry : Type 0
Entry = Runes × Bool

unfoldable pub file_names : Runes → List Entry → List Runes
file_names dir [] = []
file_names dir ((name, is_dir) ∷ entries) =
    (dir ++ (if is_dir then name ++ codes "/" else name)) ∷ file_names dir entries

unfoldable pub list_files : ⦃k : Casing⦄ → Runes → Runes → Option (List Entry) → Completion
unfolding file_names dir_prefix
list_files text dir none = Completion.no_list
list_files text dir (some entries) = complete_from_list text (file_names (dir_prefix dir) entries)

-- `read_dir` is `os.ReadDir`, with `none` for an error.
unfoldable pub complete_from_files :
    ⦃k : Casing⦄ → (Runes → Option (List Entry)) → Runes → Completion
unfolding list_files dir_of
complete_from_files read_dir text = let dir = dir_of text in list_files text dir (read_dir dir)
