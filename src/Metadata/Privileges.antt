-- ===== src/Metadata/Privileges.antt =====
-- drivers/metadata/metadata.go: the privileges on objects and columns, and how they are written.
pub mod Groups
use usql.Base.{
  Bool, true, false, not, ◌&&◌, ◌||◌, List, [], ◌∷◌, ◌++◌, if◌then◌else◌, Runes, codes, same,
}
use usql.Stmt.Next.{lineend}

pub record ObjectPrivilege : Type 0 where
  pub grantee : Runes
  pub grantor : Runes
  pub privilege_type : Runes
  pub is_grantable : Bool

-- A privilege on a column.
pub record ColumnPrivilege : Type 0 where
  pub column : Runes
  pub object : ObjectPrivilege

-- `strings.Join(ss, sep)`
abbrev pub join : Runes → List Runes → Runes
join sep [] = []
join sep (s ∷ []) = s
join sep (s ∷ t ∷ ss) = s ++ (sep ++ join sep (t ∷ ss))

unfoldable pub type_str : Runes → Bool → Runes
type_str privilege grantable = if grantable then privilege ++ codes "*" else privilege

unfoldable pub line_str : Runes → Runes → List Runes → Runes
line_str grantee grantor types =
    if not (same grantor [])
    then grantee ++ (codes "=" ++ (join (codes ",") types ++ (codes "/" ++ grantor)))
    else grantee ++ (codes "=" ++ join (codes ",") types)

abbrev pub type_of : ObjectPrivilege → Runes
type_of p = type_str p.privilege_type p.is_grantable

-- Whether the next privilege begins a new line.
abbrev pub differs : ObjectPrivilege → ObjectPrivilege → Bool
differs p q = not (same p.grantee q.grantee) || not (same p.grantor q.grantor)

-- The lines from the privilege `p` on, where `types` are those of the line so far.
unfoldable pub object_lines : List Runes → ObjectPrivilege → List ObjectPrivilege → List Runes
object_lines types p [] = line_str p.grantee p.grantor (types ++ type_of p ∷ []) ∷ []
object_lines types p (q ∷ ps) =
    let now = types ++ type_of p ∷ [] in
    let ended = object_lines [] q ps in
    let more = object_lines now q ps in
    if differs p q then line_str p.grantee p.grantor now ∷ ended else more

unfoldable pub object_string : List ObjectPrivilege → Runes
unfolding object_lines
object_string [] = []
object_string (p ∷ ps) = join lineend (object_lines [] p ps)

abbrev pub indented : ObjectPrivilege → List Runes → Runes
indented p types = codes "  " ++ line_str p.grantee p.grantor types

abbrev pub block : Runes → List Runes → Runes
block column lines = column ++ (codes ":\n" ++ join lineend lines)

-- The blocks of columns from the privilege `p` on, where `lines` and `types` are those so far.
unfoldable pub column_blocks :
    List Runes → List Runes → ColumnPrivilege → List ColumnPrivilege → List Runes
column_blocks lines types p [] =
    block p.column (lines ++ indented p.object (types ++ type_of p.object ∷ []) ∷ []) ∷ []
column_blocks lines types p (q ∷ ps) =
    let now = types ++ type_of p.object ∷ [] in
    let with_line = lines ++ indented p.object now ∷ [] in
    let next_block = column_blocks [] [] q ps in
    let next_line = column_blocks with_line [] q ps in
    let next_type = column_blocks lines now q ps in
    if not (same p.column q.column)
    then block p.column with_line ∷ next_block
    else if differs p.object q.object
    then next_line
    else next_type

unfoldable pub column_string : List ColumnPrivilege → Runes
unfolding column_blocks
column_string [] = []
column_string (p ∷ ps) = join lineend (column_blocks [] [] p ps)
