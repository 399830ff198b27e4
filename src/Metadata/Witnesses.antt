-- ===== src/Metadata/Witnesses.antt =====
-- The theorems about privileges and result sets at concrete ones.
use usql.Base.{ℕ, ◌≡◌, false, some, [], ◌∷◌, ltb, map, arith, Runes, codes}
use usql.Metadata.Privileges.{ObjectPrivilege, ColumnPrivilege, join, object_string, column_string}
use usql.Metadata.Privileges.Groups.{
  written, rendered, grouped, columns, object_string_lem, column_string_lem,
}
use usql.Metadata.Results.{ResultSet, len, reset}
use usql.Metadata.Results.Read.{read_all, read_all-reset}
use usql.Stmt.Next.{lineend}

abbrev privilege : Runes → Runes → ObjectPrivilege
privilege grantee kind = record {
  grantee = grantee;
  grantor = codes "me";
  privilege_type = kind;
  is_grantable = false;
}

abbrev read_a : ObjectPrivilege
read_a = privilege (codes "a") (codes "R")

abbrev read_b : ObjectPrivilege
read_b = privilege (codes "b") (codes "R")

object_string_lem_example :
    object_string (read_a ∷ read_b ∷ [])
    ≡ join lineend
        (map written ((grouped read_a (read_b ∷ [])).first ∷ (grouped read_a (read_b ∷ [])).others))
object_string_lem_example = object_string_lem read_a (read_b ∷ [])

abbrev first_column : ColumnPrivilege
first_column = record { column = codes "c"; object = read_a }

abbrev second_column : ColumnPrivilege
second_column = record { column = codes "d"; object = read_b }

column_string_lem_example :
    column_string (first_column ∷ second_column ∷ [])
    ≡ join lineend (
        map rendered (
          record { first = read_a; rest = (columns first_column (second_column ∷ [])).rest }
          ∷ (columns first_column (second_column ∷ [])).others))
column_string_lem_example = column_string_lem first_column (second_column ∷ [])

abbrev rows : ResultSet ℕ
rows = record { results = 1 ∷ 2 ∷ 3 ∷ []; current = 2; filter = some (λ n. ltb 1 n) }

read_all-reset_example : (read_all 4 (reset rows) ≡ some (2 ∷ 3 ∷ [])) × (len rows ≡ 2)
read_all-reset_example = read_all-reset rows 4 (omega arith)
