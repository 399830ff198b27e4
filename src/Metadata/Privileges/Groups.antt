-- ===== src/Metadata/Privileges/Groups.antt =====
-- What is written are the groups of neighbouring privileges.
use mathlib.Core.Path.{ap₂}
use usql.Base.{
  ◌≡◌, refl, ◌∙◌, ap, not, List, [], ◌∷◌, ◌++◌, map, append_assoc, if◌then◌else◌, Runes, codes,
  same, Bool-cases, inl, inr, Bool, true, false, ◌&&◌, ◌||◌, sym, append-nil, if_rule,
}
use usql.Stmt.Next.{lineend}
use usql.Metadata.Privileges.{
  ObjectPrivilege, ColumnPrivilege, join, type_str, line_str, type_of, differs, object_lines,
  object_string, indented, block, column_blocks, column_string,
}

-- Neighbouring privileges that one grantor gave one grantee: the last of them, and the types of all.
pub record Group : Type 0 where
  pub last : ObjectPrivilege
  pub types : List Runes

-- The group that `p` begins, and those behind it.
pub record Groups : Type 0 where
  pub first : Group
  pub others : List Group

-- A type, with a star if it can be granted on.
abbrev pub marked_type : ObjectPrivilege → Runes
marked_type p = p.privilege_type ++ (if p.is_grantable then codes "*" else [])

-- A group goes on while both the grantee and the grantor stay the same.
abbrev pub grouped : ObjectPrivilege → List ObjectPrivilege → Groups
grouped p [] = record { first = record { last = p; types = marked_type p ∷ [] }; others = [] }
grouped p (q ∷ ps) =
    let g = grouped q ps in
    let ended : Groups = record {
      first = record { last = p; types = marked_type p ∷ [] };
      others = g.first ∷ g.others;
    } in
    let longer : Groups = record {
      first = record { last = g.first.last; types = marked_type p ∷ g.first.types };
      others = g.others;
    } in
    if same p.grantee q.grantee && same p.grantor q.grantor then longer else ended

-- `grantee=types/grantor`, less the slash and the grantor if there is none.
abbrev pub written : Group → Runes
written g =
    g.last.grantee
    ++ (codes "="
        ++ (join (codes ",") g.types
            ++ (if same g.last.grantor [] then [] else codes "/" ++ g.last.grantor)))

marked : (p : ObjectPrivilege) → type_of p ≡ marked_type p
unfolding type_str
marked p =
    if_rule (λ (x : Runes). x ≡ marked_type p) p.is_grantable (λ e. rw e)
      (λ e. rw e (sym (append-nil p.privilege_type)))

line_str_lem :
    (p : ObjectPrivilege) (types : List Runes)
    → line_str p.grantee p.grantor types ≡ written (record { last = p; types = types })
unfolding line_str
line_str_lem p types = elim (Bool-cases (same p.grantor [])) [
  | inl nobody ↦ rw nobody (ap (λ (s : Runes). p.grantee ++ (codes "=" ++ s)) (sym (append-nil _)))
  | inr somebody ↦ rw somebody
]

-- A line for each group, the types so far added to the first.
abbrev lines_of : List Runes → Groups → List Runes
lines_of types g =
    written (record { last = g.first.last; types = types ++ g.first.types }) ∷ map written g.others

line_lem :
    (p : ObjectPrivilege) (types : List Runes)
    → line_str p.grantee p.grantor (types ++ type_of p ∷ [])
      ≡ written (record { last = p; types = types ++ marked_type p ∷ [] })
line_lem p types =
    ap (λ (t : Runes). line_str p.grantee p.grantor (types ++ t ∷ [])) (marked p)
    ∙ line_str_lem p (types ++ marked_type p ∷ [])

-- A line ends where a group does.
differs_lem :
    (p q : ObjectPrivilege)
    → differs p q ≡ not (same p.grantee q.grantee && same p.grantor q.grantor)
differs_lem p q = either_not (same p.grantee q.grantee) (same p.grantor q.grantor)
  where
    either_not : (a b : Bool) → (not a || not b) ≡ not (a && b)
    either_not true b = refl
    either_not false b = refl

object_lines_lem :
    (types : List Runes) (p : ObjectPrivilege) (ps : List ObjectPrivilege)
    → object_lines types p ps ≡ lines_of types (grouped p ps)
unfolding object_lines
object_lines_lem types p [] = ap (λ (l : Runes). l ∷ []) (line_lem p types)
object_lines_lem types p (q ∷ ps) =
    elim (Bool-cases (same p.grantee q.grantee && same p.grantor q.grantor)) [
      | inr new ↦
          rw (differs_lem p q, new)
            (ap₂ (λ (l : Runes) (ls : List Runes). l ∷ ls) (line_lem p types)
              (object_lines_lem [] q ps))
      | inl on ↦
          rw (differs_lem p q, on)
            (ap (λ (t : Runes). object_lines (types ++ t ∷ []) q ps) (marked p)
              ∙ object_lines_lem (types ++ marked_type p ∷ []) q ps
              ∙ ap
                  (λ (ts : List Runes).
                    written (record { last = (grouped q ps).first.last; types = ts })
                    ∷ map written (grouped q ps).others)
                  (append_assoc types (marked_type p ∷ []) (grouped q ps).first.types))
    ]

-- The privileges on an object are written as one line for each group of neighbours, with the types of the group in
-- their order; a group ends where the next privilege has another grantee or grantor.
pub object_string_lem :
    (p : ObjectPrivilege) (ps : List ObjectPrivilege)
    → object_string (p ∷ ps)
      ≡ join lineend (map written ((grouped p ps).first ∷ (grouped p ps).others))
unfolding object_string
object_string_lem p ps = ap (join lineend) (object_lines_lem [] p ps)

-- The privileges on a column behind its first one, and the last one's column.
pub record Rest : Type 0 where
  pub column : Runes
  pub objects : List ObjectPrivilege

-- A column with its privileges.
pub record Column : Type 0 where
  pub first : ObjectPrivilege
  pub rest : Rest

-- What follows `p` in its column, and the columns behind.
pub record Columns : Type 0 where
  pub rest : Rest
  pub others : List Column

abbrev pub columns : ColumnPrivilege → List ColumnPrivilege → Columns
columns p [] = record { rest = record { column = p.column; objects = [] }; others = [] }
columns p (q ∷ ps) =
    let c = columns q ps in
    if not (same p.column q.column)
    then record {
      rest = record { column = p.column; objects = [] };
      others = record { first = q.object; rest = c.rest } ∷ c.others;
    }
    else record {
      rest = record { column = c.rest.column; objects = q.object ∷ c.rest.objects };
      others = c.others;
    }

abbrev pub indent : Group → Runes
indent g = codes "  " ++ written g

abbrev indent_all : List Runes → Groups → List Runes
indent_all types g =
    indent (record { last = g.first.last; types = types ++ g.first.types }) ∷ map indent g.others

-- A block: the column, and an indented line for each group of its privileges.
abbrev pub rendered : Column → Runes
rendered c =
    let g = grouped c.first c.rest.objects in
    c.rest.column ++ (codes ":\n" ++ join lineend (map indent (g.first ∷ g.others)))

indented_lem :
    (p : ObjectPrivilege) (types : List Runes)
    → indented p (types ++ type_of p ∷ [])
      ≡ indent (record { last = p; types = types ++ marked_type p ∷ [] })
indented_lem p types = ap (λ (l : Runes). codes "  " ++ l) (line_lem p types)

column_blocks_lem :
    (lines types : List Runes) (p : ColumnPrivilege) (ps : List ColumnPrivilege)
    → column_blocks lines types p ps
      ≡ block
          (columns p ps).rest.column
          (lines ++ indent_all types (grouped p.object (columns p ps).rest.objects))
        ∷ map rendered (columns p ps).others
unfolding column_blocks
column_blocks_lem lines types p [] =
    ap (λ (l : Runes). block p.column (lines ++ l ∷ []) ∷ []) (indented_lem p.object types)
column_blocks_lem lines types p (q ∷ ps) = elim (Bool-cases (same p.column q.column)) [
  | inr new ↦ rw new (
      ap₂ (λ (l : Runes) (bs : List Runes). block p.column (lines ++ l ∷ []) ∷ bs)
        (indented_lem p.object types) (column_blocks_lem [] [] q ps))
  | inl here ↦
      let a = p.object in
      let b = q.object in
      let more = columns q ps in
      elim (Bool-cases (same a.grantee b.grantee && same a.grantor b.grantor)) [
        | inr line ↦
            rw (here, differs_lem a b, line)
              (ap (λ (l : Runes). column_blocks (lines ++ l ∷ []) [] q ps) (indented_lem a types)
                ∙ column_blocks_lem
                    (lines
                      ++ indent (record { last = a; types = types ++ marked_type a ∷ [] }) ∷ [])
                    [] q ps
                ∙ ap (λ (ls : List Runes). block more.rest.column ls ∷ map rendered more.others)
                    (append_assoc lines
                      (indent (record { last = a; types = types ++ marked_type a ∷ [] }) ∷ [])
                      (indent_all [] (grouped b more.rest.objects))))
        | inl on ↦
            rw (here, differs_lem a b, on)
              (ap (λ (t : Runes). column_blocks lines (types ++ t ∷ []) q ps) (marked a)
                ∙ column_blocks_lem lines (types ++ marked_type a ∷ []) q ps
                ∙ ap
                    (λ (ts : List Runes).
                      block more.rest.column (
                        lines
                        ++ indent
                            (record { last = (grouped b more.rest.objects).first.last; types = ts })
                          ∷ map indent (grouped b more.rest.objects).others)
                      ∷ map rendered more.others)
                    (append_assoc types (marked_type a ∷ [])
                      (grouped b more.rest.objects).first.types))
      ]
]

-- The privileges on columns are written as one block for each run of neighbours with one column, and in it
-- one indented line for each group of neighbours, with the types of the group in their order; a group ends
-- where the next privilege has another grantee or grantor.
pub column_string_lem :
    (p : ColumnPrivilege) (ps : List ColumnPrivilege)
    → column_string (p ∷ ps)
      ≡ join lineend (
          map rendered
            (record { first = p.object; rest = (columns p ps).rest } ∷ (columns p ps).others))
unfolding column_string
column_string_lem p ps = ap (join lineend) (column_blocks_lem [] [] p ps)
