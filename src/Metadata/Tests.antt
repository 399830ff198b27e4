-- ===== src/Metadata/Tests.antt =====
-- Runs on privileges.
use usql.Base.{◌≡◌, refl, false, [], ◌∷◌, Runes, codes}
use usql.Metadata.Privileges.{ObjectPrivilege, object_string, column_string, type_str, line_str}

abbrev privilege : Runes → Runes → ObjectPrivilege
privilege grantee kind = record {
  grantee = grantee;
  grantor = codes "me";
  privilege_type = kind;
  is_grantable = false;
}

two_lines :
    object_string (
      privilege (codes "a") (codes "R")
      ∷ privilege (codes "a") (codes "W")
      ∷ privilege (codes "b") (codes "R")
      ∷ [])
    ≡ codes "a=R,W/me\nb=R/me"
unfolding object_string type_str line_str
two_lines = refl

one_column :
    column_string (record { column = codes "c"; object = privilege (codes "a") (codes "R") } ∷ [])
    ≡ codes "c:\n  a=R/me"
unfolding column_string type_str line_str
one_column = refl
