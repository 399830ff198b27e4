-- ===== src/InformationSchema/Summaries/Grouped.antt =====
-- The summaries are those of the groups of rows of one object.
use mathlib.Core.Path.{ap₂}
use mathlib.Core.Bool.{true≢false}
use usql.Base.{
  same→≡, ◌≡◌, refl, sym, ◌∙◌, ap, Bool, true, false, not, ◌&&◌, ◌||◌, inl, inr, none, List, [],
  ◌∷◌, ◌++◌, map, append_assoc, append-nil, if◌then◌else◌, same, Bool-cases,
}
use usql.InformationSchema.Rows.{Answer, Scanned, Listed}
use usql.InformationSchema.Summaries.{
  Summary, PrivilegeRow, Gathered, no_summary, other_object, with_privilege, summary_for,
  gather_row, gather_rows, gather_answer,
}
use usql.Metadata.Privileges.{ObjectPrivilege, ColumnPrivilege}

-- Rows that stand next to each other and are of one object.
pub record Group : Type 0 where
  pub first : PrivilegeRow
  pub others : List PrivilegeRow

abbrev pub same_object : PrivilegeRow → PrivilegeRow → Bool
same_object r t =
    same r.row_catalog t.row_catalog && same r.row_schema t.row_schema && same r.row_name t.row_name

abbrev pub into_first : PrivilegeRow → List Group → List Group
into_first r [] = []
into_first r (g ∷ gs) = record { first = r; others = g.first ∷ g.others } ∷ gs

-- The longest groups.
abbrev pub groups : PrivilegeRow → List PrivilegeRow → List Group
groups r [] = record { first = r; others = [] } ∷ []
groups r (t ∷ ts) =
    if same_object r t
    then into_first r (groups t ts)
    else record { first = r; others = [] } ∷ groups t ts

-- The privileges that a row gives on the object, and on a column of it.
abbrev pub on_object : PrivilegeRow → List ObjectPrivilege
on_object r =
    if same r.privilege.privilege_type []
    then []
    else if same r.row_column []
    then r.privilege ∷ []
    else []

abbrev pub on_column : PrivilegeRow → List ColumnPrivilege
on_column r =
    if same r.privilege.privilege_type []
    then []
    else if same r.row_column []
    then []
    else record { column = r.row_column; object = r.privilege } ∷ []

abbrev pub all_on_object : List PrivilegeRow → List ObjectPrivilege
all_on_object [] = []
all_on_object (r ∷ rs) = on_object r ++ all_on_object rs

abbrev pub all_on_column : List PrivilegeRow → List ColumnPrivilege
all_on_column [] = []
all_on_column (r ∷ rs) = on_column r ++ all_on_column rs

-- The summary of a group.
abbrev pub summary_of : Group → Summary
summary_of g = record (summary_for g.first) {
  object_privileges = all_on_object (g.first ∷ g.others);
  column_privileges = all_on_column (g.first ∷ g.others);
}

-- A summary with the head of a row and these privileges.
abbrev headed : PrivilegeRow → List ObjectPrivilege → List ColumnPrivilege → Summary
headed h os cs = record (summary_for h) { object_privileges = os; column_privileges = cs }

headed_with :
    (h : PrivilegeRow) {os ps : List ObjectPrivilege} {cs ds : List ColumnPrivilege}
    → os ≡ ps
    → cs ≡ ds
    → headed h os cs ≡ headed h ps ds
headed_with h e k = cc

with_privilege_lem :
    (r h : PrivilegeRow) (os : List ObjectPrivilege) (cs : List ColumnPrivilege)
    → with_privilege r (headed h os cs) ≡ headed h (os ++ on_object r) (cs ++ on_column r)
unfolding with_privilege
with_privilege_lem r h os cs = elim (Bool-cases (same r.privilege.privilege_type [])) [
  | inl none_there ↦ rw none_there (headed_with h (sym (append-nil os)) (sym (append-nil cs)))
  | inr some_there ↦ elim (Bool-cases (same r.row_column [])) [
    | inl object ↦ rw (some_there, object) (headed_with h refl (sym (append-nil cs)))
    | inr column ↦ rw (some_there, column) (headed_with h (sym (append-nil os)) refl)
  ]
]

-- The groups, where the first one has been begun with a head and privileges.
abbrev begun :
    PrivilegeRow → List ObjectPrivilege → List ColumnPrivilege → List Group → List Summary
begun h os cs [] = []
begun h os cs (g ∷ gs) =
    headed h (os ++ all_on_object g.others) (cs ++ all_on_column g.others) ∷ map summary_of gs

groups_first :
    (r : PrivilegeRow) (ts : List PrivilegeRow)
    → (others : List PrivilegeRow) × (gs : List Group) × (groups r ts
        ≡ record { first = r; others = others } ∷ gs)
groups_first r [] = ([], [], refl)
groups_first r (t ∷ ts) =
    let (others, gs, is) = groups_first t ts in
    elim (Bool-cases (same_object r t)) [
      | inl one ↦ (t ∷ others, gs, rw (one, is) refl)
      | inr two ↦ ([], groups t ts, rw two refl)
    ]

begun_first :
    (r : PrivilegeRow) (ts : List PrivilegeRow)
    → begun r (on_object r) (on_column r) (groups r ts) ≡ map summary_of (groups r ts)
begun_first r ts = let (others, gs, is) = groups_first r ts in rw is refl

begun_into :
    (h r t : PrivilegeRow) (os : List ObjectPrivilege) (cs : List ColumnPrivilege)
    (ts : List PrivilegeRow)
    → begun h (os ++ on_object t) (cs ++ on_column t) (groups t ts)
      ≡ begun h os cs (into_first r (groups t ts))
begun_into h r t os cs ts =
    let (others, gs, is) = groups_first t ts in
    rw is (
      ap (λ (s : Summary). s ∷ map summary_of gs)
        (headed_with h (append_assoc os (on_object t) (all_on_object others))
          (append_assoc cs (on_column t) (all_on_column others))))

and_true : (a b : Bool) → (a && b) ≡ true → (a ≡ true) × (b ≡ true)
and_true true b e = (refl, e)
and_true false b e = absurd (true≢false (sym e))

-- The rows of one object.
record IsOf (h r : PrivilegeRow) : Type 0 where
  catalog : h.row_catalog ≡ r.row_catalog
  schema : h.row_schema ≡ r.row_schema
  name : h.row_name ≡ r.row_name

de_morgan : (a b c : Bool) → (not a || not b || not c) ≡ not (a && b && c)
de_morgan true true true = refl
de_morgan true true false = refl
de_morgan true false c = refl
de_morgan false b c = refl

other_object_lem :
    (h r t : PrivilegeRow) (os : List ObjectPrivilege) (cs : List ColumnPrivilege)
    → IsOf h r
    → other_object (headed h os cs) t ≡ not (same_object r t)
unfolding other_object
other_object_lem h r t os cs o = rw (o.catalog, o.schema, o.name) (de_morgan _ _ _)

same_object→IsOf : (h r t : PrivilegeRow) → IsOf h r → same_object r t ≡ true → IsOf h t
same_object→IsOf h r t o e =
    let (c, more) = and_true _ _ e in
    let (d, n) = and_true _ _ c in
    record {
      catalog = o.catalog ∙ same→≡ _ _ d;
      schema = o.schema ∙ same→≡ _ _ n;
      name = o.name ∙ same→≡ _ _ more;
    }

abbrev gathered :
    List Summary → PrivilegeRow → List ObjectPrivilege → List ColumnPrivilege → Gathered
gathered done h os cs = record { results = done; current = headed h os cs; is_listed = true }

module _ (done : List Summary) (h r t : PrivilegeRow) (os : List ObjectPrivilege)
    (cs : List ColumnPrivilege) (o : IsOf h r) where
  gather_same :
      same_object r t ≡ true
      → gather_row t (gathered done h os cs)
        ≡ gathered done h (os ++ on_object t) (cs ++ on_column t)
  unfolding gather_row
  gather_same one =
      rw (other_object_lem h r t os cs o, one)
        (ap (λ (s : Summary). record { results = done; current = s; is_listed = true })
          (with_privilege_lem t h os cs))

  gather_other :
      same_object r t ≡ false
      → gather_row t (gathered done h os cs)
        ≡ gathered (done ++ headed h os cs ∷ []) t (on_object t) (on_column t)
  unfolding gather_row
  gather_other two =
      rw (other_object_lem h r t os cs o, two)
        (ap
          (λ (s : Summary). record {
            results = done ++ headed h os cs ∷ [];
            current = s;
            is_listed = true;
          })
          (with_privilege_lem t t [] []))

gather_rows_lem :
    (done : List Summary) (h r : PrivilegeRow) (os : List ObjectPrivilege)
    (cs : List ColumnPrivilege) (ts : List PrivilegeRow)
    → IsOf h r
    → gather_rows (gathered done h os cs) (map Scanned.good ts) none
      ≡ Listed.listed (done ++ begun h os cs (groups r ts))
unfolding gather_rows
gather_rows_lem done h r os cs [] o =
    ap (λ (s : Summary). Listed.listed (done ++ s ∷ []))
      (headed_with h (sym (append-nil os)) (sym (append-nil cs)))
gather_rows_lem done h r os cs (t ∷ ts) o = elim (Bool-cases (same_object r t)) [
  | inl one ↦
      ap (λ (g : Gathered). gather_rows g (map Scanned.good ts) none)
        (gather_same done h r t os cs o one)
      ∙ gather_rows_lem done h t (os ++ on_object t) (cs ++ on_column t) ts
          (same_object→IsOf h r t o one)
      ∙ ap (λ (l : List Summary). Listed.listed (done ++ l)) (begun_into h r t os cs ts)
      ∙ rw one refl
  | inr two ↦
      ap (λ (g : Gathered). gather_rows g (map Scanned.good ts) none)
        (gather_other done h r t os cs o two)
      ∙ gather_rows_lem (done ++ headed h os cs ∷ []) t t (on_object t) (on_column t) ts
          (record { catalog = refl; schema = refl; name = refl })
      ∙ ap Listed.listed (
          append_assoc done (headed h os cs ∷ []) _
          ∙ ap (λ (l : List Summary). done ++ l)
              (ap₂ (λ (s : Summary) (l : List Summary). s ∷ l)
                (headed_with h (sym (append-nil os)) (sym (append-nil cs))) (begun_first t ts)))
      ∙ rw two refl
]

gather_first :
    (r : PrivilegeRow)
    → other_object no_summary r ≡ true
    → gather_row r (record { results = []; current = no_summary; is_listed = false })
      ≡ gathered [] r (on_object r) (on_column r)
unfolding gather_row
gather_first r named = rw named (
    ap (λ (s : Summary). record { results = []; current = s; is_listed = true })
      (with_privilege_lem r r [] []))

-- PrivilegeSummaries, where no row fails, lists one summary for each longest group of neighbouring rows of
-- one object, in order: with the names and the type of the group's first row, its privileges on the object
-- and those on columns, both in order, except_schema the rows that have no privilege. The first row has a
-- catalog, a schema or a name that is not empty.
pub gather_answer_lem :
    (r : PrivilegeRow) (rs : List PrivilegeRow)
    → other_object no_summary r ≡ true
    → gather_answer (Answer.rows (map Scanned.good (r ∷ rs)) none)
      ≡ Listed.listed (map summary_of (groups r rs))
unfolding gather_answer gather_rows
gather_answer_lem r rs named =
    ap (λ (g : Gathered). gather_rows g (map Scanned.good rs) none) (gather_first r named)
    ∙ gather_rows_lem [] r r (on_object r) (on_column r) rs
        (record { catalog = refl; schema = refl; name = refl })
    ∙ ap Listed.listed (begun_first r rs)
