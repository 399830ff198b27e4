-- ===== src/Completer/Ladder/Returns.antt =====
-- Every answer of the ladder returns.
use Prim.Native.String.{String}
use usql.Base.{
  Bytes, suc, ◌<◌, ◌≤◌, ◌≡◌, refl, true, not, Option, none, some, List, [], ◌∷◌, ◌++◌, map, Runes,
  codes, length, arith,
}
use usql.Completer.Casing.{Casing}
use usql.Completer.Pattern.{CaseType, nth, tail_matches}
use usql.Metadata.Filter.{Filter}
use usql.Completer.Names.{Reader, Query}
use usql.Completer.Sources.{
  complete_with_objects, complete_schemas, complete_catalogs, complete_with_selectables,
  complete_with_tables, complete_with_functions, complete_with_indexes, complete_with_sequences,
  complete_with_schemas, complete_with_catalogs, complete_with_updatables, complete_with_attributes,
}
use usql.Completer.Files.{Entry, list_files, dir_of, complete_from_files}
use usql.Completer.Ladder.{
  Completer, World, ends_in_parenthesis, attributes, delete_create_rungs, insert_rungs,
  update_from_rungs, backslash_rungs, pset_rungs,
}
use usql.Completer.Ladder.Safe.{
  Returns, returns_nil, returns_list, Tested, AreSafe, AreSafe-append, have_text, or_else-Tested,
  and_then-Tested, map-Tested, nth-some, complete_from_list-Returns, tail-Tested, matches-Tested,
  tail-length,
}

module _ ⦃k : Casing⦄ (arrange : List Runes → List Runes) (r : Reader) (text : Runes) where
  objects-Returns :
      (query : Option Query) (f : Filter) → Returns (complete_with_objects arrange r query f text)
  unfolding complete_with_objects
  objects-Returns none f = returns_list []
  objects-Returns (some query) f = complete_from_list-Returns text _

  schemas-Returns :
      (query : Option Query) (f : Filter) → Returns (complete_schemas arrange r query f text)
  unfolding complete_schemas
  schemas-Returns none f = returns_list []
  schemas-Returns (some query) f = complete_from_list-Returns text _

  catalogs-Returns :
      (query : Option Query) (f : Filter) → Returns (complete_catalogs arrange r query f text)
  unfolding complete_catalogs
  catalogs-Returns none f = returns_list []
  catalogs-Returns (some query) f = complete_from_list-Returns text _

pub files-Returns :
    ⦃k : Casing⦄ (read_dir : Runes → Option (List Entry)) (text : Runes)
    → Returns (complete_from_files read_dir text)
unfolding complete_from_files
files-Returns read_dir text = by_entries (dir_of text) (read_dir (dir_of text))
  where
    by_entries : (dir : Runes) (o : Option (List Entry)) → Returns (list_files text dir o)
    by_entries dir none = unfold list_files in returns_nil
    by_entries dir (some entries) = unfold list_files in complete_from_list-Returns text _

module _ ⦃k : Casing⦄ (w : World) (c : Completer) (word : Runes) (words : List Runes)
    (text : Runes) where
  tests :
      (ct : CaseType) (ps : List Bytes)
      → have_text ps ≡ true
      → Tested (tail_matches ct (word ∷ words) ps)
  tests ct ps h = tail-Tested ct (word ∷ words) ps h

  attributes-Returns :
      (o : Option Runes) (options : List String)
      → (s : Runes) × (o ≡ some s)
      → Returns (attributes w c (word ∷ words) text o options)
  unfolding complete_with_attributes
  attributes-Returns o options (s, is) = rw is (complete_from_list-Returns text _)

  -- Where two words or more match, the second one is there.
  column :
      (ct : CaseType) (p q : Bytes) (ps : List Bytes)
      → tail_matches ct (word ∷ words) (p ∷ q ∷ ps) ≡ some true
      → (s : Runes) × (nth (word ∷ words) 1 ≡ some s)
  column ct p q ps e =
      nth-some (word ∷ words) 1 (two ps (tail-length ct (word ∷ words) (p ∷ q ∷ ps) e))
    where
      two : (qs : List Bytes) → suc (suc (length qs)) ≤ suc (length words) → 1 < suc (length words)
      two qs h = omega (arith, h)

  delete_create_rungs-AreSafe : AreSafe (delete_create_rungs w c (word ∷ words) text)
  unfolding delete_create_rungs complete_with_updatables
  delete_create_rungs-AreSafe = (
    (matches-Tested _ (word ∷ words) _ refl, λ e. complete_from_list-Returns text _),
    (
      (tests _ _ refl, λ e. complete_from_list-Returns text _),
      (
        (tests _ _ refl, λ e. complete_from_list-Returns text _),
        (
          (tests _ _ refl, λ e. complete_from_list-Returns text _),
          (
            (tests _ _ refl, λ e. complete_from_list-Returns text _),
            (
              (
                or_else-Tested (tests _ _ refl) (tests _ _ refl),
                λ e. complete_from_list-Returns text _,
              ),
              tt,
            ),
          ),
        ),
      ),
    ),
  )

  insert_rungs-AreSafe : AreSafe (insert_rungs w c (word ∷ words) text)
  unfolding insert_rungs complete_with_updatables nth
  insert_rungs-AreSafe = (
    (tests _ _ refl, λ e. complete_from_list-Returns text _),
    (
      (tests _ _ refl, λ e. complete_from_list-Returns text _),
      (
        (tests _ _ refl, λ e. attributes-Returns _ _ (column _ _ _ _ e)),
        (
          (tests _ _ refl, λ e. complete_from_list-Returns text _),
          (
            (
              and_then-Tested
                  (tests CaseType.ignore_case (map codes ("INSERT" ∷ "INTO" ∷ "*" ∷ "*" ∷ [])) refl)
                  (ends_in_parenthesis word, refl),
              λ e. complete_from_list-Returns text _,
            ),
            (
              (tests _ _ refl, λ e. complete_from_list-Returns text _),
              (
                (tests _ _ refl, λ e. complete_from_list-Returns text _),
                (
                  (
                    and_then-Tested (tests CaseType.ignore_case (map codes ("VALUES" ∷ [])) refl) (
                        map-Tested not (
                          tests CaseType.ignore_case (map codes ("DEFAULT" ∷ "VALUES" ∷ [])) refl)),
                    λ e. complete_from_list-Returns text _,
                  ),
                  tt,
                ),
              ),
            ),
          ),
        ),
      ),
    ),
  )

  update_from_rungs-AreSafe : AreSafe (update_from_rungs w c (word ∷ words) text)
  unfolding update_from_rungs complete_with_updatables complete_with_selectables
  update_from_rungs-AreSafe = (
    (tests _ _ refl, λ e. complete_from_list-Returns text _),
    (
      (tests _ _ refl, λ e. complete_from_list-Returns text _),
      (
        (tests _ _ refl, λ e. attributes-Returns _ _ (column _ _ _ _ e)),
        (
          (tests _ _ refl, λ e. complete_from_list-Returns text _),
          (
            (tests _ _ refl, λ e. attributes-Returns _ _ (column _ _ _ _ e)),
            (
              (tests _ _ refl, λ e. complete_from_list-Returns text _),
              (
                (matches-Tested _ (word ∷ words) _ refl, λ e. complete_from_list-Returns text _),
                tt,
              ),
            ),
          ),
        ),
      ),
    ),
  )

  backslash_rungs-AreSafe : AreSafe (backslash_rungs w c (word ∷ words) text)
  unfolding backslash_rungs complete_with_selectables complete_with_tables complete_with_functions
      complete_with_indexes complete_with_sequences complete_with_schemas complete_with_catalogs
  backslash_rungs-AreSafe = (
    (tests _ _ refl, λ e. files-Returns w.read_dir text),
    (
      (or_else-Tested (tests _ _ refl) (tests _ _ refl), λ e. complete_from_list-Returns text _),
      (
        (tests _ _ refl, λ e. returns_nil),
        (
          (tests _ _ refl, λ e. objects-Returns w.arrange c.reader text _ _),
          (
            (tests _ _ refl, λ e. objects-Returns w.arrange c.reader text _ _),
            (
              (tests _ _ refl, λ e. objects-Returns w.arrange c.reader text _ _),
              (
                (tests _ _ refl, λ e. schemas-Returns w.arrange c.reader text _ _),
                (
                  (tests _ _ refl, λ e. objects-Returns w.arrange c.reader text _ _),
                  (
                    (tests _ _ refl, λ e. objects-Returns w.arrange c.reader text _ _),
                    (
                      (tests _ _ refl, λ e. objects-Returns w.arrange c.reader text _ _),
                      (
                        (tests _ _ refl, λ e. objects-Returns w.arrange c.reader text _ _),
                        (
                          (tests _ _ refl, λ e. complete_from_list-Returns text _),
                          (
                            (
                              or_else-Tested (tests _ _ refl) (tests _ _ refl),
                              λ e. catalogs-Returns w.arrange c.reader text _ _,
                            ),
                            tt,
                          ),
                        ),
                      ),
                    ),
                  ),
                ),
              ),
            ),
          ),
        ),
      ),
    ),
  )

  pset_rungs-AreSafe : AreSafe (pset_rungs w c (word ∷ words) text)
  unfolding pset_rungs
  pset_rungs-AreSafe = (
    (tests _ _ refl, λ e. complete_from_list-Returns text _),
    (
      (tests _ _ refl, λ e. complete_from_list-Returns text _),
      (
        (tests _ _ refl, λ e. complete_from_list-Returns text _),
        (
          (tests _ _ refl, λ e. complete_from_list-Returns text _),
          (
            (tests _ _ refl, λ e. complete_from_list-Returns text _),
            (
              (tests _ _ refl, λ e. complete_from_list-Returns text _),
              (
                (tests _ _ refl, λ e. complete_from_list-Returns text _),
                (
                  (or_else-Tested (tests _ _ refl) (tests _ _ refl), λ e. returns_nil),
                  ((tests _ _ refl, λ e. complete_from_list-Returns text _), tt),
                ),
              ),
            ),
          ),
        ),
      ),
    ),
  )

  -- Every condition of `complete`, in its order.
  pub all_rungs-AreSafe : AreSafe (
      delete_create_rungs w c (word ∷ words) text
      ++ insert_rungs w c (word ∷ words) text
      ++ update_from_rungs w c (word ∷ words) text
      ++ backslash_rungs w c (word ∷ words) text
      ++ pset_rungs w c (word ∷ words) text)
  all_rungs-AreSafe =
      AreSafe-append _ _
        (AreSafe-append _ _
          (AreSafe-append _ _ (AreSafe-append _ _ delete_create_rungs-AreSafe insert_rungs-AreSafe)
            update_from_rungs-AreSafe)
          backslash_rungs-AreSafe)
        pset_rungs-AreSafe
