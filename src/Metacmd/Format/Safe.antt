-- ===== src/Metacmd/Format/Safe.antt =====
-- The commands that set print settings, on the settings that Pset and Ptoggle reach.
use usql.Base.{
  ℕ, ◌≡◌, refl, Bool, true, false, ◌||◌, [], ◌∷◌, Runes, codes, same, among, Table, if_rule, List,
  map, same→≡, Bool-cases, inl, inr,
}
use usql.Env.Parse.{formats}
use usql.Env.Settings.{Changed}
use usql.Env.Settings.Reached.{Reached, Reached-IsFine}
use usql.Env.Settings.Sound.{IsFine}
use usql.Failure.{Error}
use usql.Metacmd.Args.{Arg, value, Args, Taken, get_ok}
use usql.Metacmd.Format.{
  Formatted, lists, fails, does, field_of, change, pset_field, format_with, format_process,
}

-- The setting that a command sets: \pset the one that its first parameter names, and the others one of their own.
pub data Sets (name : Runes) (args : Args) : Runes → Type 0 where
  by_pset :
      (field : Runes) (rest : Args)
      → name ≡ codes "pset"
      → args ≡ value field ∷ rest
      → Sets name args field
  by_a : name ≡ codes "a" → Sets name args (codes "format")
  by_title : name ≡ codes "C" → Sets name args (codes "title")
  by_fieldsep : name ≡ codes "f" → Sets name args (codes "fieldsep")
  by_html : name ≡ codes "H" → Sets name args (codes "format")
  by_tuples : name ≡ codes "t" → Sets name args (codes "tuples_only")
  by_tableattr : name ≡ codes "T" → Sets name args (codes "tableattr")
  by_expanded : name ≡ codes "x" → Sets name args (codes "expanded")

-- A process that ends well: \pset without a parameter lists, or a parameter fails, or what is done to the
-- setting of the command is fine.
pub data EndsWell (t : Table) (name : Runes) (args : Args) : Formatted → Type 0 where
  has_listed : name ≡ codes "pset" → args ≡ [] → EndsWell t name args lists
  has_failed : (e : Error) → EndsWell t name args (fails e)
  has_done :
      {c : Changed} (field : Runes)
      → Sets name args field
      → IsFine t field c
      → EndsWell t name args (does field c)

-- The names of the commands.
abbrev pub format_names : List Runes
format_names = map codes ("pset" ∷ "a" ∷ "C" ∷ "f" ∷ "H" ∷ "t" ∷ "T" ∷ "x" ∷ [])

-- A format to toggle with that is not there, or known.
Known : Runes × Runes → Type 0
Known p = among p.1 ([] ∷ formats) ≡ true

field_of-Known : (name : Runes) → Known (field_of name)
unfolding field_of Known
field_of-Known name =
    if_rule Known (same name (codes "a")) (λ h. refl)
      (λ e.
        if_rule Known (same name (codes "C")) (λ h. refl)
          (λ e.
            if_rule Known (same name (codes "f")) (λ h. refl)
              (λ e.
                if_rule Known (same name (codes "H")) (λ h. refl)
                  (λ e.
                    if_rule Known (same name (codes "t")) (λ h. refl)
                      (λ e.
                        if_rule Known (same name (codes "T")) (λ h. refl)
                          (λ e. if_rule Known (same name (codes "x")) (λ h. refl) (λ e. refl)))))))

module _ (name : Runes) (args : Args) where
  field_of-Sets :
      among name format_names ≡ true
      → same name (codes "pset") ≡ false
      → Sets name args (field_of name).0
  unfolding field_of
  field_of-Sets known no_pset =
      let P = λ (p : Runes × Runes). Sets name args p.0 in
      if_rule P (same name (codes "a")) (λ h. by_a (same→≡ name _ h))
        (λ no_a.
          if_rule P (same name (codes "C")) (λ h. by_title (same→≡ name _ h))
            (λ no_c.
              if_rule P (same name (codes "f")) (λ h. by_fieldsep (same→≡ name _ h))
                (λ no_f.
                  if_rule P (same name (codes "H")) (λ h. by_html (same→≡ name _ h))
                    (λ no_h.
                      if_rule P (same name (codes "t")) (λ h. by_tuples (same→≡ name _ h))
                        (λ no_t.
                          if_rule P (same name (codes "T")) (λ h. by_tableattr (same→≡ name _ h))
                            (λ no_tt.
                              if_rule P (same name (codes "x")) (λ h. by_expanded (same→≡ name _ h))
                                (λ no_x. absurd (
                                  false_is_not_true (
                                    rw (no_pset, no_a, no_c, no_f, no_h, no_t, no_tt, no_x) at
                                      known)))))))))
    where
      false_is_not_true : ◌≡◌ {A = Bool} false true → ⊥
      false_is_not_true e = cc

module _ (to_lower : ℕ → ℕ) (t : Table) (reached : Reached to_lower t) (name : Runes)
    (args : Args) where
  change-EndsWell :
      (target : Runes × Runes) (given : Bool × Runes)
      → Known target
      → Sets name args target.0
      → EndsWell t name args (change to_lower t target given)
  unfolding change Known
  change-EndsWell (field, extra) (true, val) known sets =
      has_done field sets (Reached-IsFine to_lower t field val extra reached known).0
  change-EndsWell (field, extra) (false, val) known sets =
      has_done field sets (Reached-IsFine to_lower t field val extra reached known).1

  pset_field-EndsWell :
      (field : Runes) (given : Taken (Bool × Runes))
      → Sets name args field
      → EndsWell t name args (pset_field to_lower t field given)
  unfolding pset_field
  pset_field-EndsWell field (Taken.untaken e) sets = has_failed e
  pset_field-EndsWell field (Taken.taken given rest) sets =
      change-EndsWell (field, []) given (unfold Known in refl) sets

  format_with-EndsWell :
      (taken_args : Args)
      → args ≡ taken_args
      → among name format_names ≡ true
      → EndsWell t name args (format_with to_lower t name (get_ok taken_args))
  unfolding format_with get_ok
  format_with-EndsWell (Arg.bad e ∷ rest) is known = has_failed e
  format_with-EndsWell [] is known =
      if_rule (EndsWell t name args) (same name (codes "pset"))
        (λ e. has_listed (same→≡ name _ e) is)
        (λ e.
          change-EndsWell (field_of name) (false, []) (field_of-Known name)
            (field_of-Sets name args known e))
  format_with-EndsWell (Arg.value v ∷ rest) is known =
      if_rule (EndsWell t name args) (same name (codes "pset"))
        (λ e. pset_field-EndsWell v (get_ok rest) (by_pset v rest (same→≡ name _ e) is))
        (λ e.
          change-EndsWell (field_of name) (true, v) (field_of-Known name)
            (field_of-Sets name args known e))

  -- On settings that Pset and Ptoggle reached from the initial ones, \pset, \a, \C, \f, \H, \t, \T and \x
  -- with any parameters never panic: \pset without a parameter lists the settings, a parameter fails, or at
  -- most the one setting of the command is changed, to a value of its kind, or all are left as they were with
  -- an error. The setting of \pset is the one that its first parameter names, and that of another command is
  -- its own: format, title, fieldsep, format, tuples_only, tableattr or expanded.
  pub format_process-EndsWell :
      among name format_names ≡ true → EndsWell t name args (format_process to_lower t name args)
  unfolding format_process
  format_process-EndsWell known =
      if_rule (EndsWell t name args) (same name (codes "a") || same name (codes "H"))
        (λ e.
          change-EndsWell (field_of name) (false, []) (field_of-Known name)
            (field_of-Sets name args known (no_pset name e)))
        (λ e. format_with-EndsWell args refl known)
    where
      no_pset :
          (name : Runes)
          → (same name (codes "a") || same name (codes "H")) ≡ true
          → same name (codes "pset") ≡ false
      no_pset name h = elim (Bool-cases (same name (codes "a"))) [
        | inl a ↦ rw (same→≡ name _ a) refl
        | inr no_a ↦ rw (same→≡ name (codes "H") (rw no_a at h)) refl
      ]
