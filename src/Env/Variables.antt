-- ===== src/Env/Variables.antt =====
-- env/types.go: the variables `vars` with ValidIdentifier, Set, Unset and Get.
pub mod Switches
use usql.Base.{
  no_entries, ℕ, Bool, true, false, ◌&&◌, ◌||◌, Option, none, some, List, [], ◌∷◌, ◌==◌,
  if◌then◌else◌, Runes, codes, same, among, Table, put, delete, value_of,
}
use usql.Env.Parse.{on, parse_bool}
use usql.Failure.{Error, invalid_identifier, invalid_field_value}
use usql.Stmt.Rune.{Unicode, is_letter, is_number}

-- The variables behind a call, and its error.
pub record Assigned : Type 0 where
  pub vars : Table
  pub err : Option Error

-- The variables whose value is `on` or `off`.
abbrev pub switches : List Runes
switches = codes "ON_ERROR_STOP" ∷ codes "QUIET" ∷ []

-- `v.Set` of a name with its value, or the error of a value that is not valid.
pub set_value : Table → Runes → Option Runes → Assigned
set_value vars name none = record { vars = vars; err = some invalid_field_value }
set_value vars name (some value) = record { vars = put name value vars; err = none }

module _ ⦃u : Unicode⦄ where
  identifier_runes : Runes → Bool
  identifier_runes [] = true
  identifier_runes (c ∷ s) = (c == b'_' || is_letter c || is_number c) && identifier_runes s

  -- Whether there is no error.
  unfoldable pub valid_identifier : Runes → Bool
  unfolding identifier_runes
  valid_identifier [] = false
  valid_identifier (c ∷ s) = identifier_runes (c ∷ s)

  unfoldable pub set : (ℕ → ℕ) → Table → Runes → Runes → Assigned
  unfolding set_value
  set to_lower vars name value =
      if valid_identifier name
      then (if among name switches
          then set_value vars name (if same value [] then some on else parse_bool to_lower value)
          else set_value vars name (some value))
      else record { vars = vars; err = some invalid_identifier }

  unfoldable pub unset : Table → Runes → Assigned
  unset vars name =
      if valid_identifier name
      then record { vars = delete name vars; err = none }
      else record { vars = vars; err = some invalid_identifier }

unfoldable pub get : Table → Runes → Runes
get vars name = value_of vars name

-- What `init` takes from the environment: whether host information is shown, the pager, the editor, whether and how
-- syntax is highlighted, and the mode of SSL.
pub record Environment : Type 0 where
  pub host_information : Runes
  pub pager : Runes
  pub editor : Runes
  pub syntax_hl : Runes
  pub syntax_format : Runes
  pub ssl_mode : Runes

abbrev pub initial_vars : Environment → Table
initial_vars e = put (codes "SHOW_HOST_INFORMATION") e.host_information (
    put (codes "PAGER") e.pager (
      put (codes "EDITOR") e.editor (
        put (codes "ON_ERROR_STOP") (codes "off") (
          put (codes "PROMPT1") (codes "%S%N%m%/%R%# ") (
            put (codes "SYNTAX_HL") e.syntax_hl (
              put (codes "SYNTAX_HL_FORMAT") e.syntax_format (
                put (codes "SYNTAX_HL_STYLE") (codes "monokai") (
                  put (codes "SYNTAX_HL_OVERRIDE_BG") (codes "true") (
                    put (codes "SSLMODE") e.ssl_mode
                      (put (codes "TERM_GRAPHICS") (codes "none") no_entries))))))))))
