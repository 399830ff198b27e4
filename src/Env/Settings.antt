-- ===== src/Env/Settings.antt =====
-- env/types.go: the print settings `pvars` with Pget, Pset and Ptoggle.
pub mod Sound
pub mod Reached
use usql.Base.{
  ◌≡◌, Bool, true, false, ◌&&◌, not, Option, none, some, List, [], ◌∷◌, if◌then◌else◌, map, ℕ,
  Runes, codes, same, among, Table, put, no_entries, value_of,
}
use Prim.Native.String.{String}
use usql.Env.Parse.{
  matching, on, off, parse_bool, parse_keyword_bool, formats, line_styles, border_styles, atoi,
  format_int,
}
use usql.Failure.{
  Error, unknown_format_field, invalid_field_value, invalid_format_pager_type,
  invalid_format_expanded_type, invalid_format_type, invalid_format_line_style,
  invalid_format_border_line_style,
}

-- The cases of the switches of Pset and Ptoggle; the last is their panic.
pub data Kind : Type 0 where
  number pager expanded switch format line_style text cleared border unknown : Kind

abbrev names : List String → List Runes
names ss = map codes ss

unfoldable pub kind : Runes → Kind
kind name =
    if among name (names ("border" ∷ "columns" ∷ "pager_min_lines" ∷ []))
    then Kind.number
    else if same name (codes "pager")
    then Kind.pager
    else if same name (codes "expanded")
    then Kind.expanded
    else if among name (
        names
          ("fieldsep_zero" ∷ "footer" ∷ "numericlocale" ∷ "recordsep_zero" ∷ "tuples_only" ∷ []))
    then Kind.switch
    else if same name (codes "format")
    then Kind.format
    else if same name (codes "linestyle")
    then Kind.line_style
    else if among name
        (names ("csv_fieldsep" ∷ "fieldsep" ∷ "null" ∷ "recordsep" ∷ "time" ∷ "locale" ∷ []))
    then Kind.text
    else if among name (names ("tableattr" ∷ "title" ∷ []))
    then Kind.cleared
    else if among name (
        names (
          "unicode_border_linestyle" ∷ "unicode_column_linestyle" ∷ "unicode_header_linestyle"
          ∷ []))
    then Kind.border
    else Kind.unknown

-- How a call ends, with the settings behind it.
pub data Changed : Type 0 where
  returned : Table → Runes → Changed
  failed : Table → Error → Changed
  panicked : Changed

unfoldable pub pget : Table → Runes → Changed
pget t name = elim (t name) [
  | none ↦ Changed.failed t unknown_format_field
  | some v ↦ Changed.returned t v
]

-- The value set, or the error of a value that is not valid.
pub stored : Error → Table → Runes → Option Runes → Changed
stored e t name none = Changed.failed t e
stored e t name (some v) = Changed.returned (put name v t) v

module _ (to_lower : ℕ → ℕ) where
  pub pset_kind : Kind → Table → Runes → Runes → Changed
  unfolding stored
  pset_kind Kind.number t name value =
      let v = format_int (atoi value) in Changed.returned (put name v t) v
  pset_kind Kind.pager t name value =
      stored invalid_format_pager_type t name
        (parse_keyword_bool to_lower value (codes "always" ∷ []))
  pset_kind Kind.expanded t name value =
      stored invalid_format_expanded_type t name
        (parse_keyword_bool to_lower value (codes "auto" ∷ []))
  pset_kind Kind.switch t name value = stored invalid_field_value t name (parse_bool to_lower value)
  pset_kind Kind.format t name value = stored invalid_format_type t name (matching formats value)
  pset_kind Kind.line_style t name value =
      stored invalid_format_line_style t name (matching line_styles value)
  pset_kind Kind.text t name value = Changed.returned (put name value t) value
  pset_kind Kind.cleared t name value = Changed.returned (put name value t) value
  pset_kind Kind.border t name value =
      stored invalid_format_border_line_style t name (matching border_styles value)
  pset_kind Kind.unknown t name value = Changed.panicked

  unfoldable pub pset : Table → Runes → Runes → Changed
  unfolding pset_kind kind
  pset t name value = elim (t name) [
    | none ↦ Changed.failed t unknown_format_field
    | some old ↦ pset_kind (kind name) t name value
  ]

-- A setting with the value `v`, toggled between `off` and `on`; `also` are other values to turn off.
pub toggled : List Runes → Table → Runes → Runes → Changed
toggled also t name v =
    if among v (on ∷ also)
    then Changed.returned (put name off t) off
    else if same v off
    then Changed.returned (put name on t) on
    else Changed.panicked

-- The format behind a toggle; `extra` is the one to toggle with, if not empty.
pub toggled_format : Runes → Runes → Runes
toggled_format extra v =
    if not (same extra []) && not (same v extra)
    then extra
    else if same v (codes "aligned")
    then codes "unaligned"
    else codes "aligned"

pub ptoggle_kind : Kind → Table → Runes → Runes → Runes → Changed
unfolding toggled toggled_format
ptoggle_kind Kind.number t name extra v = Changed.returned t v
ptoggle_kind Kind.pager t name extra v = toggled (codes "always" ∷ []) t name v
ptoggle_kind Kind.expanded t name extra v = toggled (codes "auto" ∷ []) t name v
ptoggle_kind Kind.switch t name extra v = toggled [] t name v
ptoggle_kind Kind.format t name extra v =
    let f = toggled_format extra v in Changed.returned (put name f t) f
ptoggle_kind Kind.line_style t name extra v = Changed.returned t v
ptoggle_kind Kind.text t name extra v = Changed.returned t v
ptoggle_kind Kind.cleared t name extra v = Changed.returned (put name [] t) []
ptoggle_kind Kind.border t name extra v = Changed.returned t v
ptoggle_kind Kind.unknown t name extra v = Changed.panicked

unfoldable pub ptoggle : Table → Runes → Runes → Changed
unfolding ptoggle_kind kind
ptoggle t name extra = elim (t name) [
  | none ↦ Changed.failed t unknown_format_field
  | some v ↦ ptoggle_kind (kind name) t name extra v
]

-- A key and a value of `pvars`.
pub record Setting : Type 0 where
  pub name : Runes
  pub value : Runes

abbrev setting : String → String → Setting
setting name value = record { name = codes name; value = codes value }

abbrev pub put_all : List Setting → Table
put_all [] = no_entries
put_all (s ∷ ss) = put s.name s.value (put_all ss)

-- What `init` puts there; the locale and whether there is a pager come from the environment.
abbrev pub initial_settings : Runes → Bool → List Setting
initial_settings locale has_pager =
    setting "border" "1"
    ∷ setting "columns" "0"
    ∷ setting "csv_fieldsep" ","
    ∷ setting "expanded" "off"
    ∷ setting "fieldsep" "|"
    ∷ setting "fieldsep_zero" "off"
    ∷ setting "footer" "on"
    ∷ setting "format" "aligned"
    ∷ setting "linestyle" "ascii"
    ∷ record { name = codes "locale"; value = locale }
    ∷ setting "null" ""
    ∷ setting "numericlocale" "off"
    ∷ setting "pager_min_lines" "0"
    ∷ record { name = codes "pager"; value = if has_pager then on else off }
    ∷ setting "recordsep" "\n"
    ∷ setting "recordsep_zero" "off"
    ∷ setting "tableattr" ""
    ∷ setting "time" "RFC3339Nano"
    ∷ setting "title" ""
    ∷ setting "tuples_only" "off"
    ∷ setting "unicode_border_linestyle" "single"
    ∷ setting "unicode_column_linestyle" "single"
    ∷ setting "unicode_header_linestyle" "single"
    ∷ []

abbrev pub initial_pvars : Runes → Bool → Table
initial_pvars locale has_pager = put_all (initial_settings locale has_pager)

-- `timeConstMap`, with the values of the package `time`.
abbrev time_const_map : Table
time_const_map = put_all (
    setting "ANSIC" "Mon Jan _2 15:04:05 2006"
    ∷ setting "UnixDate" "Mon Jan _2 15:04:05 MST 2006"
    ∷ setting "RubyDate" "Mon Jan 02 15:04:05 -0700 2006"
    ∷ setting "RFC822" "02 Jan 06 15:04 MST"
    ∷ setting "RFC822Z" "02 Jan 06 15:04 -0700"
    ∷ setting "RFC850" "Monday, 02-Jan-06 15:04:05 MST"
    ∷ setting "RFC1123" "Mon, 02 Jan 2006 15:04:05 MST"
    ∷ setting "RFC1123Z" "Mon, 02 Jan 2006 15:04:05 -0700"
    ∷ setting "RFC3339" "2006-01-02T15:04:05Z07:00"
    ∷ setting "RFC3339Nano" "2006-01-02T15:04:05.999999999Z07:00"
    ∷ setting "Kitchen" "3:04PM"
    ∷ setting "Stamp" "Jan _2 15:04:05"
    ∷ setting "StampMilli" "Jan _2 15:04:05.000"
    ∷ setting "StampMicro" "Jan _2 15:04:05.000000"
    ∷ setting "StampNano" "Jan _2 15:04:05.000000000"
    ∷ [])

unfoldable pub go_time : Table → Runes
go_time t =
    let format = value_of t (codes "time") in
    elim (time_const_map format) [ none ↦ format | some s ↦ s ]
