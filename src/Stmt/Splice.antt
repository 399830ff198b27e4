-- ===== src/Stmt/Splice.antt =====
-- stmt/parse.go: `substitute`, `substituteVar` and `appendUpperRunes`.
--
-- A slice is given by its runes `r` and by the stale rest `spare` of its array behind them, so that
-- `cap(r)` is the length of both.
pub mod Refines
use usql.Base.{
  ℕ, zero, suc, ◌+◌, ◌-◌, Bool, List, [], ◌∷◌, ◌++◌, map, ltb, if◌then◌else◌, Runes, length, take,
  drop, copy,
}
use usql.Stmt.Rune.{Unicode, to_upper}
use usql.Stmt.Variable.{Var}

-- `make([]rune, n)`.
unfoldable pub zeros : ℕ → Runes
zeros zero = []
zeros (suc n) = 0 ∷ zeros n

-- `copy(r[i:], s)`, by the value of `s` before the call.
unfoldable pub copy_at : Runes → ℕ → Runes → Runes
copy_at r i s = take i r ++ copy (drop i r) s

-- The slice that is written to: a new one of length `tlen`, or `r[:cap(r)]`.
unfoldable pub grow : Runes → Runes → ℕ → Runes
unfolding zeros
grow r spare tlen = if ltb (length r + length spare) tlen then copy (zeros tlen) r else r ++ spare

unfoldable pub substitute : Runes → Runes → ℕ → ℕ → Runes → Runes × ℕ
unfolding grow copy_at
substitute r spare i n s =
    let sn = length s in
    let tlen = length r + sn - n in
    let z = grow r spare tlen in
    let shifted = copy_at z (i + sn) (drop (i + n) z) in (take tlen (copy_at shifted i s), tlen)

-- The array that `substituteVar` leaves behind, for a variable from `i` up to `end`.
abbrev pub replace_array : Runes → Runes → ℕ → ℕ → Runes → Runes
replace_array r spare i end s =
    let n = length s in
    let z = grow r spare (length r + n - (end - i)) in copy_at (copy_at z (i + n) (drop end z)) i s

-- The slice and the length that `substituteVar` returns.
pub replace_part : Runes → Runes → ℕ → ℕ → Runes → Runes × ℕ
unfolding grow copy_at
replace_part r spare i end s =
    let tlen = length r + length s - (end - i) in (take tlen (replace_array r spare i end s), tlen)

-- The variable that `substituteVar` writes to comes first in the result.
unfoldable pub substitute_var : Runes → Runes → Var → Runes → Var × Runes × ℕ
unfolding replace_part
substitute_var r spare v s =
    let (z, tlen) = replace_part r spare v.i v.end s in (record v { len = length s }, z, tlen)

unfoldable pub append_upper_runes : ⦃u : Unicode⦄ → Runes → Runes → Runes → Runes
append_upper_runes s r extra = s ++ (map to_upper r ++ extra)
