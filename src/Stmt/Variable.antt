-- ===== src/Stmt/Variable.antt =====
-- stmt/stmt.go: `Var`. stmt/parse.go: `readStringVar` and `readVar`.
pub mod Bounds
pub mod RoundTrip
use usql.Base.{
  ℕ, zero, suc, ◌+◌, ◌-◌, Bool, true, false, not, ◌&&◌, ◌||◌, Option, none, some, List, [], ◌∷◌,
  ◌++◌, ltb, ◌==◌, if◌then◌else◌, Runes,
}
use usql.Stmt.Rune.{Unicode, is_letter, is_number}
use usql.Stmt.Scan.{slice, grab}

pub record Var : Type 0 where
  pub i : ℕ
  pub end : ℕ
  pub quote : ℕ
  pub name : Runes
  pub len : ℕ
  pub defined : Bool

-- `Var.String`.
unfoldable pub var_string : Var → Runes
var_string v =
    if v.quote == b'\\'
    then b'\\' ∷ v.name
    else let q = if v.quote == 0 then [] else v.quote ∷ [] in b':' ∷ (q ++ (v.name ++ q))

-- The loop of `readStringVar`; `start` is where the variable begins and `q` is its quote.
string_var_loop : Runes → ℕ → ℕ → ℕ → ℕ → ℕ → Option Var
string_var_loop r end start q zero i = none
string_var_loop r end start q (suc n) i =
    if grab r i end == q
    then if ltb (i - start) 3
      then none
      else some (record {
        i = start;
        end = i + 1;
        quote = q;
        name = slice r (start + 2) i;
        len = 0;
        defined = false;
      })
    else string_var_loop r end start q n (i + 1)

pub read_string_var : Runes → ℕ → ℕ → Option Var
unfolding string_var_loop
read_string_var r i end = string_var_loop r end i (grab r (i + 1) end) (end - (i + 2)) (i + 2)

-- The variable `:name` from `i` up to `stop`.
abbrev pub plain_var : Runes → ℕ → ℕ → Var
plain_var r i stop = record {
  i = i;
  end = stop;
  quote = 0;
  name = slice r (i + 1) stop;
  len = 0;
  defined = false;
}

module _ ⦃u : Unicode⦄ where
  unfoldable pub name_rune : ℕ → Bool
  name_rune c = c == b'_' || is_letter c || is_number c

  -- The loop of `readVar`: the first position at which no name goes on.
  pub name_loop : Runes → ℕ → ℕ → ℕ → ℕ
  name_loop r end zero i = i
  name_loop r end (suc n) i =
      if not (name_rune (grab r i end)) then i else name_loop r end n (i + 1)

  unfoldable pub read_var : Runes → ℕ → ℕ → Option Var
  unfolding read_string_var name_loop
  read_var r i end =
      let second = grab r (i + 1) end in
      let stop = name_loop r end (end - (i + 1)) (i + 1) in
      if not (grab r i end == b':') || second == b':'
      then none
      else if ltb (end - i) 2
      then none
      else if second == b'"' || second == b'\''
      then read_string_var r i end
      else if ltb (stop - i) 2
      then none
      else some (plain_var r i stop)
