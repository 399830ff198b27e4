-- ===== src/Stmt/Params.antt =====
-- stmt/params.go: the parameters of a backslash command.
use usql.Base.{
  ℕ, zero, suc, ◌+◌, ◌-◌, Bool, true, false, not, ◌&&◌, ◌||◌, Option, none, some, List, [], ◌∷◌,
  ◌++◌, ltb, leb, ◌==◌, if◌then◌else◌, Runes, length, drop, utf8_len,
}
use usql.Failure.{Error, unterminated_quoted_string}
use usql.Stmt.Next.{Unquoted}
use usql.Stmt.Quote.{read_string}
use usql.Stmt.Rune.{Unicode, is_space}
use usql.Stmt.Scan.{rune_at, slice, grab, find_non_space}
use usql.Stmt.Splice.{substitute}
use usql.Stmt.Variable.{Var, var_string, read_var}

pub record Params : Type 0 where
  pub r : Runes
  pub len : ℕ

unfoldable pub decode_params : Runes → Params
decode_params params = record { r = params; len = length params }

-- The text and what is left.
unfoldable pub get_raw : Params → Params × Runes
get_raw p = (record { r = []; len = 0 }, p.r)

-- A round of the loop of `Get`: it fails, breaks at a position, or goes on with a quote.
pub data GetRound : Type 0 where
  fail : Params → Error → GetRound
  break : Params → ℕ → ℕ → GetRound
  move : Params → ℕ → ℕ → GetRound

-- `p.R, p.Len = …`
abbrev sliced : Runes × ℕ → Params
sliced (r, len) = record { r = r; len = len }

-- The quoted text from `start` up to its closing quote at `i`, handed to `f`.
after_string : Params → ℕ → ℕ → Unquoted → Option Error → GetRound
after_string p start i z (some e) = fail p e
after_string p start i z none =
    if z.ok
    then move (sliced (substitute p.r [] start ((i + 1) - start) z.text)) (start + utf8_len z.text)
        0
    else move p (i + 1) 0

in_quote : (Runes → Bool → Unquoted) → Params → ℕ → ℕ → GetRound
unfolding after_string
in_quote f p i quote =
    let start = i - 1 in
    let (pos, closed) = read_string p.r i p.len quote [] in
    let z = f (slice p.r start (pos + 1)) false in
    if not closed then break p pos quote else after_string p start pos z z.err

-- The variable `v` with the spelling `n`, replaced by what `f` gives.
after_variable : Params → ℕ → Var → Runes → Unquoted → Option Error → GetRound
after_variable p i v n z (some e) = fail p e
after_variable p i v n z none =
    if z.ok
    then move (sliced (substitute p.r [] v.i (utf8_len n) z.text)) (v.i + utf8_len z.text) 0
    else move p (i + utf8_len n) 0

at_variable : (Runes → Bool → Unquoted) → Params → ℕ → Option Var → GetRound
unfolding after_variable
at_variable f p i none = move p (i + 1) 0
at_variable f p i (some v) =
    let n = var_string v in let z = f (drop 1 n) true in after_variable p i v n z z.err

-- What `Get` leaves and returns.
pub record Got : Type 0 where
  pub params : Params
  pub ok : Bool
  pub value : Runes
  pub err : Option Error

abbrev failed : Params → Error → Got
failed p e = record { params = p; ok = false; value = []; err = some e }

-- How a call ends. A slice behind `len(p.R)` is out of range: it panics behind the capacity too, and
-- reads stale runes below it.
pub data Run {ℓ} (A : Type ℓ) : Type ℓ where
  done : A → Run A
  out_of_range : Run A
  out_of_fuel : Run A

-- What `GetAll` leaves and returns.
pub record GotAll : Type 0 where
  pub params : Params
  pub values : List Runes
  pub err : Option Error

module _ ⦃u : Unicode⦄ where
  pub get_round : (Runes → Bool → Unquoted) → Params → ℕ → ℕ → GetRound
  unfolding in_quote at_variable
  get_round f p i quote =
      let c = rune_at p.r i in
      let next = grab p.r (i + 1) p.len in
      if not (quote == 0)
      then in_quote f p i quote
      else if c == b'\'' || c == b'"' || c == b'`'
      then move p (i + 1) c
      else if c == b':' && not (next == b':')
      then at_variable f p i (read_var p.r i p.len)
      else if is_space c
      then break p i 0
      else move p (i + 1) 0

  -- What follows the loop, which began at `start` and ended at `i`.
  pub take_param : ℕ → Params → ℕ → ℕ → Run Got
  take_param start p i quote =
      let rest = drop i p.r in
      if not (quote == 0)
      then done (failed p unterminated_quoted_string)
      else if ltb (length p.r) i
      then out_of_range
      else done (record {
        params = record { r = rest; len = length rest };
        ok = true;
        value = slice p.r start i;
        err = none;
      })

  pub get_loop : (Runes → Bool → Unquoted) → ℕ → ℕ → Params → ℕ → ℕ → Run Got
  get_loop f start zero p i quote = out_of_fuel
  get_loop f start (suc fuel) p i quote = elim (ltb i p.len) [
    | false ↦ take_param start p i quote
    | true ↦ elim (get_round f p i quote) [
      | fail p' e ↦ done (failed p' e)
      | break p' j q ↦ take_param start p' j q
      | move p' j q ↦ get_loop f start fuel p' j q
    ]
  ]

  unfoldable pub get : (Runes → Bool → Unquoted) → ℕ → Params → Run Got
  unfolding get_round take_param get_loop
  get f fuel p =
      let i = (find_non_space p.r 0 p.len).0 in
      if leb p.len i
      then done (record { params = p; ok = false; value = []; err = none })
      else get_loop f i fuel p i 0

  -- The rest of `GetAll` behind one call of `Get`.
  got_one : (Params → List Runes → Run GotAll) → List Runes → Option Error → Got → Run GotAll
  got_one more s (some e) g = done (record { params = g.params; values = s; err = some e })
  got_one more s none g = elim g.ok [
    | true ↦ more g.params (s ++ g.value ∷ [])
    | false ↦ done (record { params = g.params; values = s; err = none })
  ]

  -- `calls` bounds the calls of `Get`, and `fuel` the rounds of each.
  pub get_all_loop : (Runes → Bool → Unquoted) → ℕ → ℕ → Params → List Runes → Run GotAll
  unfolding got_one
  get_all_loop f fuel zero p s = out_of_fuel
  get_all_loop f fuel (suc calls) p s = elim (get f fuel p) [
    | done g ↦ got_one (get_all_loop f fuel calls) s g.err g
    | out_of_range ↦ out_of_range
    | out_of_fuel ↦ out_of_fuel
  ]

  unfoldable pub get_all : (Runes → Bool → Unquoted) → ℕ → Params → Run GotAll
  unfolding get get_all_loop
  get_all f fuel p = get_all_loop f fuel (suc p.len) p []
