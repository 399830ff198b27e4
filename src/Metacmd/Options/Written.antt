-- ===== src/Metacmd/Options/Written.antt =====
-- Options written in parentheses are parsed to themselves.
use mathlib.Core.Path.{ap₂}
use usql.Base.{
  ℕ, ◌≡◌, refl, ◌∙◌, ap, append_assoc, Bool, true, false, not, Option, none, some, List, [], ◌∷◌,
  ◌++◌, ◌==◌, Runes, Table, put,
}
use usql.Metacmd.Options.{
  Options, cut_equals, trim_open, unless_closing, trim_close, ends_closing, assign, option_loop,
  parse_params,
}

-- A text without an equals sign.
abbrev pub NoEquals : Runes → Type 0
NoEquals [] = Unit {0}
NoEquals (c ∷ s) = ((c == b'=') ≡ false) × NoEquals s

-- A text with no parenthesis in it.
abbrev pub NoParentheses : Runes → Type 0
NoParentheses [] = Unit {0}
NoParentheses (c ∷ s) = ((c == b'(') ≡ false) × ((c == b')') ≡ false) × NoParentheses s

-- A name and its value, which can be written as an option.
abbrev pub IsPlain : Runes × Runes → Type 0
IsPlain (k, v) = NoEquals k × NoParentheses k × NoParentheses v

abbrev pub ArePlain : List (Runes × Runes) → Type 0
ArePlain [] = Unit {0}
ArePlain (o ∷ os) = IsPlain o × ArePlain os

abbrev pub pair : Runes × Runes → Runes
pair (k, v) = k ++ b'=' ∷ v

-- The options `o` and `os`, the last one with the parenthesis that closes them.
abbrev pub closed : Runes × Runes → List (Runes × Runes) → List Runes
closed o [] = (pair o ++ b')' ∷ []) ∷ []
closed o (p ∷ os) = pair o ∷ closed p os

abbrev pub opened : List Runes → List Runes
opened [] = []
opened (s ∷ ss) = (b'(' ∷ s) ∷ ss

abbrev pub put_options : List (Runes × Runes) → Table → Table
put_options [] t = t
put_options (o ∷ os) t = put_options os (put o.0 o.1 t)

cut_equals-append : (k v : Runes) → NoEquals k → cut_equals (k ++ b'=' ∷ v) ≡ some (k, v)
unfolding cut_equals
cut_equals-append [] v h = refl
cut_equals-append (c ∷ k) v (other, h) = rw (other, cut_equals-append k v h) refl

trim_open_plain : (s : Runes) → NoParentheses s → trim_open s ≡ s
unfolding trim_open
trim_open_plain [] h = refl
trim_open_plain (c ∷ s) (before, behind, h) = rw before refl

unless_closing_plain : (c : ℕ) (s : Runes) → (c == b')') ≡ false → unless_closing c s ≡ c ∷ s
unfolding unless_closing
unless_closing_plain c [] h = rw h refl
unless_closing_plain c (d ∷ s) h = refl

trim_close_plain : (s : Runes) → NoParentheses s → trim_close s ≡ s
unfolding trim_close
trim_close_plain [] h = refl
trim_close_plain (c ∷ s) (before, behind, h) =
    ap (unless_closing c) (trim_close_plain s h) ∙ unless_closing_plain c s behind

trim_close-append : (s : Runes) → NoParentheses s → trim_close (s ++ b')' ∷ []) ≡ s
unfolding trim_close unless_closing
trim_close-append [] h = refl
trim_close-append (c ∷ s) (before, behind, h) =
    ap (unless_closing c) (trim_close-append s h) ∙ unless_closing_plain c s behind

ends_closing_plain : (s : Runes) → NoParentheses s → ends_closing s ≡ false
unfolding ends_closing
ends_closing_plain [] h = refl
ends_closing_plain (c ∷ []) (before, behind, h) = behind
ends_closing_plain (c ∷ d ∷ s) (before, behind, h) = ends_closing_plain (d ∷ s) h

ends_closing-append : (s : Runes) → ends_closing (s ++ b')' ∷ []) ≡ true
unfolding ends_closing
ends_closing-append [] = refl
ends_closing-append (c ∷ []) = refl
ends_closing-append (c ∷ d ∷ s) = ends_closing-append (d ∷ s)

NoParentheses-append : (s t : Runes) → NoParentheses s → NoParentheses t → NoParentheses (s ++ t)
NoParentheses-append [] t h k = k
NoParentheses-append (c ∷ s) t (before, behind, h) k =
    (before, behind, NoParentheses-append s t h k)

pair-NoParentheses : (o : Runes × Runes) → IsPlain o → NoParentheses (pair o)
pair-NoParentheses (k, v) (e, h, i) = NoParentheses-append k (b'=' ∷ v) h (refl, refl, i)

-- A parenthesis before a text is not its end.
ends_closing_opened : (s : Runes) → ends_closing (b'(' ∷ s) ≡ ends_closing s
unfolding ends_closing
ends_closing_opened [] = refl
ends_closing_opened (c ∷ s) = refl

none_is_not : {p : Runes × Runes} → ◌≡◌ {A = Option (Runes × Runes)} none (some p) → ⊥
none_is_not e = cc

module _ (key : Runes) (rest : List Runes) (t : Table) where
  -- A parameter inside the parentheses, and the one that opens them.
  inside_step :
      (param : Runes) (p : Runes × Runes)
      → cut_equals param ≡ some p
      → option_loop key true (param ∷ rest) t
        ≡ option_loop key (not (ends_closing param)) rest (assign p t)
  unfolding option_loop
  inside_step [] p e = absurd (none_is_not (unfold cut_equals in e))
  inside_step (c ∷ s) p e = rw e refl

  opening_step :
      (param : Runes) (p : Runes × Runes)
      → cut_equals (b'(' ∷ param) ≡ some p
      → option_loop key false ((b'(' ∷ param) ∷ rest) t
        ≡ option_loop key (not (ends_closing (b'(' ∷ param))) rest (assign p t)
  unfolding option_loop
  opening_step param p e = rw e refl

assign_plain : (o : Runes × Runes) → IsPlain o → (t : Table) → assign o t ≡ put o.0 o.1 t
unfolding assign
assign_plain (k, v) (e, h, i) t = rw (trim_open_plain k h, trim_close_plain v i) refl

assign_closed :
    (k v : Runes) → IsPlain (k, v) → (t : Table) → assign (k, v ++ b')' ∷ []) t ≡ put k v t
unfolding assign
assign_closed k v (e, h, i) t = rw (trim_open_plain k h, trim_close-append v i) refl

assign_opened : (k v : Runes) (t : Table) → assign (b'(' ∷ k, v) t ≡ assign (k, v) t
unfolding assign trim_open
assign_opened k v t = refl

closed-cut :
    (k v : Runes) → NoEquals k → cut_equals (pair (k, v) ++ b')' ∷ []) ≡ some (k, v ++ b')' ∷ [])
closed-cut k v e =
    ap cut_equals (append_assoc k (b'=' ∷ v) (b')' ∷ [])) ∙ cut_equals-append k (v ++ b')' ∷ []) e

-- The options behind the first one.
closed_lem :
    (key : Runes) (o : Runes × Runes) (os : List (Runes × Runes)) (rest : List Runes) (t : Table)
    → ArePlain (o ∷ os)
    → option_loop key true (closed o os ++ rest) t
      ≡ option_loop key false rest (put_options (o ∷ os) t)
closed_lem key (k, v) [] rest t (plain, h) =
    inside_step key rest t (pair (k, v) ++ b')' ∷ []) (k, v ++ b')' ∷ []) (closed-cut k v plain.0)
    ∙ rw (ends_closing-append (pair (k, v)), assign_closed k v plain t) refl
closed_lem key (k, v) (p ∷ os) rest t (plain, h) =
    inside_step key (closed p os ++ rest) t (pair (k, v)) (k, v) (cut_equals-append k v plain.0)
    ∙ rw
        (
          ends_closing_plain (pair (k, v)) (pair-NoParentheses (k, v) plain),
          assign_plain (k, v) plain t,
        )
        (closed_lem key p os rest (put k v t) h)

-- Options written as `(name=value ... name=value)` are parsed to themselves, in their order, and what is
-- behind them is parsed as if it stood alone. The names have no equals sign, and neither names nor values
-- have a parenthesis.
pub parse_params-written :
    (opt : Options) (key : Runes) (o : Runes × Runes) (os : List (Runes × Runes))
    (rest : List Runes)
    → ArePlain (o ∷ os)
    → parse_params opt (opened (closed o os) ++ rest) key
      ≡ parse_params (record opt { params = put_options (o ∷ os) opt.params }) rest key
unfolding parse_params
parse_params-written opt key (k, v) [] rest (plain, h) =
    opening_step key rest opt.params (pair (k, v) ++ b')' ∷ []) (b'(' ∷ k, v ++ b')' ∷ [])
      (closed-cut (b'(' ∷ k) v (refl, plain.0))
    ∙ ap₂ (λ (b : Bool) (u : Table). option_loop key (not b) rest u)
        (ends_closing-append (b'(' ∷ pair (k, v)))
        (assign_opened k (v ++ b')' ∷ []) opt.params ∙ assign_closed k v plain opt.params)
parse_params-written opt key (k, v) (p ∷ os) rest (plain, h) =
    opening_step key (closed p os ++ rest) opt.params (pair (k, v)) (b'(' ∷ k, v)
      (cut_equals-append (b'(' ∷ k) v (refl, plain.0))
    ∙ ap₂ (λ (b : Bool) (u : Table). option_loop key (not b) (closed p os ++ rest) u)
        (ends_closing_opened (pair (k, v))
          ∙ ends_closing_plain (pair (k, v)) (pair-NoParentheses (k, v) plain))
        (assign_opened k v opt.params ∙ assign_plain (k, v) plain opt.params)
    ∙ closed_lem key p os rest (put k v opt.params) h
