-- ===== src/Completer/Ladder/Safe.antt =====
-- No condition of `complete` panics, and no answer does whose condition holds.
use mathlib.Core.Option
use mathlib.Core.Bool.{true≢false}
use usql.Base.{
  ℕ, zero, suc, ◌≤◌, ◌<◌, ◌≡◌, refl, sym, Bool, true, false, not, inl, inr, Option, none, some,
  List, [], ◌∷◌, ◌++◌, ltb, ◌==◌, if◌then◌else◌, Runes, Bytes, codes, same, length, arith,
  Bool-cases, utf8, ltb→le, ==_iff, if_rule,
}
use usql.Completer.Casing.{Casing}
use usql.Completer.Pattern.{
  CaseType, word_matches, nth, test_word, and_then, match_loop, tail_matches, matches,
}
use usql.Completer.Options.{Completion, complete_from_list, complete_from_list_case}
use usql.Completer.Options.Offered.{complete_from_list_case_returns}
use usql.Completer.Ladder.{Rung, first_of, or_else}

-- Nil or a list.
pub data Returns : Completion → Type 0 where
  returns_nil : Returns Completion.no_list
  returns_list : (ms : List Runes) → Returns (Completion.list ms)

-- A condition that is true or false.
abbrev pub Tested : Option Bool → Type 0
Tested t = (b : Bool) × (t ≡ some b)

-- The condition is true or false, and where it is true the answer returns.
abbrev pub IsSafe : Rung → Type 0
IsSafe (t, c) = Tested t × (t ≡ some true → Returns c)

abbrev pub AreSafe : List Rung → Type 0
AreSafe [] = Unit {0}
AreSafe (r ∷ rs) = IsSafe r × AreSafe rs

pub AreSafe-append : (rs qs : List Rung) → AreSafe rs → AreSafe qs → AreSafe (rs ++ qs)
AreSafe-append [] qs h q = q
AreSafe-append (r ∷ rs) qs (safe, more) q = (safe, AreSafe-append rs qs more q)

pub first_of-Returns :
    (rs : List Rung) (last : Completion) → AreSafe rs → Returns last → Returns (first_of rs last)
unfolding first_of
first_of-Returns [] last h ok = ok
first_of-Returns ((some true, c) ∷ rs) last ((t, h), more) ok = h refl
first_of-Returns ((some false, c) ∷ rs) last ((t, h), more) ok = first_of-Returns rs last more ok
first_of-Returns ((none, c) ∷ rs) last (((b, e), h), more) ok = absurd (none_is_not_some e)
  where
    none_is_not_some : {d : Bool} → ◌≡◌ {A = Option Bool} none (some d) → ⊥
    none_is_not_some f = cc

-- Whether a pattern is more than exclamation marks.
abbrev pub has_text : Bytes → Bool
has_text [] = false
has_text (c ∷ p) = if c == b'!' then has_text p else true

abbrev pub have_text : List Bytes → Bool
have_text [] = true
have_text (p ∷ ps) = if has_text p then have_text ps else false

pub or_else-Tested : {a b : Option Bool} → Tested a → Tested b → Tested (or_else a b)
unfolding or_else
or_else-Tested (true, e) t = (true, rw e refl)
or_else-Tested (false, e) (b, h) = (b, rw (e, h) refl)

pub and_then-Tested : {a b : Option Bool} → Tested a → Tested b → Tested (and_then a b)
and_then-Tested (false, e) t = (false, rw e refl)
and_then-Tested (true, e) (b, h) = (b, rw (e, h) refl)

pub map-Tested : {a : Option Bool} (f : Bool → Bool) → Tested a → Tested (Option.map f a)
map-Tested f (b, e) = (f b, rw e refl)

pub nth-some : (ws : List Runes) (n : ℕ) → n < length ws → (w : Runes) × (nth ws n ≡ some w)
unfolding nth
nth-some [] n h = absurd (omega (arith, h))
nth-some (w ∷ ws) zero h = (w, refl)
nth-some (w ∷ ws) (suc n) h = nth-some ws n (omega (arith, h))

left_true : (a b : Bool) → (if a then b else false) ≡ true → a ≡ true
left_true true b h = refl
left_true false b h = absurd (true≢false (sym h))

right_true : (a b : Bool) → (if a then b else false) ≡ true → b ≡ true
right_true true b h = h
right_true false b h = absurd (true≢false (sym h))

false_is_not_true : ◌≡◌ {A = Option Bool} (some false) (some true) → ⊥
false_is_not_true e = cc

module _ ⦃k : Casing⦄ where
  pub complete_from_list_case-Returns :
      (ct : CaseType) (text : Runes) (os : List Runes)
      → Returns (complete_from_list_case ct text os)
  complete_from_list_case-Returns ct text [] = unfold complete_from_list_case in returns_nil
  complete_from_list_case-Returns ct text (o ∷ os) =
      let (ms, is) = complete_from_list_case_returns ct text o os in rw is (returns_list ms)

  pub complete_from_list-Returns :
      (text : Runes) (os : List Runes) → Returns (complete_from_list text os)
  unfolding complete_from_list
  complete_from_list-Returns text os = complete_from_list_case-Returns CaseType.ignore_case text os

  word_matches-Tested :
      (ct : CaseType) (p word : Bytes) → has_text p ≡ true → Tested (word_matches ct p word)
  unfolding word_matches
  word_matches-Tested ct [] word h = absurd (ground arith)
  word_matches-Tested ct (c ∷ p) word h =
      if_rule Tested (same (c ∷ p) (codes "*")) (λ e. (true, refl))
        (λ e.
          if_rule Tested (c == b'!')
            (λ bang. map-Tested not (word_matches-Tested ct p word (rw bang at h)))
            (λ no. (_, refl)))

  test_word-Tested :
      (ct : CaseType) (p : Bytes) (w : Runes) {o : Option Runes}
      → o ≡ some w
      → has_text p ≡ true
      → Tested (test_word ct p o)
  unfolding test_word
  test_word-Tested ct p w is h = rw is (word_matches-Tested ct p (utf8 w) h)

  match_loop-Tested :
      (ct : CaseType) (ws : List Runes) (ps : List Bytes)
      → have_text ps ≡ true
      → length ps ≤ length ws
      → Tested (match_loop ct ws ps)
  unfolding match_loop
  match_loop-Tested ct ws [] h enough = (true, refl)
  match_loop-Tested ct ws (p ∷ ps) h enough =
      let (w, is) = nth-some ws (length ps) (omega (arith, enough)) in
      and_then-Tested (test_word-Tested ct p w is (left_true (has_text p) _ h))
        (match_loop-Tested ct ws ps (right_true (has_text p) _ h) (omega (arith, enough)))

  pub tail-Tested :
      (ct : CaseType) (ws : List Runes) (ps : List Bytes)
      → have_text ps ≡ true
      → Tested (tail_matches ct ws ps)
  unfolding tail_matches
  tail-Tested ct ws ps h =
      if_rule Tested (ltb (length ws) (length ps)) (λ e. (false, refl))
        (λ e. match_loop-Tested ct ws ps h (ltb→le _ _ e))

  pub matches-Tested :
      (ct : CaseType) (ws : List Runes) (ps : List Bytes)
      → have_text ps ≡ true
      → Tested (matches ct ws ps)
  unfolding matches
  matches-Tested ct ws ps h =
      if_rule Tested (length ws == length ps)
        (λ e. match_loop-Tested ct ws ps h (omega (arith, (==_iff (length ws) (length ps)).0 e)))
        (λ e. (false, refl))

  -- A tail that matches has as many words.
  pub tail-length :
      (ct : CaseType) (ws : List Runes) (ps : List Bytes)
      → tail_matches ct ws ps ≡ some true
      → length ps ≤ length ws
  unfolding tail_matches
  tail-length ct ws ps h = elim (Bool-cases (ltb (length ws) (length ps))) [
    | inl few ↦ absurd (false_is_not_true (rw few at h))
    | inr enough ↦ ltb→le _ _ enough
  ]
