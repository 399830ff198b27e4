-- ===== src/Stmt/Prefix.antt =====
-- stmt/parse.go: `findPrefix` and `FindPrefix`. In the loop `end` is always `len(r)`.
use usql.Base.{
  ℕ, zero, suc, ◌+◌, ◌-◌, Bool, true, false, not, ◌&&◌, ◌||◌, Option, none, some, [], ◌∷◌, ◌++◌,
  ltb, leb, ◌==◌, if◌then◌else◌, Runes, length, take, drop,
}
use usql.Stmt.Rune.{Unicode, is_letter, is_space_or_control}
use usql.Stmt.Scan.{rune_at, grab, find_non_space, find_rune}
use usql.Stmt.Splice.{append_upper_runes}

-- Which comments the statement's database knows.
pub record Comments : Type 0 where
  pub c_style : Bool
  pub hash : Bool
  pub multiline : Bool

-- The variables of the loop.
pub record Words : Type 0 where
  pub s : Runes
  pub words : ℕ
  pub r : Runes
  pub i : ℕ

-- What a round does: `break loop` with the text so far, or the next round.
pub data PrefixRound : Type 0 where
  stop : Runes → PrefixRound
  next : Words → PrefixRound

-- The first position of `*/` from `i` on.
comment_end : Runes → ℕ → ℕ → Option ℕ
comment_end r zero i = none
comment_end r (suc n) i =
    if grab r i (length r) == b'*' && grab r (i + 1) (length r) == b'/'
    then some i
    else comment_end r n (i + 1)

ends_in_space : Runes → Bool
ends_in_space [] = true
ends_in_space (c ∷ []) = is_space_or_control c
ends_in_space (c ∷ d ∷ s) = ends_in_space (d ∷ s)

-- A space, if what remains begins with one and the last word does not end in one.
spaced : Runes → Runes → Runes
spaced s r =
    if ltb 0 (length r)
      && not (length s == 0)
      && is_space_or_control (rune_at r 0)
      && not (ends_in_space s)
    then s ++ b' ' ∷ []
    else s

trim_space : Runes → Runes
trim_space [] = []
trim_space (c ∷ []) = if c == b' ' then [] else c ∷ []
trim_space (c ∷ d ∷ s) = c ∷ trim_space (d ∷ s)

module _ ⦃u : Unicode⦄ where
  -- The word in front of a comment.
  pub take_word : Words → Runes → Words
  take_word w extra =
      if w.i == 0
      then w
      else record w { s = append_upper_runes w.s (take w.i w.r) extra; words = w.words + 1 }

  line_comment : Words → PrefixRound
  line_comment w =
      let w' = take_word w (b' ' ∷ []) in
      let k = (find_rune w.r w.i (length w.r) b'\n').0 in
      if leb (length w.r) k
      then next (record w' { i = k + 1 })
      else next (record w' { r = drop (k + 1) w.r; i = 0 })

  after_comment : Words → Option ℕ → PrefixRound
  after_comment w none = next (record w { s = spaced w.s w.r; i = length w.r + 1 })
  after_comment w (some k) =
      let rest = drop (k + 2) w.r in next (record w { s = spaced w.s rest; r = rest; i = 0 })

  block_comment : Words → PrefixRound
  block_comment w =
      after_comment (take_word w []) (comment_end w.r (length w.r - (w.i + 2)) (w.i + 2))

  end_word : Words → ℕ → PrefixRound
  end_word w following =
      let s = append_upper_runes w.s (take (w.i + 1) w.r) (b' ' ∷ []) in
      if following == 0
      then next (record w { s = s; words = w.words + 1; i = w.i + 1 })
      else if following == b';'
      then stop s
      else next (record { s = s; words = w.words + 1; r = drop (w.i + 2) w.r; i = 0 })

  -- `for` skips spaces and control characters first.
  pub skip_space : Words → Words
  skip_space w =
      let j = (find_non_space w.r w.i (length w.r)).0 in
      if w.i == j then w else record w { r = drop j w.r; i = 0 }

  pub prefix_round : ℕ → Comments → Words → PrefixRound
  unfolding take_word line_comment after_comment block_comment end_word
  prefix_round n k w =
      let c = grab w.r w.i (length w.r) in
      let following = grab w.r (w.i + 1) (length w.r) in
      if c == 0
      then next (record w { i = w.i + 1 })
      else if c == b';'
      then stop w.s
      else if (c == b'-' && following == b'-')
          || (c == b'/' && following == b'/' && k.c_style)
          || (c == b'#' && k.hash)
      then line_comment w
      else if c == b'/' && following == b'*' && k.multiline
      then block_comment w
      else if w.words == n || not (is_letter c)
      then stop w.s
      else if not (following == b'/') && not (is_letter following)
      then end_word w following
      else next (record w { i = w.i + 1 })

  pub prefix_loop : ℕ → Comments → ℕ → Words → Runes
  prefix_loop n k zero w = w.s
  prefix_loop n k (suc fuel) w = elim (ltb w.i (length w.r)) [
    | false ↦ w.s
    | true ↦ elim (prefix_round n k (skip_space w)) [
      | stop s ↦ s
      | next w' ↦ prefix_loop n k fuel w'
    ]
  ]

  unfoldable pub find_prefix_n : Runes → ℕ → Comments → Runes
  unfolding skip_space prefix_round prefix_loop trim_space spaced ends_in_space comment_end
  find_prefix_n r n k =
      trim_space (prefix_loop n k (length r) (record { s = []; words = 0; r = r; i = 0 }))

  abbrev pub prefix_count : ℕ
  prefix_count = 6

  unfoldable pub find_prefix : Runes → Comments → Runes
  unfolding find_prefix_n
  find_prefix s = find_prefix_n s prefix_count
