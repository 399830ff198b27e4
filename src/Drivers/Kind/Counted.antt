-- ===== src/Drivers/Kind/Counted.antt =====
-- The words of a prefix, and which of them QueryExecType looks up.
use usql.Base.{
  ◌≡◌, refl, sym, Bool, true, false, List, [], ◌∷◌, Runes, among, ◌==◌, if_rule, ap, ◌++◌, same→≡,
  same, codes, map, ◌&&◌, ◌||◌, ◌∙◌,
}
use usql.Drivers.Kind.{split_words, normalized, without}

-- A word behind the first one that does not count: after CREATE, and after DROP.
abbrev pub is_ignored : Runes → Runes → Bool
is_ignored first w =
    (same first (codes "CREATE")
      && among w (
          map codes (
            "DEFAULT" ∷ "GLOBAL" ∷ "LOCAL" ∷ "OR" ∷ "PROCEDURAL" ∷ "RECURSIVE" ∷ "REPLACE"
            ∷ "TEMPORARY" ∷ "TEMP" ∷ "TRUSTED" ∷ "UNIQUE" ∷ "UNLOGGED" ∷ [])))
    || (same first (codes "DROP") && same w (codes "PROCEDURAL"))

-- The words that count, in their order.
pub data Counts (first : Runes) : List Runes → List Runes → Type 0 where
  no_more : Counts first [] []
  counts :
      {w : Runes} {ws vs : List Runes}
      → is_ignored first w ≡ false
      → Counts first ws vs
      → Counts first (w ∷ ws) (w ∷ vs)
  ignored :
      {w : Runes} {ws vs : List Runes}
      → is_ignored first w ≡ true
      → Counts first ws vs
      → Counts first (w ∷ ws) vs

without-Counts :
    (first : Runes) (drop_it : Runes → Bool) (ws : List Runes)
    → ((w : Runes) → drop_it w ≡ is_ignored first w)
    → Counts first ws (without drop_it ws)
without-Counts first drop_it [] agree = no_more
without-Counts first drop_it (w ∷ ws) agree =
    let rest = without-Counts first drop_it ws agree in
    if_rule (Counts first (w ∷ ws)) (drop_it w) (λ e. ignored (sym (agree w) ∙ e) rest)
      (λ e. counts (sym (agree w) ∙ e) rest)

none-Counts :
    (first : Runes) (ws : List Runes)
    → same first (codes "CREATE") ≡ false
    → same first (codes "DROP") ≡ false
    → Counts first ws ws
none-Counts first [] no_create no_drop = no_more
none-Counts first (w ∷ ws) no_create no_drop =
    counts (rw (no_create, no_drop)) (none-Counts first ws no_create no_drop)

pub normalized-Counts : (first : Runes) (ws : List Runes) → Counts first ws (normalized first ws)
unfolding normalized
normalized-Counts first ws =
    if_rule (Counts first ws) (same first (codes "CREATE"))
      (λ create. without-Counts first _ ws (λ w. rw (same→≡ first _ create) (created _)))
      (λ no_create.
        if_rule (Counts first ws) (same first (codes "DROP"))
          (λ dropped. without-Counts first _ ws (λ w. rw (same→≡ first _ dropped) refl))
          (λ no_drop. none-Counts first ws no_create no_drop))
  where
    created : (b : Bool) → b ≡ (b || false)
    created true = refl
    created false = refl

-- Words with a blank between each two of them.
abbrev pub spaced : Runes → List Runes → Runes
spaced first [] = first
spaced first (w ∷ ws) = first ++ b' ' ∷ spaced w ws

abbrev pub HasNoBlank : Runes → Type 0
HasNoBlank [] = Unit {0}
HasNoBlank (c ∷ s) = ((c == b' ') ≡ false) × HasNoBlank s

abbrev pub HaveNoBlank : List Runes → Type 0
HaveNoBlank [] = Unit {0}
HaveNoBlank (w ∷ ws) = HasNoBlank w × HaveNoBlank ws

split_one : (w : Runes) → HasNoBlank w → split_words w ≡ (w, [])
unfolding split_words
split_one [] h = refl
split_one (c ∷ w) (here, h) = rw (here, split_one w h)

split_first :
    (w s : Runes)
    → HasNoBlank w
    → split_words (w ++ b' ' ∷ s) ≡ (w, (split_words s).0 ∷ (split_words s).1)
unfolding split_words
split_first [] s h = refl
split_first (c ∷ w) s (here, h) = rw (here, split_first w s h)

pub split_spaced :
    (first : Runes) (words : List Runes)
    → HasNoBlank first
    → HaveNoBlank words
    → split_words (spaced first words) ≡ (first, words)
split_spaced first [] h hs = split_one first h
split_spaced first (w ∷ words) h (here, hs) =
    split_first first (spaced w words) h
    ∙ ap (λ (p : Runes × List Runes). (first, p.0 ∷ p.1)) (split_spaced w words here hs)
