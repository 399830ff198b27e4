-- ===== src/Completer/Options/Offered.antt =====
-- What is offered completes the text to an option.
use usql.Base.{
  ℕ, suc, ◌-◌, ◌≤◌, ◌<◌, ◌≡◌, refl, ap, true, false, inl, inr, Option, some, List, [], ◌∷◌, ◌++◌,
  map, arith, leb, ◌==◌, Runes, same→≡, length, take, length-take, utf8_len, utf8, encode_rune,
  Bool-cases, ==_iff,
}
use usql.Completer.Casing.{Casing, AreAscii}
use usql.Completer.Options.{
  Completion, replicate, byte_drop, has_prefix, folded, starts_lower, cased, offer, appended,
  offers, complete_from_list_case,
}
use usql.Completer.Pattern.{CaseType}

size_pos : (c : ℕ) → 0 < utf8_len (c ∷ [])
unfolding utf8_len utf8 encode_rune
size_pos c = ground arith

-- The cut is inside the string where there are so many runes.
byte_drop-some : (s : Runes) (n : ℕ) → n ≤ length s → (t : Runes) × (byte_drop n s ≡ some t)
unfolding byte_drop
byte_drop-some [] n h = ([], rw ((==_iff n 0).1 (omega arith)) refl)
byte_drop-some (c ∷ s) n h = elim (Bool-cases (n == 0)) [
  | inl zero! ↦ (c ∷ s, rw zero! refl)
  | inr more ↦ elim (Bool-cases (leb (utf8_len (c ∷ [])) n)) [
    | inl fits ↦
        let (t, is) = byte_drop-some s (n - utf8_len (c ∷ [])) (omega (arith, size_pos c)) in
        (t, rw (more, fits) is)
    | inr split ↦ (replicate (utf8_len (c ∷ []) - n) 0xfffd ++ s, rw (more, split) refl)
  ]
]

length-map : (f : ℕ → ℕ) (s : Runes) → length (map f s) ≡ length s
length-map f [] = refl
length-map f (c ∷ s) = ap suc (length-map f s)

-- A prefix is no longer than the text.
has_prefix-length : (s p : Runes) → has_prefix s p ≡ true → length p ≤ length s
has_prefix-length s p h =
    omega (arith, ap length (same→≡ (take (length p) s) p h), length-take (length p) s)

module _ ⦃k : Casing⦄ where
  length-folded : (ct : CaseType) (s : Runes) → length (folded ct s) ≡ length s
  length-folded CaseType.ignore_case s = length-map k.upper s
  length-folded CaseType.match_case s = refl

  -- The options that the text begins, each with what completes the text to it, up to case where case does not matter.
  pub data Completes (ct : CaseType) (text : Runes) : List Runes → List Runes → Type 0 where
    at_end : Completes ct text [] []
    other :
        {os ms : List Runes} (o : Runes)
        → has_prefix (folded ct o) (folded ct text) ≡ false
        → Completes ct text os ms
        → Completes ct text (o ∷ os) ms
    begun :
        {os ms : List Runes} (o m : Runes)
        → has_prefix (folded ct o) (folded ct text) ≡ true
        → folded ct (text ++ m) ≡ folded ct o
        → Completes ct text os ms
        → Completes ct text (o ∷ os) (m ∷ ms)

  module _ (ct : CaseType) (text : Runes) where
    shorter :
        (o : Runes) → has_prefix (folded ct o) (folded ct text) ≡ true → length text ≤ length o
    shorter o h = omega (
      arith,
      has_prefix-length (folded ct o) (folded ct text) h,
      length-folded ct o,
      length-folded ct text,
    )

    -- An option adds nothing, or what is left of it behind the text.
    offer_other :
        (o : Runes) → has_prefix (folded ct o) (folded ct text) ≡ false → offer ct text o ≡ some []
    unfolding offer
    offer_other o h = rw h refl

    offer_begun :
        (o t : Runes)
        → has_prefix (folded ct o) (folded ct text) ≡ true
        → byte_drop (length text) o ≡ some t
        → offer ct text o ≡ some (cased ct (starts_lower text) t ∷ [])
    unfolding offer
    offer_begun o t h e = rw (h, e) refl

    appended-some :
        (a b : Option (List Runes)) (xs ys : List Runes)
        → a ≡ some xs
        → b ≡ some ys
        → appended a b ≡ some (xs ++ ys)
    unfolding appended
    appended-some a b xs ys h k = rw (h, k) refl

    offers-some : (os : List Runes) → (ms : List Runes) × (offers ct text os ≡ some ms)
    unfolding offers
    offers-some [] = ([], refl)
    offers-some (o ∷ os) =
        let (ms, rest) = offers-some os in
        elim (Bool-cases (has_prefix (folded ct o) (folded ct text))) [
          | inl yes! ↦
              let (t, cut) = byte_drop-some o (length text) (shorter o yes!) in
              (
                cased ct (starts_lower text) t ∷ ms,
                appended-some _ _ _ ms (offer_begun o t yes! cut) rest,
              )
          | inr no! ↦ (ms, appended-some _ _ [] ms (offer_other o no!) rest)
        ]

    -- Every option is ASCII.
    abbrev pub AreAsciiOptions : List Runes → Type 0
    AreAsciiOptions [] = Unit {0}
    AreAsciiOptions (o ∷ os) = AreAscii o × AreAsciiOptions os

    -- Completion from a list that is not empty returns a list and never panics, whatever the text and the
    -- options are, though it cuts bytes by a number of runes.
    pub complete_from_list_case_returns :
        (o : Runes) (os : List Runes)
        → (ms : List Runes) × (complete_from_list_case ct text (o ∷ os) ≡ Completion.list ms)
    unfolding complete_from_list_case
    complete_from_list_case_returns o os = let (ms, is) = offers-some (o ∷ os) in (ms, rw is refl)
