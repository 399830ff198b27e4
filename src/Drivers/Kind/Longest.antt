-- ===== src/Drivers/Kind/Longest.antt =====
-- The type of an execution is the longest run of words that `execMap` has.
use mathlib.Core.Path.{subst}
use mathlib.Core.Option.{some-injective}
use usql.Base.{
  ℕ, zero, suc, ◌≤◌, ◌<◌, ◌≡◌, refl, sym, Bool, true, false, inl, inr, Option, none, some, List, [],
  ◌∷◌, arith, Runes, among, length, take, Bool-cases, ≢→same, ◌≢◌, ◌==◌, ==_iff, ap, ◌∙◌,
}
use usql.Drivers.Kind.Counted.{
  Counts, normalized-Counts, spaced, HasNoBlank, HaveNoBlank, split_spaced,
}
use usql.Drivers.Kind.{
  exec_map, query_map, split_words, join_words, normalized, longest_match, or_first,
  query_exec_type,
}

-- The first `k` words, as a key of `execMap`.
abbrev pub known : List Runes → ℕ → Bool
known s k = among (join_words (take k s)) exec_map

-- What `longest_match` returns for the runs of `n` words at most.
pub record IsLongest (s : List Runes) (n : ℕ) (o : Option Runes) : Type 0 where
  pub missing : o ≡ none → (j : ℕ) → 0 < j → j ≤ n → known s j ≡ false
  pub hit :
      (typ : Runes)
      → o ≡ some typ
      → (k : ℕ) × (0 < k)
        × (k ≤ n)
        × (typ ≡ join_words (take k s))
        × (known s k ≡ true)
        × ((j : ℕ) → k < j → j ≤ n → known s j ≡ false)

longest_match-IsLongest : (s : List Runes) (n : ℕ) → IsLongest s n (longest_match s n)
unfolding longest_match
longest_match-IsLongest s zero = record {
  missing = λ e j a b. absurd (omega arith);
  hit = λ typ e. absurd (ground (arith, e));
}
longest_match-IsLongest s (suc n) =
    let less = longest_match-IsLongest s n in
    elim (Bool-cases (known s (suc n))) [
      | inl yes! ↦ rw yes! (record {
        missing = λ e. absurd (ground (arith, e));
        hit = λ typ e. (
          suc n,
          omega arith,
          omega arith,
          sym (some-injective _ typ e),
          yes!,
          λ j a b. absurd (omega arith),
        );
      })
      | inr no! ↦ rw no! (record {
        missing = λ e j a b. last j no! (λ c. less.missing e j a c) b;
        hit = λ typ e.
            let (k, some_words, inside, is, there, longer) = less.hit typ e in
            (
              k,
              some_words,
              omega (arith, inside),
              is,
              there,
              λ j a b. last j no! (λ c. longer j a c) b,
            );
      })
    ]
  where
    last :
        (j : ℕ)
        → known s (suc n) ≡ false
        → (j ≤ n → known s j ≡ false)
        → j ≤ suc n
        → known s j ≡ false
    last j no! below b = elim (Bool-cases (j == suc n)) [
      | inl e ↦ subst (λ (m : ℕ). known s m ≡ false) (sym ((==_iff j (suc n)).0 e)) no!
      | inr e ↦ below (ground (arith, e, b))
    ]

-- The type of an execution whose words are `s`, the first of them `first`.
pub data IsExecType (first : Runes) (s : List Runes) (typ : Runes) : Type 0 where
  longest :
      (k : ℕ)
      → 0 < k
      → k ≤ length s
      → typ ≡ join_words (take k s)
      → known s k ≡ true
      → ((j : ℕ) → k < j → j ≤ length s → known s j ≡ false)
      → IsExecType first s typ
  unknown :
      typ ≡ first → ((j : ℕ) → 0 < j → j ≤ length s → known s j ≡ false) → IsExecType first s typ

or_first-IsExecType :
    (first : Runes) (s : List Runes) (o : Option Runes)
    → IsLongest s (length s) o
    → IsExecType first s (or_first first o)
or_first-IsExecType first s none l = unknown refl (l.missing refl)
or_first-IsExecType first s (some typ) l =
    let (k, some_words, inside, is, there, longer) = l.hit typ refl in
    longest k some_words inside is there longer

pub query_exec_type-split :
    (prefix sqlstr : Runes)
    → prefix ≢ []
    → among (split_words prefix).0 query_map ≡ false
    → ((query_exec_type prefix sqlstr).1 ≡ false)
      × (ws : List Runes) × Counts (split_words prefix).0 (split_words prefix).1 ws
      × IsExecType
          (split_words prefix).0
          ((split_words prefix).0 ∷ ws)
          (query_exec_type prefix sqlstr).0
unfolding query_exec_type
query_exec_type-split prefix sqlstr some_runes no_query =
    let s = split_words prefix in
    rw (≢→same prefix [] some_runes, no_query)
      (
        refl,
        normalized s.0 s.1,
        normalized-Counts s.0 s.1,
        or_first-IsExecType _ _ _ (
            longest_match-IsLongest (s.0 ∷ normalized s.0 s.1) (length (s.0 ∷ normalized s.0 s.1))),
      )

-- A prefix of words with a blank between each two that is not empty, and whose first word is no query, is
-- executed, and its type is the longest run of the words that count, from the first on, that is a known
-- prefix, where the words that do not count are some behind CREATE and DROP; it is the first word alone if no
-- run is known.
pub query_exec_type-IsExecType :
    (first : Runes) (words : List Runes) (sqlstr : Runes)
    → HasNoBlank first
    → HaveNoBlank words
    → spaced first words ≢ []
    → among first query_map ≡ false
    → ((query_exec_type (spaced first words) sqlstr).1 ≡ false)
      × (ws : List Runes) × Counts first words ws
      × IsExecType first (first ∷ ws) (query_exec_type (spaced first words) sqlstr).0
query_exec_type-IsExecType first words sqlstr h hs some_runes no_query =
    let split = split_spaced first words h hs in
    subst
      (λ (p : Runes × List Runes).
        ((query_exec_type (spaced first words) sqlstr).1 ≡ false)
        × (ws : List Runes) × Counts p.0 p.1 ws
        × IsExecType p.0 (p.0 ∷ ws) (query_exec_type (spaced first words) sqlstr).0)
      split
      (query_exec_type-split (spaced first words) sqlstr some_runes
        (ap (λ (p : Runes × List Runes). among p.0 query_map) split ∙ no_query))
