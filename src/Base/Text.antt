-- ===== src/Base/Text.antt =====
-- Texts as slices of runes, and the bytes of their UTF-8 encoding.
use Prim.Native.Char.{code}
use Prim.Native.Nat.{ℕ, ◌+◌, ◌/◌, ◌%◌}
use Prim.Native.String.{String}
use mathlib.Core.Bool.{◌&&◌}
use mathlib.Core.List.{List, [], ◌∷◌, ◌++◌}
use usql.Base.Lists.{length}
use usql.Base.Tests.{ltb, leb, if◌then◌else◌}

-- A `[]rune`, or the text that it spells.
abbrev pub Runes : Type 0
Runes = List ℕ

-- The bytes of a `string`.
abbrev pub Bytes : Type 0
Bytes = List ℕ

abbrev pub codes : String → Runes
codes String.[] = []
codes (String.◌∷◌ c s) = code c ∷ codes s

-- A rune that Go cannot encode is written as U+FFFD.
abbrev pub encodable : ℕ → ℕ
encodable c = if ltb 0x10ffff c then 0xfffd else if leb 0xd800 c && leb c 0xdfff then 0xfffd else c

abbrev continuation : ℕ → ℕ
continuation x = 0x80 + x % 64

unfoldable pub encode_rune : ℕ → Bytes
encode_rune c =
    if ltb c 0x80
    then c ∷ []
    else if ltb c 0x800
    then (0xc0 + c / 64) ∷ continuation c ∷ []
    else if ltb c 0x10000
    then (0xe0 + c / 4096) ∷ continuation (c / 64) ∷ continuation c ∷ []
    else (0xf0 + c / 262144) ∷ continuation (c / 4096) ∷ continuation (c / 64) ∷ continuation c ∷ []

-- `[]byte(string(r))`.
unfoldable pub utf8 : Runes → Bytes
unfolding encode_rune
utf8 [] = []
utf8 (c ∷ r) = encode_rune (encodable c) ++ utf8 r

-- `len(string(r))`.
unfoldable pub utf8_len : Runes → ℕ
unfolding utf8
utf8_len r = length (utf8 r)
