-- ===== src/Base/Text.antt =====
-- Texts character by character, and a number as Python prints it.
use Prim.Native.Nat.{ℕ, zero, suc, ◌/◌, ◌%◌}
use Prim.Native.String.{String, [], ◌∷◌, ◌++◌, char_at}
use mathlib.Core.Bool.{Bool}
use text.Mathlib.Text.{◌==◌ as str_eq}
use vibeshkoder.Base.Tests.{if◌then◌else◌, ltb}

-- s[:n]
abbrev pub take_text : ℕ → String → String
take_text zero s = []
take_text (suc n) [] = []
take_text (suc n) (c ∷ s) = c ∷ take_text n s

-- len(s)
abbrev pub text_length : String → ℕ
text_length [] = 0
text_length (c ∷ s) = suc (text_length s)

-- s.startswith(p)
abbrev pub starts_with : String → String → Bool
starts_with p s = str_eq (take_text (text_length p) s) p

-- the digit of a number below 10
abbrev pub digit : ℕ → String
digit n = char_at "0123456789" n ∷ []

-- The digits of n before `out`; a number below the fuel has fewer digits than the fuel.
abbrev pub digits : ℕ → ℕ → String → String
digits zero n out = out
digits (suc fuel) n out =
    let rest = digits fuel (n / 10) in
    if ltb n 10 then digit n ++ out else rest (digit (n % 10) ++ out)

-- str(n)
abbrev pub decimal : ℕ → String
decimal n = digits (suc n) n ""
