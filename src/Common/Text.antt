-- ===== src/Common/Text.antt =====
-- Texts that the program only compares: identifiers, tokens, versions, messages.
use Prim.Native.String.{String}
use Prim.Native.String.{compare as raw_compare}
use text.Mathlib.Text.{◌==◌ as raw_eq, is_lt}
use text.Mathlib.TextEquality.{eq_iff as raw_eq_iff}
use text.Mathlib.TextPositions.{eq_refl as raw_eq_refl}
use mathlib.Core.Path.{◌≡◌}
use mathlib.Core.Logic.{◌↔◌, ◌≢◌}
use mathlib.Core.Bool.{Bool, true, false, ◌&&◌}
use mathlib.Core.Option.{Option, none, some}
use native.Mathlib.Omega.{arith}
use Prim.Native.Char.{code}
use Prim.Native.Nat.{ℕ}
use mathlib.Core.List.{List, [], ◌∷◌}
use dnd_notes.Common.Tests.{◌=ℕ◌, if◌then◌else◌}

infix 50 ◌==◌
abbrev pub ◌==◌ : String → String → Bool
s == t = raw_eq s t

pub eq_iff : (s t : String) → ((s == t) ≡ true) ↔ (s ≡ t)
eq_iff s t = raw_eq_iff s t

pub unequal : (s t : String) → (s == t) ≡ false → s ≢ t
unequal s t e same = ground (arith, eq_iff s t)

pub eq_refl : (s : String) → (s == s) ≡ true
eq_refl s = raw_eq_refl s

-- `>` on text columns, by code points. Timestamps are such texts.
abbrev pub text_lt : String → String → Bool
text_lt s t = is_lt (raw_compare s t)

-- JavaScript's truth of an optional text: the empty one counts as missing.
abbrev pub given : Option String → Option String
given none = none
given (some text) = if text == "" then none else some text

-- The code points of a text.
abbrev pub codes : String → List ℕ
codes String.[] = []
codes (String.◌∷◌ c s) = code c ∷ codes s

abbrev pub same_codes : List ℕ → List ℕ → Bool
same_codes [] [] = true
same_codes (a ∷ s) (b ∷ t) = a =ℕ b && same_codes s t
same_codes _ _ = false

pub same_codes_iff : (s t : List ℕ) → (same_codes s t ≡ true) ↔ (s ≡ t)
same_codes_iff [] [] = ground arith
same_codes_iff [] (b ∷ t) = ground arith
same_codes_iff (a ∷ s) [] = ground arith
same_codes_iff (a ∷ s) (b ∷ t) = ground (arith, same_codes_iff s t)
