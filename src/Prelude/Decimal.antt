-- ===== src/Prelude/Decimal.antt =====
-- Python's `str` of an integer, and the concatenation of texts.
use Prim.Native.String.{String}
use Prim.Native.Nat.{ℕ, zero, suc, ◌/◌, ◌%◌}
use mathlib.Core.List as L
use mathlib.Core.List.{List}
use adaptive_multi_agent_pr.Prelude.Tests.{ltb, if◌then◌else◌}
use adaptive_multi_agent_pr.Prelude.Int.{ℤ, pos, negsuc}
use adaptive_multi_agent_pr.Prelude.Text.{append}

infixr 5 ◌⊕◌
abbrev pub ◌⊕◌ : String → String → String
s ⊕ t = append s t

-- the text at a place of a list
abbrev pick : ℕ → List String → String
pick n L.[] = ""
pick zero (L.◌∷◌ x xs) = x
pick (suc n) (L.◌∷◌ x xs) = pick n xs

abbrev digit : ℕ → String
digit n = pick n (
    L.◌∷◌ "0" (
      L.◌∷◌ "1" (
        L.◌∷◌ "2" (
          L.◌∷◌ "3" (L.◌∷◌ "4" (L.◌∷◌ "5" (L.◌∷◌ "6" (L.◌∷◌ "7" (L.◌∷◌ "8" (L.◌∷◌ "9" L.[]))))))))))

-- `str(n)`, on fuel: a number has no more digits than its value and one
abbrev digits : ℕ → ℕ → String
digits zero n = ""
digits (suc fuel) n =
    let front = digits fuel (n / 10) in if ltb n 10 then digit n else front ⊕ digit (n % 10)

unfoldable pub show : ℕ → String
show n = digits (suc n) n

unfoldable pub show_ℤ : ℤ → String
unfolding show
show_ℤ (pos n) = show n
show_ℤ (negsuc n) = "-" ⊕ show (suc n)
