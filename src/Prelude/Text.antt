-- ===== src/Prelude/Text.antt =====
-- Python's `str` as the program uses it: comparison by code points, prefixes, the last "/",
-- concatenation and lower case.
use Prim.Native.Nat.{ℕ, ◌+◌}
use Prim.Native.Char.{Char, code}
use Prim.Native.String.{String, [], ◌∷◌}
use mathlib.Core.Path.{◌≡◌, refl}
use mathlib.Core.Bool.{Bool, true, false, ◌&&◌}
use mathlib.Core.Option.{Option, none, some}
use mathlib.Core.List as L
use mathlib.Core.List.{List}
use native.Mathlib.Omega.{arith}
use text.Mathlib.TextEquality.{Char-path}
use adaptive_multi_agent_pr.Prelude.Tests.{ltb, leb, nat_eq, if◌then◌else◌}

-- `s < t` on strings
pub text_lt : String → String → Bool
text_lt [] [] = false
text_lt [] (d ∷ t) = true
text_lt (c ∷ s) [] = false
text_lt (c ∷ s) (d ∷ t) =
    let rest = text_lt s t in
    if ltb (code c) (code d) then true else if ltb (code d) (code c) then false else rest

pub text_lt_asym : (s t : String) → text_lt s t ≡ true → text_lt t s ≡ false
unfolding text_lt
text_lt_asym [] [] h = refl
text_lt_asym [] (d ∷ t) h = refl
text_lt_asym (c ∷ s) [] h = ground arith
text_lt_asym (c ∷ s) (d ∷ t) h = ground (arith, text_lt_asym s t)

pub text_lt_trans :
    (s t u : String) → text_lt t s ≡ false → text_lt u t ≡ false → text_lt u s ≡ false
unfolding text_lt
text_lt_trans [] [] [] h k = refl
text_lt_trans [] [] (e ∷ u) h k = refl
text_lt_trans [] (d ∷ t) [] h k = ground arith
text_lt_trans [] (d ∷ t) (e ∷ u) h k = refl
text_lt_trans (c ∷ s) [] u h k = ground arith
text_lt_trans (c ∷ s) (d ∷ t) [] h k = ground arith
text_lt_trans (c ∷ s) (d ∷ t) (e ∷ u) h k = ground (arith, text_lt_trans s t u)

cons_path : (c d : Char) (s t : String) → code c ≡ code d → s ≡ t → (c ∷ s) ≡ (d ∷ t)
cons_path c d s t h k = λ i. Char-path c d h i ∷ k i

-- Two texts neither of which is below the other are equal.
pub text_lt_connected : (s t : String) → text_lt s t ≡ false → text_lt t s ≡ false → s ≡ t
unfolding text_lt
text_lt_connected [] [] h k = refl
text_lt_connected [] (d ∷ t) h k = ground arith
text_lt_connected (c ∷ s) [] h k = ground arith
text_lt_connected (c ∷ s) (d ∷ t) h k =
    cons_path c d s t (ground arith) (text_lt_connected s t (ground arith) (ground arith))

-- `s + t`
unfoldable pub append : String → String → String
append [] t = t
append (c ∷ s) t = c ∷ append s t

-- `s.startswith(p)`
unfoldable pub starts_with : String → String → Bool
starts_with s [] = true
starts_with [] (d ∷ p) = false
starts_with (c ∷ s) (d ∷ p) = nat_eq (code c) (code d) && starts_with s p

-- `s.rstrip("/")`
unfoldable pub strip_slashes : String → String
strip_slashes [] = []
strip_slashes (c ∷ s) = elim (strip_slashes s) [
  | [] ↦ if nat_eq (code c) b'/' then [] else c ∷ []
  | d ∷ t ↦ c ∷ d ∷ t
]

-- `s.rsplit("/", 1)`: the part before the last "/", if there is one
unfoldable pub before_last_slash : String → Option String
before_last_slash [] = none
before_last_slash (c ∷ s) = elim (before_last_slash s) [
  | some p ↦ some (c ∷ p)
  | none ↦ if nat_eq (code c) b'/' then some [] else none
]

-- Letters of `s.lower()`, as code points. Only A-Z change here; no other character's lower case is
-- a string of the letters of the labels that the program compares with.
unfoldable pub lower : String → List ℕ
lower [] = L.[]
lower (c ∷ s) =
    L.◌∷◌ (if leb b'A' (code c) && leb (code c) b'Z' then code c + 32 else code c) (lower s)

unfoldable pub same_codes : List ℕ → List ℕ → Bool
same_codes L.[] L.[] = true
same_codes (L.◌∷◌ a s) (L.◌∷◌ b t) = nat_eq a b && same_codes s t
same_codes _ _ = false

-- `s.lower() == label`, for a label in lower case
unfoldable pub is_label : String → String → Bool
unfolding lower same_codes
is_label s label = same_codes (lower s) (lower label)

lower_case : is_label "Critical" "critical" ≡ true
unfolding is_label
lower_case = refl

parents : before_last_slash "security/xss/dom" ≡ some "security/xss"
unfolding before_last_slash
parents = refl

-- A string starts with each of its own beginnings.
pub starts_with-append : (p s : String) → starts_with (append p s) p ≡ true
unfolding starts_with append
starts_with-append [] s = refl
starts_with-append (c ∷ p) s = ground (arith, starts_with-append p s)

pub starts_with_trans :
    (s p q : String) → starts_with s p ≡ true → starts_with p q ≡ true → starts_with s q ≡ true
unfolding starts_with
starts_with_trans s p [] h k = refl
starts_with_trans s [] (e ∷ q) h k = ground arith
starts_with_trans [] (d ∷ p) (e ∷ q) h k = ground arith
starts_with_trans (c ∷ s) (d ∷ p) (e ∷ q) h k = ground (arith, starts_with_trans s p q)

-- A string that starts with another is that one with a rest.
pub starts_with-split :
    (s p : String) → starts_with s p ≡ true → (rest : String) × (s ≡ append p rest)
unfolding starts_with append
starts_with-split s [] h = (s, refl)
starts_with-split [] (d ∷ p) h = ground arith
starts_with-split (c ∷ s) (d ∷ p) h =
    let (rest, e) = starts_with-split s p (ground arith) in
    (rest, cons_path c d s (append p rest) (ground arith) e)
