-- ===== src/Common/Texts.antt =====
-- Python's texts: their length in characters, the slice `value[:n]`, and `value or None`.
use Prim.Native.Nat.{ℕ, zero, suc}
use Prim.Native.Char.{Char, code}
use Prim.Native.String.{String}
use mathlib.Core.Bool.{Bool, true, false, ◌&&◌, ◌||◌}
use mathlib.Core.Option.{Option, none, some}
use mathlib.Core.List.{List, [], ◌∷◌}
use text.Mathlib.Text.{◌==◌ as str_eq}
use sd_platform.Common.Tests.{leb, ◌==◌, if◌then◌else◌}

-- `len(value)`
abbrev pub text_length : String → ℕ
text_length String.[] = 0
text_length (String.◌∷◌ c s) = suc (text_length s)

-- `value[:n]`
abbrev pub text_take : ℕ → String → String
text_take zero s = String.[]
text_take (suc n) String.[] = String.[]
text_take (suc n) (String.◌∷◌ c s) = String.◌∷◌ c (text_take n s)

-- `not value`
abbrev pub is_empty : String → Bool
is_empty String.[] = true
is_empty (String.◌∷◌ c s) = false

-- `value or None`
abbrev pub or_none : String → Option String
or_none String.[] = none
or_none (String.◌∷◌ c s) = some (String.◌∷◌ c s)

-- `character.isspace()`
abbrev pub is_space : Char → Bool
is_space c =
    let n = code c in
    (leb 9 n && leb n 13)
    || ((leb 28 n && leb n 32)
        || (n == 0x85
            || (n == 0xa0
                || (n == 0x1680
                    || ((leb 0x2000 n && leb n 0x200a)
                        || (n == 0x2028
                            || (n == 0x2029 || (n == 0x202f || (n == 0x205f || n == 0x3000)))))))))

-- `value.lstrip()`, `value.rstrip()` and `value.strip()`
unfoldable pub lstrip : String → String
lstrip String.[] = String.[]
lstrip (String.◌∷◌ c s) = let rest = lstrip s in if is_space c then rest else String.◌∷◌ c s

unfoldable pub rstrip : String → String
rstrip String.[] = String.[]
rstrip (String.◌∷◌ c s) =
    let rest = rstrip s in if is_empty rest && is_space c then String.[] else String.◌∷◌ c rest

unfoldable pub strip : String → String
unfolding lstrip rstrip
strip s = rstrip (lstrip s)

-- `value in values`
abbrev pub mem_text : String → List String → Bool
mem_text t [] = false
mem_text t (x ∷ xs) = let rest = mem_text t xs in if str_eq x t then true else rest

-- `not values.isdisjoint(others)`
abbrev pub meets : List String → List String → Bool
meets [] ys = false
meets (x ∷ xs) ys = let rest = meets xs ys in if mem_text x ys then true else rest
