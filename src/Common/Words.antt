-- ===== src/Common/Words.antt =====
-- `" ".join(value.split())`, and `sorted(set(values))` for texts.
use Prim.Native.Nat.{Ordering}
use Prim.Native.String.{String, compare}
use mathlib.Core.Option.{Option}
use mathlib.Core.List.{List, [], ◌∷◌}
use sd_platform.Common.Tests.{if◌then◌else◌}
use sd_platform.Common.Texts.{is_space, is_empty, text_take, or_none}

abbrev pub text_append : String → String → String
text_append String.[] t = t
text_append (String.◌∷◌ c s) t = String.◌∷◌ c (text_append s t)

-- The pieces between white space, the empty ones among them.
unfoldable pub pieces_with : String → List String → List String
pieces_with s [] = s ∷ []
pieces_with s (p ∷ ps) = text_append s p ∷ ps

unfoldable pub pieces : String → List String
unfolding pieces_with
pieces String.[] = String.[] ∷ []
pieces (String.◌∷◌ c s) =
    let rest = pieces s in
    if is_space c then String.[] ∷ rest else pieces_with (String.◌∷◌ c String.[]) rest

unfoldable pub nonempty : List String → List String
nonempty [] = []
nonempty (p ∷ ps) = let rest = nonempty ps in if is_empty p then rest else p ∷ rest

-- `value.split()`
unfoldable pub split_words : String → List String
unfolding pieces nonempty
split_words s = nonempty (pieces s)

-- `" ".join(words)`
unfoldable pub join_words : List String → String
join_words [] = String.[]
join_words (w ∷ []) = w
join_words (w ∷ v ∷ ws) = text_append w (text_append " " (join_words (v ∷ ws)))

-- `sorted(set(values))`: each text once, in the order of code points.
unfoldable pub insert_text : String → List String → List String
insert_text t [] = t ∷ []
insert_text t (x ∷ xs) =
    let rest = insert_text t xs in
    elim (compare t x) [ Ordering.lt ↦ t ∷ x ∷ xs | Ordering.eq ↦ x ∷ xs | Ordering.gt ↦ x ∷ rest ]

unfoldable pub sorted_set : List String → List String
unfolding insert_text
sorted_set [] = []
sorted_set (x ∷ xs) = insert_text x (sorted_set xs)

-- `",".join(values)`
unfoldable pub join_commas : List String → String
join_commas [] = String.[]
join_commas (v ∷ []) = v
join_commas (v ∷ w ∷ vs) = text_append v (text_append "," (join_commas (w ∷ vs)))

-- `",".join(sorted(values))[:64] or None`, of a set of texts
unfoldable pub role_text : List String → Option String
unfolding sorted_set join_commas
role_text values = or_none (text_take 64 (join_commas (sorted_set values)))
