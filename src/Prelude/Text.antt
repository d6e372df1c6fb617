-- ===== src/Prelude/Text.antt =====
-- Texts: code points, membership, order, sorting and joining.
use Prim.Native.Nat.{ℕ}
use Prim.Native.Char.{Char, code}
use Prim.Native.String.{String}
use Prim.Native.String
use mathlib.Core.Bool.{Bool, true, false, ◌||◌, ◌&&◌}
use mathlib.Core.Option.{Option, none, some}
use mathlib.Core.List.{List, [], ◌∷◌}
use text.Mathlib.Text.{◌==◌ as str_eq}
use acdp_control_plane.Prelude.Tests.{ltb, leb, ◌==◌, if◌then◌else◌}

-- What `charCodeAt` reads along a text without surrogates.
abbrev pub codes : String → List ℕ
codes String.[] = []
codes (String.◌∷◌ first rest) = code first ∷ codes rest

-- `xs.includes(x)`, `set.has(x)`
abbrev pub str_mem : String → List String → Bool
str_mem x [] = false
str_mem x (y ∷ ys) = str_eq y x || str_mem x ys

unfoldable pub starts_with : List ℕ → List ℕ → Bool
starts_with [] cs = true
starts_with (p ∷ ps) [] = false
starts_with (p ∷ ps) (c ∷ cs) = p == c && starts_with ps cs

-- The order of `sort()` on texts.
unfoldable pub codes_le : List ℕ → List ℕ → Bool
codes_le [] bs = true
codes_le (a ∷ as') [] = false
codes_le (a ∷ as') (b ∷ bs) = ltb a b || a == b && codes_le as' bs

unfoldable pub insert_sorted : String → List String → List String
unfolding codes_le
insert_sorted x [] = x ∷ []
insert_sorted x (y ∷ ys) =
    if codes_le (codes x) (codes y) then x ∷ y ∷ ys else y ∷ insert_sorted x ys

-- `[...xs].sort()`
unfoldable pub sort_strings : List String → List String
unfolding insert_sorted
sort_strings [] = []
sort_strings (x ∷ xs) = insert_sorted x (sort_strings xs)

-- `xs.join(sep)`
unfoldable pub join : String → List String → String
join sep [] = ""
join sep (x ∷ []) = x
join sep (x ∷ y ∷ xs) = String.◌++◌ x (String.◌++◌ sep (join sep (y ∷ xs)))

-- The characters that `trim` removes.
abbrev pub is_white : ℕ → Bool
is_white c =
    leb 9 c && leb c 13
    || c == 32
    || c == 160
    || c == 5760
    || leb 8192 c && leb c 8202
    || c == 8232
    || c == 8233
    || c == 8239
    || c == 8287
    || c == 12288
    || c == 65279

-- A text without its white space at the front.
unfoldable pub trim_start : String → String
trim_start String.[] = String.[]
trim_start (String.◌∷◌ c rest) =
    let more = trim_start rest in if is_white (code c) then more else String.◌∷◌ c rest

-- A text without its white space at the end.
unfoldable pub trim_end : String → String
trim_end String.[] = String.[]
trim_end (String.◌∷◌ c rest) =
    let more = trim_end rest in
    if is_white (code c) && str_eq more "" then String.[] else String.◌∷◌ c more

unfoldable pub trim : String → String
unfolding trim_start trim_end
trim s = trim_start (trim_end s)

-- A character more at the front of the first part.
abbrev onto_first : Char → List String → List String
onto_first c [] = String.◌∷◌ c String.[] ∷ []
onto_first c (s ∷ ss) = String.◌∷◌ c s ∷ ss

-- `s.split(sep)` at one character, which is never empty.
unfoldable pub split_on : ℕ → String → List String
split_on sep String.[] = String.[] ∷ []
split_on sep (String.◌∷◌ c rest) =
    let more = split_on sep rest in if code c == sep then String.[] ∷ more else onto_first c more

abbrev onto_pair : Char → Option (String × String) → Option (String × String)
onto_pair c none = none
onto_pair c (some (before, after)) = some (String.◌∷◌ c before, after)

-- The slices before and after the first place of a character, where `indexOf` finds it.
unfoldable pub cut : ℕ → String → Option (String × String)
cut sep String.[] = none
cut sep (String.◌∷◌ c rest) =
    let more = cut sep rest in if code c == sep then some (String.[], rest) else onto_pair c more
