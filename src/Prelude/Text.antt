-- ===== src/Prelude/Text.antt =====
-- Go's package strings, on the code points of a text. Letter case is that of ASCII.
use Prim.Native.Nat.{ℕ, ◌-◌}
use Prim.Native.Char.{Char, code}
use Prim.Native.String
use Prim.Native.String.{String, char_at}
use mathlib.Core.Bool.{Bool, true, ◌&&◌, ◌||◌}
use mathlib.Core.Option.{Option, none, some}
use mathlib.Core.List.{List, [], ◌∷◌}
use text.Mathlib.Text.{◌==◌}
use nexus_framework.Prelude.Tests.{leb, ◌=?◌, if◌then◌else◌}

infixr 66 ◌<>◌
abbrev pub ◌<>◌ : String → String → String
s <> t = String.◌++◌ s t

unfoldable pub lower_char : Char → Char
lower_char c =
    if leb b'A' (code c) && leb (code c) b'Z'
    then char_at "abcdefghijklmnopqrstuvwxyz" (code c - b'A')
    else c

upper_char : Char → Char
upper_char c =
    if leb b'a' (code c) && leb (code c) b'z'
    then char_at "ABCDEFGHIJKLMNOPQRSTUVWXYZ" (code c - b'a')
    else c

-- strings.ToLower
unfoldable pub to_lower : String → String
unfolding lower_char
to_lower String.[] = ""
to_lower (String.◌∷◌ c s) = String.◌∷◌ (lower_char c) (to_lower s)

-- strings.EqualFold
unfoldable pub equal_fold : String → String → Bool
unfolding to_lower
equal_fold s t = to_lower s == to_lower t

is_space : Char → Bool
is_space c = code c =? 32 || leb 9 (code c) && leb (code c) 13

trim_left_space : String → String
trim_left_space String.[] = ""
trim_left_space (String.◌∷◌ c s) =
    let rest = trim_left_space s in if is_space c then rest else String.◌∷◌ c s

trim_right_space : String → String
trim_right_space String.[] = ""
trim_right_space (String.◌∷◌ c s) =
    let rest = trim_right_space s in if is_space c && rest == "" then "" else String.◌∷◌ c rest

-- strings.TrimSpace
unfoldable pub trim_space : String → String
unfolding trim_left_space trim_right_space is_space
trim_space s = trim_right_space (trim_left_space s)

abbrev cons_head : Char → List String → List String
cons_head c [] = String.◌∷◌ c "" ∷ []
cons_head c (part ∷ parts) = String.◌∷◌ c part ∷ parts

-- strings.Split by a separator of one character
unfoldable pub split : ℕ → String → List String
split sep String.[] = "" ∷ []
split sep (String.◌∷◌ c s) =
    let rest = split sep s in if code c =? sep then "" ∷ rest else cons_head c rest

-- strings.TrimSuffix by one character
unfoldable pub trim_suffix_char : ℕ → String → String
trim_suffix_char d String.[] = ""
trim_suffix_char d (String.◌∷◌ c s) =
    let rest = trim_suffix_char d s in if s == "" && code c =? d then "" else String.◌∷◌ c rest

-- strings.TrimRight by a cut set of one character
unfoldable pub trim_right_char : ℕ → String → String
trim_right_char d String.[] = ""
trim_right_char d (String.◌∷◌ c s) =
    let rest = trim_right_char d s in if rest == "" && code c =? d then "" else String.◌∷◌ c rest

-- strings.TrimLeft by a cut set of one character
unfoldable pub trim_left_char : ℕ → String → String
trim_left_char d String.[] = ""
trim_left_char d (String.◌∷◌ c s) =
    let rest = trim_left_char d s in if code c =? d then rest else String.◌∷◌ c s

-- strings.TrimPrefix
cut_prefix : String → String → Option String
cut_prefix String.[] s = some s
cut_prefix (String.◌∷◌ d p) String.[] = none
cut_prefix (String.◌∷◌ d p) (String.◌∷◌ c s) =
    let rest = cut_prefix p s in if code c =? code d then rest else none

unfoldable pub trim_prefix : String → String → String
unfolding cut_prefix
trim_prefix p s = elim (cut_prefix p s) [ none ↦ s | some rest ↦ rest ]

-- strings.Contains
unfoldable pub contains : String → String → Bool
unfolding cut_prefix
contains t String.[] = t == ""
contains t (String.◌∷◌ c s) =
    let rest = contains t s in elim (cut_prefix t (String.◌∷◌ c s)) [ some _ ↦ true | none ↦ rest ]

-- strings.HasSuffix
unfoldable pub has_suffix : String → String → Bool
has_suffix String.[] t = t == ""
has_suffix (String.◌∷◌ c s) t = String.◌∷◌ c s == t || has_suffix s t

-- strings.Join by one space
unfoldable pub join_space : List String → String
join_space [] = ""
join_space (s ∷ []) = s
join_space (s ∷ t ∷ rest) = s <> " " <> join_space (t ∷ rest)

-- The key that http.Header stores: the first letter and those after a dash are capitals.
-- Keys with a character that no header field has are left alone by the library; the strategies'
-- names are taken to be header field names.
canonical_from : Bool → String → String
canonical_from first String.[] = ""
canonical_from first (String.◌∷◌ c s) =
    String.◌∷◌ (if first then upper_char c else lower_char c) (canonical_from (code c =? b'-') s)

unfoldable pub canonical_key : String → String
unfolding canonical_from lower_char upper_char
canonical_key s = canonical_from true s
