-- ===== src/Prelude/Text.antt =====
-- Python's `str.strip`, `len` of a text, and `in` on a sequence of texts.
use Prim.Native.Nat.{ℕ}
use Prim.Native.Char.{Char, code}
use Prim.Native.String.{String, [], ◌∷◌}
use Prim.Native.String
use mathlib.Core.Bool.{Bool, false, ◌&&◌, ◌||◌}
use mathlib.Core.List.{List}
use text.Mathlib.Text.{◌==◌}
use agent_trust_ops.Prelude.Tests.{leb, nat_eq, if◌then◌else◌}

-- `str.isspace` of one character: the white space of Unicode and the four separators 28 to 31.
pub is_space : Char → Bool
is_space ch =
    let c = code ch in
    (leb 9 c && leb c 13)
    || (leb 28 c && leb c 32)
    || nat_eq c 133
    || nat_eq c 160
    || nat_eq c 5760
    || (leb 8192 c && leb c 8202)
    || nat_eq c 8232
    || nat_eq c 8233
    || nat_eq c 8239
    || nat_eq c 8287
    || nat_eq c 12288

pub lstrip : String → String
unfolding is_space
lstrip [] = []
lstrip (c ∷ s) = if is_space c then lstrip s else c ∷ s

-- One character in front of a text whose right end is already stripped.
abbrev keep_unless_blank : Char → String → String
keep_unless_blank c [] = if is_space c then [] else c ∷ []
keep_unless_blank c (d ∷ s) = c ∷ d ∷ s

pub rstrip : String → String
unfolding is_space
rstrip [] = []
rstrip (c ∷ s) = keep_unless_blank c (rstrip s)

unfoldable pub strip : String → String
unfolding lstrip rstrip
strip s = lstrip (rstrip s)

-- `not s` of a text.
abbrev pub is_empty : String → Bool
is_empty s = s == ""

unfoldable pub char_count : String → ℕ
char_count s = String.count s

unfoldable pub contains : String → List String → Bool
contains s List.[] = false
contains s (List.◌∷◌ x xs) = (x == s) || contains s xs

-- `not set(a).intersection(b)` is `not (shares a b)`.
unfoldable pub shares : List String → List String → Bool
unfolding contains
shares List.[] ys = false
shares (List.◌∷◌ x xs) ys = contains x ys || shares xs ys
