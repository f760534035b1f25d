-- ===== src/Core/TextParts.antt =====
-- What the program uses of Python's str, besides `strip`: `in`, slices, splits and line ends.
use Prim.Native.Char.{Char, code}
use Prim.Native.String.{◌++◌ as append}
use text.Mathlib.Text.{find?}
use blender_ai_sidebar.Prelude.{
  ℕ, zero, suc, Bool, true, false, ◌&&◌, ◌||◌, String, List, [], ◌∷◌, Option, none, some, ◌==◌,
  nat_comparable, leb, if◌then◌else◌,
}
use blender_ai_sidebar.Core.Text.{is_space, lstrip}

-- `part in whole`
abbrev pub includes : String → String → Bool
includes part whole = elim (find? whole part) [ none ↦ false | some i ↦ true ]

-- `len(s)`
unfoldable pub length_of : String → ℕ
length_of String.[] = 0
length_of (String.◌∷◌ c s) = suc (length_of s)

-- `s <= t`, by code points.
unfoldable pub is_before : String → String → Bool
is_before String.[] t = true
is_before (String.◌∷◌ c s) String.[] = false
is_before (String.◌∷◌ c s) (String.◌∷◌ d t) =
    let rest = is_before s t in if code c == code d then rest else leb (code c) (code d)

-- `s[:n]` and `s[n:]`
unfoldable pub first : ℕ → String → String
first zero s = String.[]
first (suc n) String.[] = String.[]
first (suc n) (String.◌∷◌ c s) = String.◌∷◌ c (first n s)

unfoldable pub after : ℕ → String → String
after zero s = s
after (suc n) String.[] = String.[]
after (suc n) (String.◌∷◌ c s) = after n s

-- `s[:s.index(mark)]`, or the whole text where there is none: `s.split(mark)[0]`.
unfoldable pub before_mark : ℕ → String → String
before_mark mark String.[] = String.[]
before_mark mark (String.◌∷◌ c s) = elim (code c == mark) [
  | true ↦ String.[]
  | false ↦ String.◌∷◌ c (before_mark mark s)
]

-- The text behind the first mark.
unfoldable pub behind_mark : ℕ → String → Option String
behind_mark mark String.[] = none
behind_mark mark (String.◌∷◌ c s) = elim (code c == mark) [
  | true ↦ some s
  | false ↦ behind_mark mark s
]

-- The text before the last mark.
unfoldable pub before_last : ℕ → String → Option String
before_last mark String.[] = none
before_last mark (String.◌∷◌ c s) = elim (before_last mark s) [
  | some rest ↦ some (String.◌∷◌ c rest)
  | none ↦ if code c == mark then some String.[] else none
]

-- `s.strip(mark)` for one character.
unfoldable pub lstrip_mark : ℕ → String → String
lstrip_mark mark String.[] = String.[]
lstrip_mark mark (String.◌∷◌ c s) = elim (code c == mark) [
  | true ↦ lstrip_mark mark s
  | false ↦ String.◌∷◌ c s
]

abbrev keep_before : Bool → Char → String → String
keep_before true c String.[] = String.[]
keep_before _ c s = String.◌∷◌ c s

unfoldable pub rstrip_mark : ℕ → String → String
rstrip_mark mark String.[] = String.[]
rstrip_mark mark (String.◌∷◌ c s) = keep_before (code c == mark) c (rstrip_mark mark s)

unfoldable pub strip_mark : ℕ → String → String
unfolding lstrip_mark rstrip_mark
strip_mark mark s = rstrip_mark mark (lstrip_mark mark s)

-- `s.split()[0]`, and the empty text where `s` has no word.
unfoldable pub until_space : String → String
unfolding is_space
until_space String.[] = String.[]
until_space (String.◌∷◌ c s) = elim (is_space (code c)) [
  | true ↦ String.[]
  | false ↦ String.◌∷◌ c (until_space s)
]

unfoldable pub first_word : String → String
unfolding lstrip until_space
first_word s = until_space (lstrip s)

-- The line ends of `str.splitlines`.
abbrev is_line_end : ℕ → Bool
is_line_end c =
    (leb 10 c && leb c 13) || (leb 28 c && leb c 30) || c == 0x85 || c == 0x2028 || c == 0x2029

-- A character before the first of the lines.
abbrev add_to_line : Char → List String → List String
add_to_line c [] = String.◌∷◌ c String.[] ∷ []
add_to_line c (line ∷ lines) = String.◌∷◌ c line ∷ lines

-- `s.splitlines()`; the flag says that a "\r" ended the line just before.
unfoldable pub split_lines : Bool → String → List String
split_lines cr String.[] = []
split_lines cr (String.◌∷◌ c s) = elim (cr && code c == 10) [
  | true ↦ split_lines false s
  | false ↦ elim (is_line_end (code c)) [
    | true ↦ "" ∷ split_lines (code c == 13) s
    | false ↦ add_to_line c (split_lines false s)
  ]
]

-- `mark.join(parts)`
unfoldable pub join : String → List String → String
join mark [] = ""
join mark (s ∷ []) = s
join mark (s ∷ t ∷ ss) = append s (append mark (join mark (t ∷ ss)))
