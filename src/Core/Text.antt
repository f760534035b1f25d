-- ===== src/Core/Text.antt =====
-- `str.strip` of Python.
use Prim.Native.Char.{Char, code}
use Prim.Native.String.{◌++◌ as append}
use blender_ai_sidebar.Prelude.{
  List, [], ◌∷◌, ℕ, ◌≡◌, refl, Bool, true, false, ◌&&◌, ◌||◌, String, ◌==◌, nat_comparable, leb,
  if◌then◌else◌, Bool-cases, inl, inr, ap, ◌∙◌,
}

-- An f-string, by its parts.
abbrev pub joined : List String → String
joined [] = ""
joined (s ∷ ss) = append s (joined ss)

-- The white space characters of `str.isspace`.
unfoldable pub is_space : ℕ → Bool
is_space c =
    (leb 9 c && leb c 13)
    || (leb 28 c && leb c 32)
    || c == 0x85
    || c == 0xa0
    || c == 0x1680
    || (leb 0x2000 c && leb c 0x200a)
    || c == 0x2028
    || c == 0x2029
    || c == 0x202f
    || c == 0x205f
    || c == 0x3000

abbrev is_empty : String → Bool
is_empty String.[] = true
is_empty (String.◌∷◌ c s) = false

unfoldable pub lstrip : String → String
lstrip String.[] = String.[]
lstrip (String.◌∷◌ c s) = if is_space (code c) then lstrip s else String.◌∷◌ c s

keep_char : Char → String → String
keep_char c s = if is_space (code c) && is_empty s then String.[] else String.◌∷◌ c s

unfoldable pub rstrip : String → String
unfolding keep_char
rstrip String.[] = String.[]
rstrip (String.◌∷◌ c s) = keep_char c (rstrip s)

unfoldable pub strip : String → String
unfolding lstrip rstrip is_space
strip s = rstrip (lstrip s)

-- `not s.strip()`
abbrev pub is_blank : String → Bool
is_blank s = is_empty (strip s)

-- A character that is stripped, or that stays.
rstrip-keep_char : (c : Char) (s : String) → rstrip s ≡ s → rstrip (keep_char c s) ≡ keep_char c s
unfolding rstrip
rstrip-keep_char c s h = elim (Bool-cases (is_space (code c) && is_empty s)) [
  | inl gone ↦ rw gone refl
  | inr stays ↦ rw stays (rw h (rw stays refl))
]

rstrip_idem : (s : String) → rstrip (rstrip s) ≡ rstrip s
unfolding rstrip
rstrip_idem String.[] = refl
rstrip_idem (String.◌∷◌ c s) = rstrip-keep_char c (rstrip s) (rstrip_idem s)

lstrip-rstrip_cons :
    (c : Char) (s : String)
    → is_space (code c) ≡ false
    → lstrip (rstrip (String.◌∷◌ c s)) ≡ rstrip (String.◌∷◌ c s)
unfolding lstrip rstrip
lstrip-rstrip_cons c s h = rw h (rw h refl)

lstrip-rstrip-lstrip : (s : String) → lstrip (rstrip (lstrip s)) ≡ rstrip (lstrip s)
unfolding lstrip rstrip
lstrip-rstrip-lstrip String.[] = refl
lstrip-rstrip-lstrip (String.◌∷◌ c s) = elim (Bool-cases (is_space (code c))) [
  | inl space ↦ rw space (lstrip-rstrip-lstrip s)
  | inr other ↦ rw other (lstrip-rstrip_cons c s other)
]

pub strip_idem : (s : String) → strip (strip s) ≡ strip s
unfolding strip
strip_idem s = ap rstrip (lstrip-rstrip-lstrip s) ∙ rstrip_idem (lstrip s)
