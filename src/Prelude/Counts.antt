-- ===== src/Prelude/Counts.antt =====
-- How often a text occurs in a list: membership, the absence of repetitions and permutations are
-- read off from counts.
use Prim.Native.Nat.{ℕ, ◌+◌, ◌≤◌, ◌<◌}
use Prim.Native.String.{String}
use mathlib.Core.Path.{◌≡◌, refl}
use mathlib.Core.Bool.{Bool, true, false, ◌||◌}
use mathlib.Core.List.{List, [], ◌∷◌, ◌++◌}
use native.Mathlib.Omega.{arith}
use text.Mathlib.TextEquality.{eq_iff}
use text.Mathlib.TextPositions.{eq_refl}
use blender_ai_sidebar.Prelude.Tests.{◌==◌, string_comparable, if◌then◌else◌}
use blender_ai_sidebar.Prelude.Lists.{length}

abbrev pub bit : Bool → ℕ
bit true = 1
bit false = 0

unfoldable pub count : String → List String → ℕ
count s [] = 0
count s (x ∷ xs) = bit (x == s) + count s xs

-- `s in xs`
unfoldable pub contains : String → List String → Bool
contains s [] = false
contains s (x ∷ xs) = x == s || contains s xs

-- No text occurs twice.
abbrev pub IsDistinct : List String → Type 0
IsDistinct xs = (s : String) → count s xs ≤ 1

pub contains-eq_true : (s : String) (xs : List String) → contains s xs ≡ true → 0 < count s xs
unfolding contains count
contains-eq_true s [] h = ground arith
contains-eq_true s (x ∷ xs) h = ground (arith, contains-eq_true s xs)

pub contains-eq_false : (s : String) (xs : List String) → contains s xs ≡ false → count s xs ≡ 0
unfolding contains count
contains-eq_false s [] h = refl
contains-eq_false s (x ∷ xs) h = ground (arith, contains-eq_false s xs)

pub count-append : (s : String) (xs ys : List String) → count s (xs ++ ys) ≡ count s xs + count s ys
unfolding count
count-append s [] ys = omega arith
count-append s (x ∷ xs) ys = omega (arith, count-append s xs ys)

-- One occurrence of a text taken out.
unfoldable pub remove : String → List String → List String
remove s [] = []
remove s (x ∷ xs) = if x == s then xs else x ∷ remove s xs

length-remove :
    (s : String) (xs : List String) → 0 < count s xs → length (remove s xs) + 1 ≡ length xs
unfolding remove count
length-remove s [] h = absurd (omega arith)
length-remove s (x ∷ xs) h = ground (arith, length-remove s xs)

pub count-remove :
    (s t : String) (xs : List String)
    → 0 < count s xs
    → count t (remove s xs) + bit (s == t) ≡ count t xs
unfolding remove count
count-remove s t [] h = absurd (omega arith)
count-remove s t (x ∷ xs) h =
    ground (arith, count-remove s t xs, eq_iff x s, eq_iff s t, eq_iff x t)

-- A list whose texts all occur in another, at most as often, is not longer.
pub length-le_of_count :
    (xs ys : List String) → ((s : String) → count s xs ≤ count s ys) → length xs ≤ length ys
unfolding count
length-le_of_count [] ys h = omega arith
length-le_of_count (x ∷ xs) ys h =
    let here : 0 < count x ys = ground (arith, h x, eq_refl x) in
    let rest =
      length-le_of_count xs (remove x ys) (λ t. ground (arith, h t, count-remove x t ys)) in
    omega (arith, length-remove x ys here)

-- If moreover it is as long, then it is a permutation.
pub count-eq_of_length :
    (xs ys : List String)
    → ((s : String) → count s xs ≤ count s ys)
    → length xs ≡ length ys
    → (s : String) → count s xs ≡ count s ys
unfolding count
count-eq_of_length [] [] h e s = refl
count-eq_of_length [] (y ∷ ys) h e s = absurd (omega arith)
count-eq_of_length (x ∷ xs) ys h e s =
    let here : 0 < count x ys = ground (arith, h x, eq_refl x) in
    let rest =
      count-eq_of_length xs (remove x ys) (λ t. ground (arith, h t, count-remove x t ys))
        (omega (arith, length-remove x ys here)) s in
    omega (arith, count-remove x s ys here)
