-- ===== src/Agent/SseParser/Lines.antt =====
-- The extraction of lines: what is extracted from a buffer and then from the rest with more text is
-- what is extracted from all of it.
use blender_ai_sidebar.Prelude.{
  ℕ, ◌≡◌, refl, ap, ◌∙◌, arith, Bool, true, false, ◌&&◌, ◌||◌, List, [], ◌∷◌, ◌++◌, map, append-nil,
  ◌==◌, nat_comparable, Bool-cases, inl, inr,
}
use blender_ai_sidebar.Agent.SseParser.{
  Text, cr, lf, replace_crlf, without_cr, normalize, add_char, split_lines, cut_cr,
}

-- The text ends with "\r", where the flag is for the empty text.
abbrev pub ends_cr : Bool → Text → Bool
ends_cr flag [] = flag
ends_cr flag (c ∷ cs) = ends_cr (c == cr) cs

abbrev pub starts_lf : Text → Bool
starts_lf [] = false
starts_lf (c ∷ cs) = c == lf

lf-not_cr : (c : ℕ) → (c == lf) ≡ true → (c == cr) ≡ false
lf-not_cr c is_lf = ground arith

crlf-append :
    (flag : Bool) (x y : Text)
    → (ends_cr flag x && starts_lf y) ≡ false
    → replace_crlf flag (x ++ y) ≡ replace_crlf flag x ++ replace_crlf false y
unfolding replace_crlf
crlf-append false [] y h = refl
crlf-append true [] [] h = refl
crlf-append true [] (d ∷ ds) h = elim (Bool-cases (d == cr)) [
  | inl is_cr ↦ rw (replace_crlf, h, is_cr) refl
  | inr other ↦ rw (replace_crlf, h, other) refl
]
crlf-append false (c ∷ cs) y h = elim (Bool-cases (c == cr)) [
  | inl is_cr ↦ rw (replace_crlf, is_cr) (crlf-append true cs y (rw is_cr at h))
  | inr other ↦ rw (replace_crlf, other) (ap (λ z. c ∷ z) (crlf-append false cs y (rw other at h)))
]
crlf-append true (c ∷ cs) y h = elim (Bool-cases (c == lf)) [
  | inl is_lf ↦
      rw (replace_crlf, is_lf)
        (ap (λ z. lf ∷ z) (crlf-append false cs y (rw (lf-not_cr c is_lf) at h)))
  | inr more ↦ elim (Bool-cases (c == cr)) [
    | inl is_cr ↦
        rw (replace_crlf, more, is_cr) (ap (λ z. cr ∷ z) (crlf-append true cs y (rw is_cr at h)))
    | inr other ↦
        rw (replace_crlf, more, other)
          (ap (λ z. cr ∷ c ∷ z) (crlf-append false cs y (rw other at h)))
  ]
]

map-append : (f : ℕ → ℕ) (x y : Text) → map f (x ++ y) ≡ map f x ++ map f y
map-append f [] y = refl
map-append f (c ∷ cs) y = ap (λ z. f c ∷ z) (map-append f cs y)

pub normalize-append :
    (x y : Text)
    → (ends_cr false x && starts_lf y) ≡ false
    → normalize (x ++ y) ≡ normalize x ++ normalize y
unfolding normalize
normalize-append x y h =
    ap (map without_cr) (crlf-append false x y h)
    ∙ map-append without_cr (replace_crlf false x) (replace_crlf false y)

-- The split of a text of which the lines and the rest are `p`, with `y` behind it.
abbrev pub continue : List Text × Text → Text → List Text × Text
continue p y = (p.0 ++ (split_lines (p.1 ++ y)).0, (split_lines (p.1 ++ y)).1)

add_char-continue :
    (c : ℕ) (p : List Text × Text) (y : Text)
    → (c == lf) ≡ false
    → add_char c (continue p y) ≡ continue (add_char c p) y
unfolding split_lines
add_char-continue c ([], rest) y other = rw (split_lines, other) refl
add_char-continue c (line ∷ lines, rest) y other = refl

pub split-append : (x y : Text) → split_lines (x ++ y) ≡ continue (split_lines x) y
unfolding split_lines
split-append [] y = refl
split-append (c ∷ cs) y = elim (Bool-cases (c == lf)) [
  | inl is_lf ↦ rw (split_lines, is_lf, split-append cs y) refl
  | inr other ↦
      rw (split_lines, other, split-append cs y) (add_char-continue c (split_lines cs) y other)
]

-- Neither "\r" nor "\n" is in the text.
abbrev pub has_breaks : Text → Bool
has_breaks [] = false
has_breaks (c ∷ cs) = (c == cr || c == lf) || has_breaks cs

abbrev pub has_cr : Text → Bool
has_cr [] = false
has_cr (c ∷ cs) = c == cr || has_cr cs

without_cr-stays : (c : ℕ) → (without_cr c == cr) ≡ false
without_cr-stays c = elim (Bool-cases (c == cr)) [
  | inl is_cr ↦ rw is_cr refl
  | inr other ↦ rw other other
]

pub map-has_cr : (text : Text) → has_cr (map without_cr text) ≡ false
map-has_cr [] = refl
map-has_cr (c ∷ cs) = rw (without_cr-stays c) (map-has_cr cs)

-- What follows the last line has no line break.
add_char-has_breaks :
    (c : ℕ) (p : List Text × Text)
    → (c == cr) ≡ false
    → (c == lf) ≡ false
    → has_breaks p.1 ≡ false
    → has_breaks (add_char c p).1 ≡ false
add_char-has_breaks c ([], rest) no_cr no_lf h = rw (no_cr, no_lf) h
add_char-has_breaks c (line ∷ lines, rest) no_cr no_lf h = h

pub split_lines-has_breaks :
    (text : Text) → has_cr text ≡ false → has_breaks (split_lines text).1 ≡ false
unfolding split_lines
split_lines-has_breaks [] h = refl
split_lines-has_breaks (c ∷ cs) h = elim (Bool-cases (c == cr)) [
  | inl is_cr ↦ absurd (cc (rw is_cr at h))
  | inr no_cr ↦
      let rest = split_lines-has_breaks cs (rw no_cr at h) in
      elim (Bool-cases (c == lf)) [
        | inl is_lf ↦ rw (split_lines, is_lf) rest
        | inr no_lf ↦
            rw (split_lines, no_lf) (add_char-has_breaks c (split_lines cs) no_cr no_lf rest)
      ]
]

or-right : (a b : Bool) → (a || b) ≡ false → b ≡ false
or-right false b h = h
or-right true b h = absurd (cc h)

pub has_breaks-ends_cr : (text : Text) → has_breaks text ≡ false → ends_cr false text ≡ false
has_breaks-ends_cr [] h = refl
has_breaks-ends_cr (c ∷ cs) h = elim (Bool-cases (c == cr)) [
  | inl is_cr ↦ absurd (cc (rw is_cr at h))
  | inr no_cr ↦ rw no_cr (has_breaks-ends_cr cs (or-right _ _ h))
]

-- A text without a line break is not changed.
replace_crlf-plain : (text : Text) → has_breaks text ≡ false → replace_crlf false text ≡ text
unfolding replace_crlf
replace_crlf-plain [] h = refl
replace_crlf-plain (c ∷ cs) h = elim (Bool-cases (c == cr)) [
  | inl is_cr ↦ absurd (cc (rw is_cr at h))
  | inr no_cr ↦ rw (replace_crlf, no_cr) (ap (λ z. c ∷ z) (replace_crlf-plain cs (or-right _ _ h)))
]

map-plain : (text : Text) → has_breaks text ≡ false → map without_cr text ≡ text
map-plain [] h = refl
map-plain (c ∷ cs) h = elim (Bool-cases (c == cr)) [
  | inl is_cr ↦ absurd (cc (rw is_cr at h))
  | inr no_cr ↦ rw no_cr (ap (λ z. c ∷ z) (map-plain cs (or-right _ _ h)))
]

pub normalize-plain : (text : Text) → has_breaks text ≡ false → normalize text ≡ text
unfolding normalize
normalize-plain text h = ap (map without_cr) (replace_crlf-plain text h) ∙ map-plain text h

-- A text with more behind it, cut at its end.
pub cut_cr-cons :
    (x : Text) (d : ℕ) (ds : Text)
    → cut_cr (x ++ d ∷ ds) ≡ (x ++ (cut_cr (d ∷ ds)).0, (cut_cr (d ∷ ds)).1)
unfolding cut_cr
cut_cr-cons [] d ds = refl
cut_cr-cons (c ∷ []) d ds = refl
cut_cr-cons (c ∷ e ∷ es) d ds = ap (λ p. (c ∷ p.0, p.1)) (cut_cr-cons (e ∷ es) d ds)

pub cut_cr-none : (x : Text) → ends_cr false x ≡ false → cut_cr x ≡ (x, [])
unfolding cut_cr
cut_cr-none [] h = refl
cut_cr-none (c ∷ []) h = rw (cut_cr, h) refl
cut_cr-none (c ∷ d ∷ ds) h = ap (λ p. (c ∷ p.0, p.1)) (cut_cr-none (d ∷ ds) h)

pub cut_cr-append :
    (x z : Text) → ends_cr false x ≡ false → cut_cr (x ++ z) ≡ (x ++ (cut_cr z).0, (cut_cr z).1)
unfolding cut_cr
cut_cr-append x [] h = rw (append-nil x) (cut_cr-none x h)
cut_cr-append x (d ∷ ds) h = cut_cr-cons x d ds

-- A buffer ends in a pending "\r" or it does not.
pub data Cut (buffer : Text) : Type 0 where
  whole : ends_cr false buffer ≡ false → Cut buffer
  pending : (x : Text) → buffer ≡ x ++ cr ∷ [] → Cut buffer

pub Cut-cases : (buffer : Text) → Cut buffer
Cut-cases [] = Cut.whole refl
Cut-cases (c ∷ []) = elim (Bool-cases (c == cr)) [
  | inl is_cr ↦ let same : c ≡ cr = ground arith in Cut.pending [] (ap (λ d. d ∷ []) same)
  | inr other ↦ Cut.whole other
]
Cut-cases (c ∷ d ∷ ds) = elim (Cut-cases (d ∷ ds)) [
  | Cut.whole h ↦ Cut.whole h
  | Cut.pending x e ↦ Cut.pending (c ∷ x) (ap (λ z. c ∷ z) e)
]
