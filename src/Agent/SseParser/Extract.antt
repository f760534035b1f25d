-- ===== src/Agent/SseParser/Extract.antt =====
-- _extract_lines: the lines of a buffer and then those of its rest with more text are the lines of
-- all of it.
use blender_ai_sidebar.Prelude.{
  ℕ, suc, ◌+◌, ◌≡◌, ◌≤◌, refl, sym, ap, ◌∙◌, arith, Bool, true, false, ◌&&◌, List, [], ◌∷◌, ◌++◌,
  map, append-nil, append_assoc, ◌==◌, nat_comparable, Bool-cases, inl, inr, length, if◌then◌else◌,
  length-append,
}
use blender_ai_sidebar.Agent.SseParser.{
  Text, cr, lf, replace_crlf, without_cr, normalize, add_char, split_lines, cut_cr, extract_lines,
}
use blender_ai_sidebar.Agent.SseParser.Lines.{
  ends_cr, starts_lf, has_breaks, Cut, Cut-cases, cut_cr-append, cut_cr-cons, cut_cr-none,
  normalize-append, normalize-plain, split-append, split_lines-has_breaks, map-has_cr,
  has_breaks-ends_cr,
}

-- The text that follows the last line of `x`.
abbrev rest : Text → Text
rest x = (split_lines (normalize x)).1

rest-has_breaks : (x : Text) → has_breaks (rest x) ≡ false
unfolding normalize
rest-has_breaks x = split_lines-has_breaks (normalize x) (map-has_cr (replace_crlf false x))

abbrev extracted : Text → Text → List Text × Text
extracted body pending =
    ((split_lines (normalize body)).0, (split_lines (normalize body)).1 ++ pending)

extract-cut :
    (buffer body pending : Text)
    → cut_cr buffer ≡ (body, pending)
    → extract_lines buffer ≡ extracted body pending
unfolding extract_lines
extract-cut buffer body pending h = rw (extract_lines, h) refl

-- The lines of `buffer` and then those of what it leaves with `text` behind it.
abbrev pub resumed : List Text × Text → Text → List Text × Text
resumed p text = (p.0 ++ (extract_lines (p.1 ++ text)).0, (extract_lines (p.1 ++ text)).1)

split-normalized :
    (x y : Text)
    → (ends_cr false x && starts_lf y) ≡ false
    → split_lines (normalize (x ++ y)) ≡ (
      (split_lines (normalize x)).0 ++ (split_lines (normalize (rest x ++ y))).0,
      (split_lines (normalize (rest x ++ y))).1,
    )
split-normalized x y h =
    let plain = rest-has_breaks x in
    let bare : normalize (rest x ++ y) ≡ rest x ++ normalize y =
      normalize-append (rest x) y (rw (has_breaks-ends_cr (rest x) plain) refl)
      ∙ ap (λ z. z ++ normalize y) (normalize-plain (rest x) plain) in
    rw (normalize-append x y h, bare) (split-append (normalize x) (normalize y))

extract-step :
    (x z : Text)
    → cut_cr (x ++ z) ≡ (x ++ (cut_cr z).0, (cut_cr z).1)
    → (ends_cr false x && starts_lf (cut_cr z).0) ≡ false
    → extract_lines (x ++ z) ≡ (
      (split_lines (normalize x)).0 ++ (extract_lines (rest x ++ z)).0,
      (extract_lines (rest x ++ z)).1,
    )
extract-step x z cut apart =
    let later : extract_lines (rest x ++ z) ≡ extracted (rest x ++ (cut_cr z).0) (cut_cr z).1 =
      extract-cut (rest x ++ z) (rest x ++ (cut_cr z).0) (cut_cr z).1
        (cut_cr-append (rest x) z (has_breaks-ends_cr (rest x) (rest-has_breaks x))) in
    extract-cut (x ++ z) (x ++ (cut_cr z).0) (cut_cr z).1 cut
    ∙ rw (later) (ap (λ p. (p.0, p.1 ++ (cut_cr z).1)) (split-normalized x (cut_cr z).0 apart))

cut_cr-starts : (text : Text) → starts_lf (cut_cr (cr ∷ text)).0 ≡ false
unfolding cut_cr
cut_cr-starts [] = refl
cut_cr-starts (d ∷ ds) = refl

and_false : (a b : Bool) → b ≡ false → (a && b) ≡ false
and_false false b h = refl
and_false true b h = h

cut_cr-pending : (x : Text) → cut_cr (x ++ cr ∷ []) ≡ (x, cr ∷ [])
unfolding cut_cr
cut_cr-pending x = cut_cr-cons x cr [] ∙ ap (λ z. (z, cr ∷ [])) (append-nil x)

-- The lines of a buffer with more text are those of the buffer and those of what it leaves with the
-- text behind it, and the new buffer is the same.
pub extract_lines-append :
    (buffer text : Text) → extract_lines (buffer ++ text) ≡ resumed (extract_lines buffer) text
extract_lines-append buffer text = elim (Cut-cases buffer) [
  | Cut.whole h ↦
      extract-step buffer text (cut_cr-append buffer text h) (rw h refl)
      ∙ sym (
          ap (λ p. resumed p text) (extract-cut buffer buffer [] (cut_cr-none buffer h))
          ∙ rw (append-nil (rest buffer)) refl)
  | Cut.pending x e ↦ rw e (
      ap extract_lines (append_assoc x (cr ∷ []) text)
      ∙ extract-step x (cr ∷ text) (cut_cr-cons x cr text)
          (and_false (ends_cr false x) _ (cut_cr-starts text))
      ∙ sym (
          ap (λ p. resumed p text) (extract-cut (x ++ cr ∷ []) x (cr ∷ []) (cut_cr-pending x))
          ∙ rw (append_assoc (rest x) (cr ∷ []) text) refl))
]

length-replace_crlf :
    (flag : Bool) (text : Text)
    → length (replace_crlf flag text) ≤ (if flag then 1 else 0) + length text
unfolding replace_crlf
length-replace_crlf false [] = omega arith
length-replace_crlf true [] = omega arith
length-replace_crlf false (c ∷ cs) = elim (Bool-cases (c == cr)) [
  | inl is_cr ↦ rw (replace_crlf, is_cr) (let shorter = length-replace_crlf true cs in omega arith)
  | inr other ↦ rw (replace_crlf, other) (let shorter = length-replace_crlf false cs in omega arith)
]
length-replace_crlf true (c ∷ cs) =
    let shorter = length-replace_crlf false cs in
    let ended = length-replace_crlf true cs in
    elim (Bool-cases (c == lf)) [
      | inl is_lf ↦ rw (replace_crlf, is_lf) (omega arith)
      | inr more ↦ elim (Bool-cases (c == cr)) [
        | inl is_cr ↦ rw (replace_crlf, more, is_cr) (omega arith)
        | inr other ↦ rw (replace_crlf, more, other) (omega arith)
      ]
    ]

length-without_cr : (text : Text) → length (map without_cr text) ≡ length text
length-without_cr [] = refl
length-without_cr (c ∷ cs) = ap suc (length-without_cr cs)

length-add_char : (c : ℕ) (p : List Text × Text) → length (add_char c p).1 ≤ suc (length p.1)
length-add_char c ([], after) = omega arith
length-add_char c (line ∷ lines, after) = omega arith

length-split_lines : (text : Text) → length (split_lines text).1 ≤ length text
unfolding split_lines
length-split_lines [] = omega arith
length-split_lines (c ∷ cs) =
    let shorter = length-split_lines cs in
    elim (Bool-cases (c == lf)) [
      | inl is_lf ↦ rw (split_lines, is_lf) (omega arith)
      | inr other ↦
          let longer = length-add_char c (split_lines cs) in rw (split_lines, other) (omega arith)
    ]

length-rest : (x : Text) → length (rest x) ≤ length x
unfolding normalize
length-rest x =
    let a = length-split_lines (map without_cr (replace_crlf false x)) in
    let b = length-without_cr (replace_crlf false x) in
    let d = length-replace_crlf false x in omega arith

-- The buffer does not grow by the extraction.
pub length-extract_lines : (buffer : Text) → length (extract_lines buffer).1 ≤ length buffer
length-extract_lines buffer = elim (Cut-cases buffer) [
  | Cut.whole h ↦
      rw (extract-cut buffer buffer [] (cut_cr-none buffer h), append-nil (rest buffer))
        (length-rest buffer)
  | Cut.pending x e ↦
      let shorter = length-rest x in
      rw
        (
          e,
          extract-cut (x ++ cr ∷ []) x (cr ∷ []) (cut_cr-pending x),
          length-append x (cr ∷ []),
          length-append (rest x) (cr ∷ []),
        )
        (omega arith)
]
