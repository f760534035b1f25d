-- ===== src/Agent/SseParser/Chunks.antt =====
-- The parser does not depend on how the stream is cut into chunks.
use blender_ai_sidebar.Prelude.{
  ℕ, ◌+◌, ◌≡◌, ◌≤◌, refl, sym, ap, subst, ◌∙◌, arith, true, false, List, [], ◌∷◌, ◌++◌, append-nil,
  append_assoc, Option, none, some, Option-cases, Bool-cases, inl, inr, length, ltb, length-append,
}
use blender_ai_sidebar.Agent.SseParser.{
  Text, Fed, fed, failed, SseParser, prepend, and_then, process_line, process_lines, extract_lines,
  feed_text, feed, feeds, Pending, with_rest,
}
use blender_ai_sidebar.Agent.SseParser.Extract.{resumed, extract_lines-append, length-extract_lines}

-- The bytes of all chunks.
abbrev pub concat : List (List ℕ) → List ℕ
concat [] = []
concat (chunk ∷ chunks) = chunk ++ concat chunks

module _ {S : Type 0} where
  prepend-prepend :
      (es fs : List Text) (p : Fed × S) → prepend es (prepend fs p) ≡ prepend (es ++ fs) p
  prepend-prepend es fs (fed gs, s) = ap (λ hs. (fed hs, s)) (sym (append_assoc es fs gs))
  prepend-prepend es fs (failed e, s) = refl

  prepend-and_then :
      (es : List Text) (p : Fed × S) (k : S → Fed × S)
      → and_then (prepend es p) k ≡ prepend es (and_then p k)
  prepend-and_then es (fed fs, s) k = sym (prepend-prepend es fs (k s))
  prepend-and_then es (failed e, s) k = refl

  prepend-nil : (p : Fed × S) → prepend [] p ≡ p
  prepend-nil (fed fs, s) = refl
  prepend-nil (failed e, s) = refl

  and_then_assoc :
      (p : Fed × S) (k j : S → Fed × S)
      → and_then (and_then p k) j ≡ and_then p (λ s. and_then (k s) j)
  and_then_assoc (fed es, s) k j = prepend-and_then es (k s) j
  and_then_assoc (failed e, s) k j = refl

and_then-same :
    {S : Type 0} (x : Fed × S) (k j : S → Fed × S) → k x.1 ≡ j x.1 → and_then x k ≡ and_then x j
and_then-same (fed es, s) k j h = ap (prepend es) h
and_then-same (failed e, s) k j h = refl

and_then-nothing : {S : Type 0} (x : Fed × S) → and_then x (λ s. (fed [], s)) ≡ x
and_then-nothing (fed es, s) = ap (λ fs. (fed fs, s)) (append-nil es)
and_then-nothing (failed e, s) = refl

-- The call raised nothing.
abbrev pub IsFed : {S : Type 0} → Fed × S → Type 0
IsFed (fed es, s) = Unit {0}
IsFed (failed e, s) = ⊥

process_lines-append :
    (max : ℕ) (xs ys : List Text) (p : Pending)
    → process_lines max (xs ++ ys) p ≡ and_then (process_lines max xs p) (process_lines max ys)
unfolding process_lines
process_lines-append max [] ys p = sym (prepend-nil (process_lines max ys p))
process_lines-append max (x ∷ xs) ys p =
    ap (and_then (process_line max x p)) (λ i. λ q. process_lines-append max xs ys q i)
    ∙ sym (and_then_assoc (process_line max x p) (process_lines max xs) (process_lines max ys))

prepend-IsFed : {S : Type 0} (es : List Text) (x : Fed × S) → IsFed (prepend es x) → IsFed x
prepend-IsFed es (fed fs, s) h = h
prepend-IsFed es (failed e, s) h = h

and_then-fed :
    {S : Type 0} (x : Fed × S) (k j : S → Fed × S)
    → (IsFed (k x.1) → j x.1 ≡ k x.1)
    → IsFed (and_then x k)
    → and_then x j ≡ and_then x k
and_then-fed (fed es, s) k j h success = ap (prepend es) (h (prepend-IsFed es (k s) success))
and_then-fed (failed e, s) k j h success = refl

fits-below : (max m n : ℕ) → ltb max n ≡ false → m ≤ n → ltb max m ≡ false
fits-below max m n h below = ground arith

module _ {D : Type 0} (max : ℕ) where
  prepend-with_rest :
      (es : List Text) (d : D) (rest : Text) (x : Fed × Pending)
      → prepend es (with_rest max d rest x) ≡ with_rest max d rest (prepend es x)
  prepend-with_rest es d rest (fed fs, p) = refl
  prepend-with_rest es d rest (failed e, p) = refl

  feed_text-fits :
      (text : Text) (d : D) (s : SseParser D)
      → ltb max (length (s.buffer ++ text)) ≡ false
      → feed_text max text d s
        ≡ with_rest max d
            (extract_lines (s.buffer ++ text)).1
            (process_lines max (extract_lines (s.buffer ++ text)).0 s.pending)
  unfolding feed_text
  feed_text-fits text d s fits = rw (feed_text, fits) refl

  feed_text-decoder :
      (text : Text) (d : D) (s : SseParser D) → (feed_text max text d s).1.decoder ≡ d
  unfolding feed_text
  feed_text-decoder text d s = elim (Bool-cases (ltb max (length (s.buffer ++ text)))) [
    | inl large ↦ rw (feed_text, large) refl
    | inr fits ↦ rw (feed_text, fits) refl
  ]

  too_large :
      (text : Text) (d : D) (s : SseParser D)
      → ltb max (length (s.buffer ++ text)) ≡ true
      → IsFed (feed_text max text d s)
      → ⊥
  unfolding feed_text
  too_large text d s large success = rw (feed_text, large) at success

  with_rest-IsFed :
      (d : D) (rest : Text) (x : Fed × Pending) → IsFed (with_rest max d rest x) → IsFed x
  with_rest-IsFed d rest (fed es, p) h = h
  with_rest-IsFed d rest (failed e, p) h = h

  resume :
      (t u : Text) (d e : D) (s : SseParser D) (x : Fed × Pending)
      → ltb max (length ((extract_lines (s.buffer ++ t)).1 ++ u)) ≡ false
      → IsFed (
          and_then x (process_lines max (extract_lines ((extract_lines (s.buffer ++ t)).1 ++ u)).0))
      → and_then (with_rest max d (extract_lines (s.buffer ++ t)).1 x) (feed_text max u e)
        ≡ with_rest max e (extract_lines ((extract_lines (s.buffer ++ t)).1 ++ u)).1 (
            and_then x
              (process_lines max (extract_lines ((extract_lines (s.buffer ++ t)).1 ++ u)).0))
  resume t u d e s (fed es, p) fits success =
      ap (prepend es) (feed_text-fits u e _ fits) ∙ prepend-with_rest es e _ _
  resume t u d e s (failed err, p) fits success = absurd success

  module _ (t u : Text) (d e : D) (s : SseParser D) where
    fits-first :
        ltb max (length (s.buffer ++ (t ++ u))) ≡ false → ltb max (length (s.buffer ++ t)) ≡ false
    fits-first h = fits-below max _ _ h (
        rw (length-append s.buffer (t ++ u), length-append t u, length-append s.buffer t)
          (omega arith))

    fits-then :
        ltb max (length (s.buffer ++ (t ++ u))) ≡ false
        → ltb max (length ((extract_lines (s.buffer ++ t)).1 ++ u)) ≡ false
    fits-then h =
        let shorter : length (extract_lines (s.buffer ++ t)).1 ≤ length s.buffer + length t =
          subst (λ n. length (extract_lines (s.buffer ++ t)).1 ≤ n) (length-append s.buffer t)
            (length-extract_lines (s.buffer ++ t)) in
        fits-below max _ _ h (
          rw
            (
              length-append s.buffer (t ++ u),
              length-append t u,
              length-append (extract_lines (s.buffer ++ t)).1 u,
            )
            (omega arith))

    -- Two texts, one after the other, are fed like both at once, unless that raises.
    feed_text-append :
        IsFed (feed_text max (t ++ u) e s)
        → and_then (feed_text max t d s) (feed_text max u e) ≡ feed_text max (t ++ u) e s
    feed_text-append success = elim (Bool-cases (ltb max (length (s.buffer ++ (t ++ u))))) [
      | inl large ↦ absurd (too_large (t ++ u) e s large success)
      | inr fits ↦
          let first = feed_text-fits t d s (fits-first fits) in
          let both = feed_text-fits (t ++ u) e s fits in
          let lines : extract_lines (s.buffer ++ (t ++ u))
              ≡ resumed (extract_lines (s.buffer ++ t)) u =
            ap extract_lines (sym (append_assoc s.buffer t u))
            ∙ extract_lines-append (s.buffer ++ t) u in
          let together =
            both
            ∙ ap (λ p. with_rest max e p.1 (process_lines max p.0 s.pending)) lines
            ∙ ap (with_rest max e _) (process_lines-append max _ _ s.pending) in
          ap (λ x. and_then x (feed_text max u e)) first
          ∙ resume t u d e s _ (fits-then fits)
              (with_rest-IsFed e _ _ (subst IsFed together success))
          ∙ sym together
    ]

  -- An incremental decoder: a chunk that it decodes, it decodes also in two parts.
  module _ (decode : D → List ℕ → Option (Text × D))
      (incremental : (a b : List ℕ) (d e : D) (text : Text)
        → decode d (a ++ b) ≡ some (text, e)
        → (t : Text) × ((u : Text) × ((d' : D) × ((decode d a ≡ some (t, d'))
                × ((decode d' b ≡ some (u, e)) × (text ≡ t ++ u)))))) where
    feed-decoded :
        (c : ℕ) (cs : List ℕ) (s : SseParser D) (text : Text) (d : D)
        → decode s.decoder (c ∷ cs) ≡ some (text, d)
        → feed max decode (c ∷ cs) s ≡ feed_text max text d s
    unfolding feed
    feed-decoded c cs s text d h = rw (feed, h) refl

    feed-invalid :
        (c : ℕ) (cs : List ℕ) (s : SseParser D)
        → decode s.decoder (c ∷ cs) ≡ none
        → IsFed (feed max decode (c ∷ cs) s)
        → ⊥
    unfolding feed
    feed-invalid c cs s h success = rw (feed, h) at success

    in_parts :
        (c : ℕ) (cs : List ℕ) (b : ℕ) (bs : List ℕ) (s : SseParser D) (text : Text) (e : D)
        → decode s.decoder (c ∷ (cs ++ b ∷ bs)) ≡ some (text, e)
        → IsFed (feed max decode (c ∷ (cs ++ b ∷ bs)) s)
        → and_then (feed max decode (c ∷ cs) s) (feed max decode (b ∷ bs))
          ≡ feed max decode (c ∷ (cs ++ b ∷ bs)) s
    in_parts c cs b bs s text e good success =
        let (t, (u, (d, (first, (second, both))))) =
          incremental (c ∷ cs) (b ∷ bs) s.decoder e text good in
        let whole : feed max decode (c ∷ (cs ++ b ∷ bs)) s ≡ feed_text max (t ++ u) e s =
          feed-decoded c (cs ++ b ∷ bs) s text e good ∙ ap (λ x. feed_text max x e s) both in
        let after = feed_text max t d s in
        ap (λ x. and_then x (feed max decode (b ∷ bs))) (feed-decoded c cs s t d first)
        ∙ and_then-same after (feed max decode (b ∷ bs)) (feed_text max u e) (
            feed-decoded b bs after.1 u e
              (ap (λ x. decode x (b ∷ bs)) (feed_text-decoder t d s) ∙ second))
        ∙ feed_text-append t u d e s (subst IsFed whole success)
        ∙ sym whole

    feed-append :
        (a b : List ℕ) (s : SseParser D)
        → IsFed (feed max decode (a ++ b) s)
        → and_then (feed max decode a s) (feed max decode b) ≡ feed max decode (a ++ b) s
    unfolding feed
    feed-append [] b s success = prepend-nil (feed max decode b s)
    feed-append (c ∷ cs) [] s success =
        and_then-nothing (feed max decode (c ∷ cs) s)
        ∙ ap (λ a. feed max decode a s) (sym (append-nil (c ∷ cs)))
    feed-append (c ∷ cs) (b ∷ bs) s success =
        elim (Option-cases (decode s.decoder (c ∷ (cs ++ b ∷ bs)))) [
          | inl bad ↦ absurd (feed-invalid c (cs ++ b ∷ bs) s bad success)
          | inr ((text, e), good) ↦ in_parts c cs b bs s text e good success
        ]

    -- With an incremental decoder the chunks of a stream, fed one after the other, give the
    -- payloads, and leave the parser in the state, that the whole stream fed at once gives, unless
    -- the latter raises.
    pub feeds-concat :
        (chunks : List (List ℕ)) (s : SseParser D)
        → IsFed (feed max decode (concat chunks) s)
        → feeds max decode chunks s ≡ feed max decode (concat chunks) s
    unfolding feeds feed
    feeds-concat [] s success = refl
    feeds-concat (chunk ∷ chunks) s success =
        let whole = feed-append chunk (concat chunks) s success in
        let part = feed max decode chunk s in
        and_then-fed part (feed max decode (concat chunks)) (feeds max decode chunks)
          (λ fine. feeds-concat chunks part.1 fine) (subst IsFed (sym whole) success)
        ∙ whole
