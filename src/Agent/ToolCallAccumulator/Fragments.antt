-- ===== src/Agent/ToolCallAccumulator/Fragments.antt =====
-- The calls that the accumulator has put together, by the fragments that it was fed.
use Prim.Native.String.{◌++◌ as append}
use text.Mathlib.TextLemmas.{append-nil, append_assoc, nil-append}
use blender_ai_sidebar.Prelude.{
  ℕ, ◌≡◌, ◌<◌, refl, sym, ap, ◌∙◌, arith, true, false, String, List, [], ◌∷◌, ◌==◌, nat_comparable,
  string_comparable, if◌then◌else◌, ltb, Bool-cases, inl, inr, All,
}
use blender_ai_sidebar.Agent.ToolCallAccumulator.{
  ToolCallDelta, AccumulatedCall, fragment, extend, feed_delta, feed_deltas,
}

-- The buffers of the call of an index, empty where there is no such call.
unfoldable pub texts_at : ℕ → List AccumulatedCall → String × String
texts_at index [] = ("", "")
texts_at index (c ∷ cs) =
    if c.index == index then (c.tool_name, c.arguments_buffer) else texts_at index cs

abbrev pub append_both : String × String → String × String → String × String
append_both p q = (append p.0 q.0, append p.1 q.1)

-- The fragments of a delta for an index, and those of a stream, joined in their order.
unfoldable pub own : ℕ → ToolCallDelta → String × String
own index d =
    if d.index == index then (fragment d.tool_name_delta, fragment d.arguments_delta) else ("", "")

unfoldable pub fragments_at : ℕ → List ToolCallDelta → String × String
fragments_at index [] = ("", "")
fragments_at index (d ∷ ds) = append_both (own index d) (fragments_at index ds)

-- The indices ascend, so that a lookup by index is unambiguous.
unfoldable pub IsAscending : List AccumulatedCall → Type 0
IsAscending [] = Unit
IsAscending (c ∷ cs) = All (λ (x : AccumulatedCall). c.index < x.index) cs × IsAscending cs

texts_at-above :
    (index : ℕ) (cs : List AccumulatedCall)
    → All (λ (x : AccumulatedCall). index < x.index) cs
    → texts_at index cs ≡ ("", "")
unfolding texts_at
texts_at-above index [] h = refl
texts_at-above index (c ∷ cs) h = rw (texts_at-above index cs h.1) (ground (arith, h.0))

both_nil : (p : String × String) → append_both p ("", "") ≡ p
both_nil p = λ i. (append-nil p.0 i, append-nil p.1 i)

above-All :
    (n : ℕ) (c : AccumulatedCall) (cs : List AccumulatedCall)
    → n < c.index
    → All (λ (x : AccumulatedCall). c.index < x.index) cs
    → All (λ (x : AccumulatedCall). n < x.index) cs
above-All n c [] h a = tt
above-All n c (x ∷ cs) h a = (omega (arith, h, a.0), above-All n c cs h a.1)

texts_at-feed_delta :
    (index : ℕ) (d : ToolCallDelta) (cs : List AccumulatedCall)
    → IsAscending cs
    → texts_at index (feed_delta d cs) ≡ append_both (texts_at index cs) (own index d)
unfolding texts_at feed_delta extend own IsAscending
texts_at-feed_delta index d [] h = elim (Bool-cases (d.index == index)) [
  | inl mine ↦ rw (mine, texts_at) refl
  | inr other ↦ rw (other, texts_at) refl
]
texts_at-feed_delta index d (c ∷ cs) h =
    let ih = texts_at-feed_delta index d cs h.1 in
    elim (Bool-cases (c.index == d.index)) [
      | inl same ↦ elim (Bool-cases (c.index == index)) [
        | inl mine ↦
            let also : (d.index == index) ≡ true = ground (arith, same, mine) in
            rw (same, feed_delta) (rw (mine, texts_at) (rw (also, own) refl))
        | inr other ↦
            let also : (d.index == index) ≡ false = ground (arith, same, other) in
            rw (same, feed_delta)
              (rw (other, texts_at) (rw (also, own) (sym (both_nil (texts_at index cs)))))
      ]
      | inr different ↦ elim (Bool-cases (ltb d.index c.index)) [
        | inl before ↦ elim (Bool-cases (d.index == index)) [
          | inl mine ↦
              let passed : (c.index == index) ≡ false = ground (arith, before, mine) in
              let all = above-All index c cs (ground (arith, before, mine)) h.0 in
              rw (different, feed_delta)
                (rw before (
                  rw (mine, texts_at)
                    (rw (passed, texts_at) (rw (texts_at-above index cs all) refl))))
          | inr other ↦
              rw (different, feed_delta)
                (rw before (rw (other, texts_at) (sym (both_nil (texts_at index (c ∷ cs))))))
        ]
        | inr behind ↦ elim (Bool-cases (c.index == index)) [
          | inl mine ↦
              let other : (d.index == index) ≡ false = ground (arith, different, mine) in
              rw (different, feed_delta)
                (rw behind (
                  rw (mine, texts_at)
                    (rw (other, own) (sym (both_nil (c.tool_name, c.arguments_buffer))))))
          | inr other ↦ rw (different, feed_delta) (rw behind (rw (other, texts_at) ih))
        ]
      ]
    ]

feed_delta-above :
    (n : ℕ) (d : ToolCallDelta) (cs : List AccumulatedCall)
    → n < d.index
    → All (λ (x : AccumulatedCall). n < x.index) cs
    → All (λ (x : AccumulatedCall). n < x.index) (feed_delta d cs)
unfolding feed_delta extend
feed_delta-above n d [] h a = (h, tt)
feed_delta-above n d (c ∷ cs) h a = elim (Bool-cases (c.index == d.index)) [
  | inl same ↦ rw (same, feed_delta) a
  | inr different ↦ elim (Bool-cases (ltb d.index c.index)) [
    | inl before ↦ rw (different, feed_delta) (rw before (h, a))
    | inr behind ↦ rw (different, feed_delta) (rw behind (a.0, feed_delta-above n d cs h a.1))
  ]
]

feed_delta-IsAscending :
    (d : ToolCallDelta) (cs : List AccumulatedCall) → IsAscending cs → IsAscending (feed_delta d cs)
unfolding feed_delta extend IsAscending
feed_delta-IsAscending d [] h = (tt, tt)
feed_delta-IsAscending d (c ∷ cs) h = elim (Bool-cases (c.index == d.index)) [
  | inl same ↦ rw (same, feed_delta) h
  | inr different ↦ elim (Bool-cases (ltb d.index c.index)) [
    | inl before ↦
        let less : d.index < c.index = ground (arith, before) in
        rw (different, feed_delta) (rw before ((less, above-All d.index c cs less h.0), h))
    | inr behind ↦
        rw (different, feed_delta)
          (rw behind (
            feed_delta-above c.index d cs (ground (arith, behind, different)) h.0,
            feed_delta-IsAscending d cs h.1,
          ))
  ]
]

both_assoc :
    (p q r : String × String) → append_both (append_both p q) r ≡ append_both p (append_both q r)
both_assoc p q r = λ i. (append_assoc p.0 q.0 r.0 i, append_assoc p.1 q.1 r.1 i)

feed_deltas-texts :
    (index : ℕ) (ds : List ToolCallDelta) (cs : List AccumulatedCall)
    → IsAscending cs
    → IsAscending (feed_deltas ds cs)
      × (texts_at index (feed_deltas ds cs)
          ≡ append_both (texts_at index cs) (fragments_at index ds))
unfolding feed_deltas fragments_at
feed_deltas-texts index [] cs h = (h, sym (both_nil (texts_at index cs)))
feed_deltas-texts index (d ∷ ds) cs h =
    let (ascending, rest) =
      feed_deltas-texts index ds (feed_delta d cs) (feed_delta-IsAscending d cs h) in
    (
      ascending,
      rest
          ∙ ap (λ p. append_both p (fragments_at index ds)) (texts_at-feed_delta index d cs h)
          ∙ both_assoc (texts_at index cs) (own index d) (fragments_at index ds),
    )

-- However the fragments of several calls interleave, after any stream the calls stand by ascending
-- index, one for each, and the name and the argument text of the call of an index are the fragments
-- of this index, joined in the order of their arrival.
pub feed_deltas-fragments :
    (index : ℕ) (ds : List ToolCallDelta)
    → IsAscending (feed_deltas ds []) × (texts_at index (feed_deltas ds []) ≡ fragments_at index ds)
unfolding texts_at IsAscending
feed_deltas-fragments index ds =
    let (ascending, same) = feed_deltas-texts index ds [] tt in
    (
      ascending,
      same ∙ λ i. (nil-append (fragments_at index ds).0 i, nil-append (fragments_at index ds).1 i),
    )
