-- ===== src/Tests/Streams.antt =====
-- A stream of two chunks that part a line break and a field, with a decoder of ASCII.
use blender_ai_sidebar.Prelude.{ℕ, ◌≡◌, refl, sym, ap, false, List, [], ◌∷◌, ◌++◌, Option, some}
use mathlib.Core.Option.{some-injective}
use blender_ai_sidebar.Agent.SseParser.{Text, cr, lf, fed, SseParser, feed, feeds}
use blender_ai_sidebar.Agent.SseParser.Chunks.{concat, IsFed, feeds-concat}

abbrev decode : Unit {0} → List ℕ → Option (Text × Unit {0})
decode d bytes = some (bytes, tt)

decode-incremental :
    (a b : List ℕ) (d e : Unit {0}) (text : Text)
    → decode d (a ++ b) ≡ some (text, e)
    → (t : Text) × ((u : Text) × ((d' : Unit {0}) × ((decode d a ≡ some (t, d'))
            × ((decode d' b ≡ some (u, e)) × (text ≡ t ++ u)))))
decode-incremental a b d e text h =
    (a, (b, (tt, (refl, (refl, ap (λ p. p.0) (sym (some-injective (a ++ b, tt) (text, e) h)))))))

-- "data: h" and "i", a line break that is cut in two, and the empty line.
abbrev chunks : List (List ℕ)
chunks =
    (100 ∷ 97 ∷ 116 ∷ 97 ∷ 58 ∷ 32 ∷ 104 ∷ []) ∷ (105 ∷ cr ∷ []) ∷ (lf ∷ cr ∷ lf ∷ 58 ∷ []) ∷ []

abbrev parser : SseParser (Unit {0})
parser = record { decoder = tt; buffer = []; pending = record { data_lines = []; is_done = false } }

-- One event, "hi", and ":" stays in the buffer.
one_event : (feed 100 decode (concat chunks) parser).0 ≡ fed ((104 ∷ 105 ∷ []) ∷ [])
unfolding feed
one_event = refl

raises_nothing : IsFed (feed 100 decode (concat chunks) parser)
unfolding feed
raises_nothing = tt

feeds-concat_example : feeds 100 decode chunks parser ≡ feed 100 decode (concat chunks) parser
feeds-concat_example = feeds-concat 100 decode decode-incremental chunks parser raises_nothing
