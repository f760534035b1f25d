-- ===== src/Plan/Validator/Parsing.antt =====
-- What the loop over the raw steps keeps: the parsed steps have distinct ids, their texts are
-- stripped, and none of them is a nested plan.
use blender_ai_sidebar.Prelude.{
  ℕ, suc, ◌+◌, ◌≤◌, false, String, List, [], ◌∷◌, ◌++◌, Option, none, some, ◌==◌, nat_comparable,
  string_comparable, length, contains, ◌≡◌, refl, arith, eq_iff, IsDistinct, count, count-append,
  contains-eq_false, Bool-cases, Option-cases, inl, inr, All, All-append, ap, ◌≢◌, length-append,
  subst, ◌⊎◌, append-eq_nil, sym, ◌∙◌,
}
use blender_ai_sidebar.Core.Text.{strip, is_blank, strip_idem}
use blender_ai_sidebar.Core.Json.{Value, Fields, get, items}
use blender_ai_sidebar.Plan.Models.{PlanStep}
use blender_ai_sidebar.Plan.Validator.{
  PlanError, Parsed, ids, add_error, clean_text, text_at, clean_deps, read_deps, add_step,
  read_arguments, parse_arguments, parse_tool, parse_step, parse_steps,
}

-- A text that is stripped and not empty.
pub record IsClean (s : String) : Type 0 where
  pub stripped : strip s ≡ s
  pub not_blank : is_blank s ≡ false

pub record IsCleanStep (s : PlanStep) : Type 0 where
  pub clean_id : IsClean s.step_id
  pub clean_tool : IsClean s.tool_name
  pub clean_deps_of : All IsClean s.depends_on
  pub not_nested : s.tool_name ≢ "propose_plan"

strip-IsClean : (s : String) → is_blank s ≡ false → IsClean (strip s)
strip-IsClean s h = record { stripped = strip_idem s; not_blank = rw (strip_idem s) h }

clean_text-IsClean : (o : Option Value) {t : String} → clean_text o ≡ some t → IsClean t
unfolding clean_text
clean_text-IsClean (some (Value.text u)) {t} h = elim (Bool-cases (is_blank u)) [
  | inl blank ↦ cc (rw blank at h)
  | inr solid ↦
      let same : strip u ≡ t = cc (rw solid at h) in subst IsClean same (strip-IsClean u solid)
]
clean_text-IsClean _ h = cc

pub text_at-IsClean : (key : String) (d : Fields) {t : String} → text_at key d ≡ some t → IsClean t
unfolding text_at
text_at-IsClean key d h = clean_text-IsClean (get key d) h

clean_deps-IsClean : (step_id : String) (vs : List Value) → All IsClean (clean_deps step_id vs).0
unfolding clean_deps
clean_deps-IsClean step_id [] = tt
clean_deps-IsClean step_id (Value.text d ∷ vs) = elim (Bool-cases (is_blank d)) [
  | inl blank ↦ rw blank (clean_deps-IsClean step_id vs)
  | inr solid ↦ rw solid (strip-IsClean d solid, clean_deps-IsClean step_id vs)
]
clean_deps-IsClean step_id (_ ∷ vs) = clean_deps-IsClean step_id vs

read_deps-IsClean : (step_id : String) (o : Option Value) → All IsClean (read_deps step_id o).0
unfolding read_deps
read_deps-IsClean step_id (some (Value.array vs)) = clean_deps-IsClean step_id (items vs)
read_deps-IsClean step_id none = tt
read_deps-IsClean step_id _ = tt

-- A loop body adds one clean step with a new id, or none, and keeps the errors that are there.
abbrev pub Grows : Parsed → Parsed → Type 0
Grows p q =
    ((q.parsed_steps ≡ p.parsed_steps)
      ⊎ ((s : PlanStep) × (q.parsed_steps ≡ p.parsed_steps ++ s ∷ [])
          × IsCleanStep s
          × (contains s.step_id (ids p.parsed_steps) ≡ false)))
    × ((es : List PlanError) × (q.errors ≡ p.errors ++ es))

module _ (idx : ℕ) (step_id : String) (d : Fields) (p : Parsed) (clean : IsClean step_id)
    (new : contains step_id (ids p.parsed_steps) ≡ false) where
  add_step-Grows :
      (tool_name : String) (arguments : Fields)
      → IsClean tool_name
      → tool_name ≢ "propose_plan"
      → Grows p (add_step idx step_id tool_name arguments d p)
  unfolding add_step
  add_step-Grows tool_name arguments ct ne = (
    inr (
      _,
      refl,
      record {
        clean_id = clean;
        clean_tool = ct;
        clean_deps_of = read_deps-IsClean step_id (get "depends_on" d);
        not_nested = ne;
      },
      new,
    ),
    (_, refl),
  )

  parse_arguments-Grows :
      (tool_name : String)
      → IsClean tool_name
      → tool_name ≢ "propose_plan"
      → Grows p (parse_arguments idx step_id tool_name d p)
  unfolding parse_arguments
  parse_arguments-Grows tool_name ct ne =
      elim (read_arguments (get "arguments" d))
        as (λ o. Grows p (elim o [
          | none ↦ add_error (PlanError.arguments_not_dict step_id) p
          | some arguments ↦ add_step idx step_id tool_name arguments d p
        ])) [
          | none ↦ (inl refl, (_, refl))
          | some arguments ↦ add_step-Grows tool_name arguments ct ne
        ]

  parse_tool-Grows : Grows p (parse_tool idx step_id d p)
  unfolding parse_tool
  parse_tool-Grows = elim (Option-cases (text_at "tool_name" d)) [
    | inl missing ↦ rw (missing, parse_tool) (inl refl, (_, refl))
    | inr (t, found) ↦
        rw (found, parse_tool)
          (elim (Bool-cases (t == "propose_plan")) [
            | inl nested ↦ rw nested (inl refl, (_, refl))
            | inr other ↦ rw other (
                parse_arguments-Grows t (text_at-IsClean "tool_name" d found)
                  λ e. cc ((eq_iff t "propose_plan").1 e))
          ])
  ]

parse_step-Grows : (idx : ℕ) (v : Value) (p : Parsed) → Grows p (parse_step idx v p)
unfolding parse_step
parse_step-Grows idx (Value.object d) p = elim (Option-cases (text_at "step_id" d)) [
  | inl missing ↦ rw (missing, parse_step) (inl refl, (_, refl))
  | inr (t, found) ↦
      rw (found, parse_step)
        (elim (Bool-cases (contains t (ids p.parsed_steps))) [
          | inl old ↦ rw old (inl refl, (_, refl))
          | inr new ↦ rw new (parse_tool-Grows idx t d p (text_at-IsClean "step_id" d found) new)
        ])
]
parse_step-Grows idx _ p = (inl refl, (_, refl))

pub record IsWellParsed (p : Parsed) : Type 0 where
  pub distinct : IsDistinct (ids p.parsed_steps)
  pub clean_steps : All IsCleanStep p.parsed_steps

map-append_one :
    (steps : List PlanStep) (s : PlanStep) → ids (steps ++ s ∷ []) ≡ ids steps ++ s.step_id ∷ []
map-append_one [] s = refl
map-append_one (x ∷ steps) s = ap (λ l. x.step_id ∷ l) (map-append_one steps s)

snoc-IsDistinct :
    (xs : List String) (x : String)
    → contains x xs ≡ false
    → IsDistinct xs
    → IsDistinct (xs ++ x ∷ [])
unfolding count
snoc-IsDistinct xs x new h s =
    ground (arith, h s, count-append s xs (x ∷ []), contains-eq_false x xs new, eq_iff x s)

Grows-IsWellParsed : (p q : Parsed) → Grows p q → IsWellParsed p → IsWellParsed q
Grows-IsWellParsed p q (inl same, _) w = record {
  distinct = rw same w.distinct;
  clean_steps = rw same w.clean_steps;
}
Grows-IsWellParsed p q (inr (s, grown, clean, new), _) w = record {
  distinct = rw grown (
      rw (map-append_one p.parsed_steps s)
        (snoc-IsDistinct (ids p.parsed_steps) s.step_id new w.distinct));
  clean_steps = rw grown (All-append IsCleanStep p.parsed_steps (s ∷ []) w.clean_steps (clean, tt));
}

Grows-length : (p q : Parsed) → Grows p q → length q.parsed_steps ≤ length p.parsed_steps + 1
Grows-length p q (inl same, _) = rw same (omega arith)
Grows-length p q (inr (s, grown, clean, new), _) =
    rw grown (omega (arith, length-append p.parsed_steps (s ∷ [])))

pub parse_steps-IsWellParsed :
    (idx : ℕ) (vs : List Value) (p : Parsed) → IsWellParsed p → IsWellParsed (parse_steps idx vs p)
unfolding parse_steps
parse_steps-IsWellParsed idx [] p w = w
parse_steps-IsWellParsed idx (v ∷ vs) p w =
    parse_steps-IsWellParsed (suc idx) vs (parse_step idx v p)
      (Grows-IsWellParsed p (parse_step idx v p) (parse_step-Grows idx v p) w)

pub parse_steps-length :
    (idx : ℕ) (vs : List Value) (p : Parsed)
    → length (parse_steps idx vs p).parsed_steps ≤ length p.parsed_steps + length vs
unfolding parse_steps
parse_steps-length idx [] p = omega arith
parse_steps-length idx (v ∷ vs) p = omega (
  arith,
  parse_steps-length (suc idx) vs (parse_step idx v p),
  Grows-length p (parse_step idx v p) (parse_step-Grows idx v p),
)

-- Without errors after the loop there were none before it.
pub parse_steps-errors :
    (idx : ℕ) (vs : List Value) (p : Parsed) → (parse_steps idx vs p).errors ≡ [] → p.errors ≡ []
unfolding parse_steps
parse_steps-errors idx [] p h = h
parse_steps-errors idx (v ∷ vs) p h =
    let (es, e) = (parse_step-Grows idx v p).1 in
    (append-eq_nil p.errors es (sym e ∙ parse_steps-errors (suc idx) vs (parse_step idx v p) h)).0
