-- ===== src/Agent/Memory/Builtins.antt =====
-- What agent/memory.py uses of Python's builtins and of its json module, and the texts of messages.
use blender_ai_sidebar.Prelude.{
  ℕ, zero, suc, Bool, false, ◌||◌, String, List, [], ◌∷◌, Option, none, some, ◌==◌, nat_comparable,
  string_comparable,
}
use blender_ai_sidebar.Core.Json.{Value, Fields}
use blender_ai_sidebar.Core.TextParts.{includes}
use blender_ai_sidebar.Agent.Models.{Content, plain, dumped}

-- `none` stands for an exception. `dumps` is json.dumps with ensure_ascii=False, `dumps_ascii` the
-- same without it, `show` is str(), `rounded` is round(float(v), 2), and the sorts are those of
-- `sorted` on values, on the items of a dictionary by values and on those of one by texts.
pub record Builtins : Type 0 where
  pub dumps : Value → String
  pub dumps_ascii : Fields → String
  pub loads : String → Option Value
  pub show : Value → String
  pub lower : String → String
  pub rounded : Value → Option Value
  pub sorted_values : List Value → Option (List Value)
  pub sorted_items : List (Value × Fields) → Option (List (Value × Fields))
  pub sorted_fields : Fields → List (String × Value)

infixl 5 ◌>>=◌
abbrev pub ◌>>=◌ {ℓ κ} : {A : Type ℓ} → {B : Type κ} → Option A → (A → Option B) → Option B
none >>= f = none
some a >>= f = f a

-- `v == "..."`
abbrev pub is_text : String → Value → Bool
is_text s (Value.text t) = t == s
is_text s _ = false

-- `v in ("...", ...)`
unfoldable pub is_one_of : List String → Value → Bool
is_one_of [] v = false
is_one_of (s ∷ ss) v = is_text s v || is_one_of ss v

module _ (py : Builtins) where
  abbrev pub text_of : Content → String
  text_of (plain s) = s
  text_of (dumped v) = py.dumps v

  -- `part in content`, which is tested behind `content and`.
  abbrev pub mentions : String → Option Content → Bool
  mentions part none = false
  mentions part (some c) = includes part (text_of c)

  -- `[round(float(v), 2) for v in vs[:n]]`
  unfoldable pub rounded_first : ℕ → List Value → Option (List Value)
  rounded_first n [] = some []
  rounded_first zero (v ∷ vs) = some []
  rounded_first (suc n) (v ∷ vs) = elim (py.rounded v) [
    | none ↦ none
    | some w ↦ elim (rounded_first n vs) [ none ↦ none | some ws ↦ some (w ∷ ws) ]
  ]
