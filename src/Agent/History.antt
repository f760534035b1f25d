-- ===== src/Agent/History.antt =====
-- agent/history.py: the bounded history of a session. Times are left out.
pub mod Recent
use blender_ai_sidebar.Prelude.{
  ℕ, zero, suc, ◌-◌, ◌≤◌, ◌≡◌, refl, sym, ap, ◌∙◌, arith, String, List, [], ◌∷◌, ◌++◌, map, Option,
  none, some, ◌==◌, string_comparable, if◌then◌else◌, length, length-append, length-map,
  length-drop, drop, ltb, Bool-cases, inl, inr,
}

pub data HistoryKind : Type 0 where
  user assistant tool system error : HistoryKind

pub record HistoryItem : Type 0 where
  pub item_id : String
  pub turn_id : String
  pub kind : HistoryKind
  pub title : String
  pub status : String
  pub summary : String
  pub detail : String

pub record RuntimeHistory : Type 0 where
  pub max_items : ℕ
  pub items : List HistoryItem

-- A limit below 1 counts as 1.
unfoldable pub new_history : ℕ → RuntimeHistory
new_history max_items = record { max_items = if ltb max_items 1 then 1 else max_items; items = [] }

-- `a or b` on texts.
abbrev pub or_else : String → String → String
or_else a b = if a == "" then b else a

-- `items.pop(0)`
unfoldable pub pop_first {ℓ} : {A : Type ℓ} → List A → List A
pop_first [] = []
pop_first (x ∷ xs) = xs

unfoldable pub record_item : HistoryItem → RuntimeHistory → RuntimeHistory
unfolding pop_first
record_item item h =
    let items = h.items ++ item ∷ [] in
    record h { items = if ltb h.max_items (length items) then pop_first items else items }

unfoldable pub add :
    String
    → String
    → HistoryKind
    → String
    → String
    → String
    → String
    → RuntimeHistory
    → HistoryItem × RuntimeHistory
unfolding record_item
add item_id turn_id kind title status summary detail h =
    let item : HistoryItem = record {
      item_id = item_id;
      turn_id = turn_id;
      kind = kind;
      title = title;
      status = status;
      summary = or_else summary title;
      detail = or_else detail (or_else summary title);
    } in
    (item, record_item item h)

unfoldable pub get_by_id : String → List HistoryItem → Option HistoryItem
get_by_id item_id [] = none
get_by_id item_id (item ∷ items) =
    if item.item_id == item_id then some item else get_by_id item_id items

-- The keyword arguments of `update`; the field `item_id` cannot be changed.
pub record Changes : Type 0 where
  pub turn_id : Option String
  pub kind : Option HistoryKind
  pub title : Option String
  pub status : Option String
  pub summary : Option String
  pub detail : Option String

abbrev pub changed {ℓ} : {A : Type ℓ} → Option A → A → A
changed none old = old
changed (some new) old = new

unfoldable pub change_item : Changes → HistoryItem → HistoryItem
change_item c item = record item {
  turn_id = changed c.turn_id item.turn_id;
  kind = changed c.kind item.kind;
  title = changed c.title item.title;
  status = changed c.status item.status;
  summary = changed c.summary item.summary;
  detail = changed c.detail item.detail;
}

-- The first item with the id is changed in place.
unfoldable pub change_first : String → Changes → List HistoryItem → List HistoryItem
unfolding change_item
change_first item_id c [] = []
change_first item_id c (item ∷ items) =
    if item.item_id == item_id
    then change_item c item ∷ items
    else item ∷ change_first item_id c items

unfoldable pub update : String → Changes → RuntimeHistory → Option HistoryItem × RuntimeHistory
unfolding change_first get_by_id
update item_id c h =
    let items = change_first item_id c h.items in
    (get_by_id item_id items, record h { items = items })

unfoldable pub clear : RuntimeHistory → RuntimeHistory
clear h = record h { items = [] }
