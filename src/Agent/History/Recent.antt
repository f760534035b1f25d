-- ===== src/Agent/History/Recent.antt =====
-- What a history holds after any calls.
use blender_ai_sidebar.Prelude.{
  ℕ, zero, suc, ◌-◌, ◌≤◌, ◌≡◌, refl, sym, ap, ◌∙◌, arith, String, List, [], ◌∷◌, ◌++◌, map, ◌==◌,
  string_comparable, length, length-append, length-map, length-drop, drop, ltb, Bool-cases, inl,
  inr,
}
use blender_ai_sidebar.Agent.History.{
  HistoryKind, HistoryItem, RuntimeHistory, new_history, or_else, pop_first, record_item, add,
  Changes, change_item, change_first, update, clear,
}

pub data Operation : Type 0 where
  do_add : String → String → HistoryKind → String → String → String → String → Operation
  do_update : String → Changes → Operation
  do_clear : Operation

-- The ids of the items that were added since the last `clear`, and the history.
pub record Log : Type 0 where
  pub added : List String
  pub history : RuntimeHistory

unfoldable pub operate : Operation → Log → Log
unfolding add update clear
operate (do_add item_id turn_id kind title status summary detail) l = record {
  added = l.added ++ item_id ∷ [];
  history = (add item_id turn_id kind title status summary detail l.history).1;
}
operate (do_update item_id c) l = record l { history = (update item_id c l.history).1 }
operate do_clear l = record { added = []; history = clear l.history }

unfoldable pub operations : List Operation → Log → Log
unfolding operate
operations [] l = l
operations (op ∷ ops) l = operations ops (operate op l)

abbrev pub item_ids : List HistoryItem → List String
item_ids items = map (λ (i : HistoryItem). i.item_id) items

-- The history has the last `max_items` items that were added, in order.
pub record IsRecent (l : Log) : Type 0 where
  pub recent : item_ids l.history.items ≡ drop (length l.added - l.history.max_items) l.added
  pub has_room : 1 ≤ l.history.max_items

item_ids-change_first :
    (item_id : String) (c : Changes) (items : List HistoryItem)
    → item_ids (change_first item_id c items) ≡ item_ids items
unfolding change_first change_item
item_ids-change_first item_id c [] = refl
item_ids-change_first item_id c (item ∷ items) = elim (Bool-cases (item.item_id == item_id)) [
  | inl here ↦ rw (here, change_first) refl
  | inr later ↦
      rw (later, change_first) (ap (λ l. item.item_id ∷ l) (item_ids-change_first item_id c items))
]

item_ids-snoc :
    (items : List HistoryItem) (item : HistoryItem)
    → item_ids (items ++ item ∷ []) ≡ item_ids items ++ item.item_id ∷ []
item_ids-snoc [] item = refl
item_ids-snoc (x ∷ items) item = ap (λ l. x.item_id ∷ l) (item_ids-snoc items item)

item_ids-pop_first :
    (items : List HistoryItem) → item_ids (pop_first items) ≡ pop_first (item_ids items)
unfolding pop_first
item_ids-pop_first [] = refl
item_ids-pop_first (x ∷ items) = refl

drop-nil : (n : ℕ) → [] ≡ drop {A = String} (0 - n) []
drop-nil n = let none_left : 0 ≡ 0 - n = omega arith in ap (λ k. drop {A = String} k []) none_left

pop_first-drop : (n : ℕ) (xs : List String) → pop_first (drop n xs) ≡ drop (suc n) xs
unfolding pop_first
pop_first-drop zero [] = refl
pop_first-drop zero (x ∷ xs) = refl
pop_first-drop (suc n) [] = refl
pop_first-drop (suc n) (x ∷ xs) = pop_first-drop n xs

drop-snoc :
    (n : ℕ) (xs : List String) (x : String)
    → n ≤ length xs
    → drop n xs ++ x ∷ [] ≡ drop n (xs ++ x ∷ [])
drop-snoc zero xs x h = refl
drop-snoc (suc n) [] x h = absurd (omega (arith, h))
drop-snoc (suc n) (y ∷ xs) x h = drop-snoc n xs x (omega (arith, h))

record_item-IsRecent :
    (added : List String) (item : HistoryItem) (h : RuntimeHistory)
    → IsRecent (record { added = added; history = h })
    → IsRecent (record { added = added ++ item.item_id ∷ []; history = record_item item h })
unfolding record_item
record_item-IsRecent added item h r =
    let k = length added - h.max_items in
    let before : item_ids (h.items ++ item ∷ []) ≡ drop k (added ++ item.item_id ∷ []) =
      item_ids-snoc h.items item
      ∙ ap (λ l. l ++ item.item_id ∷ []) r.recent
      ∙ drop-snoc k added item.item_id (omega arith) in
    let counted : length h.items ≡ length added - k = omega (
      arith,
      length-map (λ (i : HistoryItem). i.item_id) h.items,
      ap length r.recent,
      length-drop k added,
    ) in
    elim (Bool-cases (ltb h.max_items (length (h.items ++ item ∷ [])))) [
      | inl full ↦
          let next : length (added ++ item.item_id ∷ []) - h.max_items ≡ suc k = ground (
            arith,
            full,
            counted,
            length-append h.items (item ∷ []),
            length-append added (item.item_id ∷ []),
            r.has_room,
          ) in
          rw (full, record_item)
            (record {
              recent =
                  item_ids-pop_first (h.items ++ item ∷ [])
                  ∙ ap pop_first before
                  ∙ pop_first-drop k (added ++ item.item_id ∷ [])
                  ∙ ap (λ n. drop n (added ++ item.item_id ∷ [])) (sym next);
              has_room = r.has_room;
            })
      | inr fits ↦
          let next : length (added ++ item.item_id ∷ []) - h.max_items ≡ k = ground (
            arith,
            fits,
            counted,
            length-append h.items (item ∷ []),
            length-append added (item.item_id ∷ []),
            r.has_room,
          ) in
          rw (fits, record_item)
            (record {
              recent = before ∙ ap (λ n. drop n (added ++ item.item_id ∷ [])) (sym next);
              has_room = r.has_room;
            })
    ]

operate-IsRecent : (op : Operation) (l : Log) → IsRecent l → IsRecent (operate op l)
unfolding operate add update clear
operate-IsRecent (do_add item_id turn_id kind title status summary detail) l r =
    record_item-IsRecent l.added
      (record {
        item_id = item_id;
        turn_id = turn_id;
        kind = kind;
        title = title;
        status = status;
        summary = or_else summary title;
        detail = or_else detail (or_else summary title);
      })
      l.history r
operate-IsRecent (do_update item_id c) l r = record {
  recent = item_ids-change_first item_id c l.history.items ∙ r.recent;
  has_room = r.has_room;
}
operate-IsRecent do_clear l r = record {
  recent = drop-nil l.history.max_items;
  has_room = r.has_room;
}

operations-keeps : (ops : List Operation) (l : Log) → IsRecent l → IsRecent (operations ops l)
unfolding operations
operations-keeps [] l r = r
operations-keeps (op ∷ ops) l r = operations-keeps ops (operate op l) (operate-IsRecent op l r)

-- After any calls of add, update and clear on a new history of any limit, the ids of its items are
-- the last `max_items` of the ids that were added since the last clear, in order, with `max_items`
-- at least 1: eviction takes the oldest item, and update neither moves nor renames an item.
pub operations-IsRecent :
    (max_items : ℕ) (ops : List Operation)
    → IsRecent (operations ops (record { added = []; history = new_history max_items }))
unfolding new_history
operations-IsRecent max_items ops =
    operations-keeps ops (record { added = []; history = new_history max_items })
      (record { recent = drop-nil (new_history max_items).max_items; has_room = ground arith })
