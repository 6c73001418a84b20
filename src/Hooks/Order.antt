-- ===== src/Hooks/Order.antt =====
-- The order of handlers, live and in a snapshot (src/chassis/hooks/registry.py and types.py).
use chassis.Prelude.{
  String, ◌≡◌, refl, sym, ap, ◌∙◌, Bool, true, none, some, List, [], ◌∷◌, arith, eq_beq, nat_eq,
  string_eq, select, All, elem, select-All,
}
use mathlib.Core.List.{Perm}
use chassis.Prelude.Dict.{values}
use chassis.Prelude.Sorting.{
  insert, sort, IsOrder, IsSorted, sort-perm, All-sort, sort-IsSorted, sort-sorted, select-sort,
}
use chassis.Prelude.Texts.{text_leb-IsOrder, text_leb_antisym}
use chassis.Prelude.Integers.{int_leb_total, int_leb_trans}
use chassis.Hooks.{
  HookEvent, HookRegistration, HookRegistry, event_value, is_event, order_leb, event_leb, handlers,
  registrations, snapshot, snapshot_handlers,
}

module _ (Value Error : Type 0) where
  abbrev Item : Type 0
  Item = HookRegistration Value Error

  abbrev pub earlier : Item → Item → Bool
  earlier = order_leb Value Error

  pub earlier-IsOrder : IsOrder earlier
  unfolding order_leb
  earlier-IsOrder = record {
    total = λ a b h. ground (arith, int_leb_total a.priority b.priority);
    trans = λ a b c h k. ground (
      arith,
      int_leb_trans a.priority b.priority c.priority,
      int_leb_trans c.priority b.priority a.priority,
      int_leb_trans b.priority c.priority a.priority,
      int_leb_trans c.priority a.priority b.priority,
      int_leb_trans b.priority a.priority c.priority,
    );
  }

  by_event-IsOrder : IsOrder (event_leb Value Error)
  unfolding event_leb
  by_event-IsOrder = record {
    total = λ a b h. ground (
      arith,
      eq_beq (event_value a.event) (event_value b.event),
      eq_beq (event_value b.event) (event_value a.event),
      earlier-IsOrder.total a b,
      text_leb-IsOrder.total (event_value a.event) (event_value b.event),
    );
    trans = λ a b c h k. ground (
      arith,
      eq_beq (event_value a.event) (event_value b.event),
      eq_beq (event_value b.event) (event_value c.event),
      eq_beq (event_value a.event) (event_value c.event),
      earlier-IsOrder.trans a b c,
      text_leb-IsOrder.trans (event_value a.event) (event_value b.event) (event_value c.event),
      text_leb_antisym (event_value a.event) (event_value b.event),
    );
  }

  -- On the registrations for one event the two orders agree.
  insert-event_leb :
      (event : HookEvent) (x : Item) (xs : List Item)
      → is_event Value Error event x ≡ true
      → All (λ y. is_event Value Error event y ≡ true) xs
      → insert (event_leb Value Error) x xs ≡ insert earlier x xs
  unfolding insert event_leb is_event
  insert-event_leb event x [] h hs = refl
  insert-event_leb event x (y ∷ ys) h hs =
      let rest = insert-event_leb event x ys h hs.1 in
      ground (
        arith,
        rest,
        hs.0,
        eq_beq (event_value x.event) (event_value event),
        eq_beq (event_value y.event) (event_value event),
        eq_beq (event_value x.event) (event_value y.event),
      )

  sort-event_leb :
      (event : HookEvent) (xs : List Item)
      → All (λ y. is_event Value Error event y ≡ true) xs
      → sort (event_leb Value Error) xs ≡ sort earlier xs
  unfolding sort
  sort-event_leb event [] h = refl
  sort-event_leb event (x ∷ xs) h =
      ap (insert (event_leb Value Error) x) (sort-event_leb event xs h.1)
      ∙ insert-event_leb event x (sort earlier xs) h.0 (All-sort earlier _ xs h.1)

  select-registrations :
      (event : HookEvent) (r : HookRegistry Value Error)
      → select (is_event Value Error event) (registrations Value Error r)
        ≡ handlers Value Error event r
  unfolding registrations handlers
  select-registrations event r =
      let here = select (is_event Value Error event) (values r.registrations) in
      select-sort by_event-IsOrder (is_event Value Error event) (values r.registrations)
      ∙ sort-event_leb event here (select-All (is_event Value Error event) (values r.registrations))

  -- The handlers of an event, live, are the registrations for it in priority order, the earlier
  -- registered first among equal priorities; none is lost and none is added.
  pub handlers_ordered :
      (event : HookEvent) (r : HookRegistry Value Error)
      → IsSorted earlier (handlers Value Error event r)
        × Perm
            (handlers Value Error event r)
            (select (is_event Value Error event) (values r.registrations))
  unfolding handlers
  handlers_ordered event r =
      let here = select (is_event Value Error event) (values r.registrations) in
      (sort-IsSorted earlier-IsOrder here, sort-perm earlier here)

  handlers-IsSorted :
      (event : HookEvent) (r : HookRegistry Value Error)
      → IsSorted earlier (handlers Value Error event r)
  handlers-IsSorted event r = (handlers_ordered event r).0

  select_comm :
      (p q : Item → Bool) (xs : List Item) → select p (select q xs) ≡ select q (select p xs)
  select_comm p q [] = refl
  select_comm p q (x ∷ xs) = ground (arith, select_comm p q xs)

  -- A snapshot of the whole registry dispatches an event to the handlers that the live registry
  -- does, in the same order; one restricted to some owners dispatches it to the handlers of those owners, in the same order.
  pub handlers-snapshot :
      (event : HookEvent) (generation_id : String) (owner_ids : List String)
      (r : HookRegistry Value Error)
      → (snapshot_handlers Value Error event (snapshot Value Error generation_id none r)
          ≡ handlers Value Error event r)
        × (snapshot_handlers Value Error event
              (snapshot Value Error generation_id (some owner_ids) r)
            ≡ select (λ item. elem item.owner_id owner_ids) (handlers Value Error event r))
  unfolding snapshot snapshot_handlers
  handlers-snapshot event generation_id owner_ids r =
      let owned : Item → Bool = λ item. elem item.owner_id owner_ids in
      let live = handlers Value Error event r in
      let whole : sort earlier live ≡ live =
        sort-sorted earlier-IsOrder live (handlers-IsSorted event r) in
      (
        ap (sort earlier) (select-registrations event r) ∙ whole,
        ap (sort earlier) (
              select_comm (is_event Value Error event) owned (registrations Value Error r)
              ∙ ap (select owned) (select-registrations event r))
            ∙ sym (select-sort earlier-IsOrder owned live)
            ∙ ap (select owned) whole,
      )
