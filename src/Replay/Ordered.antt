-- ===== src/Replay/Ordered.antt =====
-- The order in which recordings answer (src/chassis/replay/session.py).
use chassis.Prelude.{
  ℕ, zero, suc, ◌+◌, String, ◌≡◌, refl, sym, ap, ◌∙◌, inl, inr, Bool, true, false, ◌&&◌, Option,
  none, some, List, [], ◌∷◌, ◌++◌, arith, ◌==◌, eq_beq, nat_eq, string_eq, if◌then◌else◌,
  Bool-cases, length, select, count_if,
}
use mathlib.Core.Path.{subst}
use chassis.Prelude.Dict.{Dict, get, put, get-put}
use chassis.Replay.{
  BoundaryKind, is_kind, value, ReplayRecord, ReplaySession, cursor_of, is_match, matches,
  count_or_zero, consumed, at, peek, set_cursor, Replayed, answer, mismatch, replay, replay_at,
  has_remaining, capture, append_record,
}
use chassis.Replay.Cursors.{cursor_of_inj}

module _ (Value : Type 0) where
  abbrev pub Request : Type 0
  Request = BoundaryKind × String

  abbrev pub is_for : BoundaryKind → String → Request → Bool
  is_for kind key q = cursor_of Value q.0 q.1 == cursor_of Value kind key

  abbrev record_in : Replayed Value → Option (ReplayRecord Value)
  record_in (answer r) = some r
  record_in (mismatch m n k) = none

  -- What requests for one boundary are answered with, among requests for any.
  abbrev pub answers_to :
      BoundaryKind
      → String
      → List Request
      → ReplaySession Value
      → List (Option (ReplayRecord Value))
  answers_to kind key [] s = []
  answers_to kind key (q ∷ qs) s =
      let step = replay Value q.0 q.1 s in
      let rest = answers_to kind key qs step.1 in
      if is_for kind key q then record_in step.0 ∷ rest else rest

  -- The records from a position on, and nothing once they are used up.
  abbrev pub in_order : ℕ → ℕ → List (ReplayRecord Value) → List (Option (ReplayRecord Value))
  in_order n zero rs = []
  in_order n (suc m) rs = at Value n rs ∷ in_order (suc n) m rs

  at_past :
      (n : ℕ) (rs : List (ReplayRecord Value)) → at Value n rs ≡ none → at Value (suc n) rs ≡ none
  unfolding at
  at_past n [] h = refl
  at_past zero (r ∷ rs) h = cc
  at_past (suc n) (r ∷ rs) h = at_past n rs h

  in_order_past :
      (m n : ℕ) (rs : List (ReplayRecord Value))
      → at Value n rs ≡ none
      → in_order n m rs ≡ in_order (suc n) m rs
  in_order_past zero n rs h = refl
  in_order_past (suc m) n rs h =
      let next = at_past n rs h in cc (h, next, in_order_past m (suc n) rs next)

  if_true : (n : ℕ) (c : String) (d : Dict String ℕ) → (if c == c then some n else get c d) ≡ some n
  if_true n c d = rw ((eq_beq c c).1 refl)

  if_other :
      (c c' : String)
      → (c == c') ≡ false
      → (n : ℕ) (d : Dict String ℕ) → (if c == c' then some n else get c' d) ≡ get c' d
  if_other c c' h n d = rw h

  served :
      (o : Option (ReplayRecord Value)) (kind : BoundaryKind) (key : String)
      (s : ReplaySession Value)
      → at Value (consumed Value kind key s) (matches Value kind key s) ≡ o
      → (record_in (replay_at Value o kind key s).0 ≡ o)
        × ((replay_at Value o kind key s).1.records ≡ s.records)
        × ((m : ℕ)
            → in_order
                (consumed Value kind key (replay_at Value o kind key s).1)
                m
                (matches Value kind key s)
              ≡ in_order (suc (consumed Value kind key s)) m (matches Value kind key s))
  unfolding replay_at consumed set_cursor count_or_zero
  served none kind key s h =
      (refl, refl, λ m. in_order_past m (consumed Value kind key s) (matches Value kind key s) h)
  served (some r) kind key s h = (
    refl,
    refl,
    λ m.
        ap (λ n. in_order (count_or_zero Value n) m (matches Value kind key s))
          (get-put (cursor_of Value kind key) (cursor_of Value kind key)
              (suc (consumed Value kind key s)) s.cursor
            ∙ if_true (suc (consumed Value kind key s)) (cursor_of Value kind key) s.cursor),
  )

  unserved :
      (o : Option (ReplayRecord Value)) (k : BoundaryKind) (a : String) (kind : BoundaryKind)
      (key : String) (s : ReplaySession Value)
      → (cursor_of Value k a == cursor_of Value kind key) ≡ false
      → ((replay_at Value o k a s).1.records ≡ s.records)
        × (consumed Value kind key (replay_at Value o k a s).1 ≡ consumed Value kind key s)
  unfolding replay_at consumed set_cursor
  unserved none k a kind key s h = (refl, refl)
  unserved (some r) k a kind key s h = (
    refl,
    ap (count_or_zero Value) (
        get-put (cursor_of Value k a) (cursor_of Value kind key) (suc (consumed Value k a s))
          s.cursor
        ∙ if_other (cursor_of Value k a) (cursor_of Value kind key) h (suc (consumed Value k a s))
            s.cursor),
  )

  -- The request that comes first is for the boundary, or for another one.
  answers_for :
      (kind : BoundaryKind) (key : String) (qs : List Request) (s : ReplaySession Value)
      → ((s' : ReplaySession Value)
          → answers_to kind key qs s'
            ≡ in_order
                (consumed Value kind key s')
                (count_if (is_for kind key) qs)
                (matches Value kind key s'))
      → answers_to kind key ((kind, key) ∷ qs) s
        ≡ in_order
            (consumed Value kind key s)
            (count_if (is_for kind key) ((kind, key) ∷ qs))
            (matches Value kind key s)
  unfolding replay matches
  answers_for kind key qs s rest =
      let o = at Value (consumed Value kind key s) (matches Value kind key s) in
      let next = served o kind key s refl in
      let after = replay_at Value o kind key s in
      let more : answers_to kind key qs after.1
          ≡ in_order (suc (consumed Value kind key s)) (count_if (is_for kind key) qs)
              (matches Value kind key s) =
        rest after.1
        ∙ ap
            (λ rs.
              in_order (consumed Value kind key after.1) (count_if (is_for kind key) qs)
                (select (is_match Value kind key) rs))
            next.1
        ∙ next.2 (count_if (is_for kind key) qs) in
      let m = count_if (is_for kind key) qs in
      let one_more : suc m ≡ 1 + m = omega arith in
      let both : record_in after.0 ∷ answers_to kind key qs after.1
          ≡ in_order (consumed Value kind key s) (suc m) (matches Value kind key s) =
        cc (next.0, more) in
      rw ((eq_beq (cursor_of Value kind key) (cursor_of Value kind key)).1 refl) (
        both ∙ ap (λ n. in_order (consumed Value kind key s) n (matches Value kind key s)) one_more)

  answers_past :
      (k : BoundaryKind) (a : String) (kind : BoundaryKind) (key : String) (qs : List Request)
      (s : ReplaySession Value)
      → (cursor_of Value k a == cursor_of Value kind key) ≡ false
      → ((s' : ReplaySession Value)
          → answers_to kind key qs s'
            ≡ in_order
                (consumed Value kind key s')
                (count_if (is_for kind key) qs)
                (matches Value kind key s'))
      → answers_to kind key ((k, a) ∷ qs) s
        ≡ in_order
            (consumed Value kind key s)
            (count_if (is_for kind key) ((k, a) ∷ qs))
            (matches Value kind key s)
  unfolding replay matches
  answers_past k a kind key qs s e rest =
      let o = at Value (consumed Value k a s) (matches Value k a s) in
      let after = replay_at Value o k a s in
      let kept = unserved o k a kind key s e in
      let m = count_if (is_for kind key) qs in
      let none_more : m ≡ 0 + m = omega arith in
      let more : answers_to kind key qs after.1
          ≡ in_order (consumed Value kind key s) m (matches Value kind key s) =
        rest after.1
        ∙ ap
            (λ rs.
              in_order (consumed Value kind key after.1) m (select (is_match Value kind key) rs))
            kept.0
        ∙ ap (λ n. in_order n m (matches Value kind key s)) kept.1 in
      rw e (
        more
        ∙ ap (λ n. in_order (consumed Value kind key s) n (matches Value kind key s)) none_more)

  -- However requests for different boundaries are interleaved, those for one boundary are answered
  -- with its recorded interactions in recording order, from the first that has not been used, each
  -- once; when they are used up there is no answer.
  pub answers_to-in_order :
      (kind : BoundaryKind) (key : String) (qs : List Request) (s : ReplaySession Value)
      → answers_to kind key qs s
        ≡ in_order
            (consumed Value kind key s)
            (count_if (is_for kind key) qs)
            (matches Value kind key s)
  answers_to-in_order kind key [] s = refl
  answers_to-in_order kind key ((k, a) ∷ qs) s =
      elim (Bool-cases (cursor_of Value k a == cursor_of Value kind key)) [
        | inl e ↦
            let same =
              cursor_of_inj Value k kind a key
                ((eq_beq (cursor_of Value k a) (cursor_of Value kind key)).0 e) in
            let Goal : BoundaryKind → String → Type 0 = λ l b.
              answers_to kind key ((l, b) ∷ qs) s
              ≡ in_order (consumed Value kind key s) (count_if (is_for kind key) ((l, b) ∷ qs))
                  (matches Value kind key s) in
            subst (λ l. Goal l a) (sym same.0)
              (subst (λ b. Goal kind b) (sym same.1)
                (answers_for kind key qs s (answers_to-in_order kind key qs)))
        | inr e ↦ answers_past k a kind key qs s e (answers_to-in_order kind key qs)
      ]

  at_end : (rs : List (ReplayRecord Value)) → at Value (length rs) rs ≡ none
  unfolding at
  at_end [] = refl
  at_end (r ∷ rs) = at_end rs

  differs :
      (k l : BoundaryKind) (a b : String)
      → (is_kind k l && a == b) ≡ false
      → (cursor_of Value k a == cursor_of Value l b) ≡ false
  unfolding is_kind
  differs k l a b h = elim (Bool-cases (cursor_of Value k a == cursor_of Value l b)) [
    | inr e ↦ e
    | inl e ↦
        let same =
          cursor_of_inj Value k l a b ((eq_beq (cursor_of Value k a) (cursor_of Value l b)).0 e) in
        absurd (
          ground
            (arith, h, (eq_beq (value k) (value l)).1 (ap value same.0), (eq_beq a b).1 same.1))
  ]

  select-snoc :
      (q : ReplayRecord Value → Bool) (rs : List (ReplayRecord Value)) (r : ReplayRecord Value)
      → q r ≡ false
      → select q (rs ++ r ∷ []) ≡ select q rs
  select-snoc q [] r h = rw h refl
  select-snoc q (x ∷ rs) r h = ap (λ l. if q x then x ∷ l else l) (select-snoc q rs r h)

  -- What a live fallback captures is not replayed in its own session: no record is left for its
  -- boundary, and every other boundary has the record next that it had.
  pub has_remaining-capture :
      (redact_value : Value → Value) (kind : BoundaryKind) (key : String) (request response : Value)
      (generation_id run_id : Option String) (s : ReplaySession Value) (l : BoundaryKind)
      (b : String)
      → (is_kind kind l && key == b) ≡ false
      → (has_remaining Value kind key
            (capture Value redact_value kind key request response generation_id run_id s)
          ≡ false)
        × (peek Value l b
              (capture Value redact_value kind key request response generation_id run_id s)
            ≡ peek Value l b s)
  unfolding has_remaining peek consumed capture set_cursor append_record matches is_match
  has_remaining-capture redact_value kind key request response generation_id run_id s l b h =
      let c = cursor_of Value kind key in
      let r : ReplayRecord Value = record {
        kind = kind;
        sequence = length s.records;
        key = key;
        request = redact_value request;
        response = redact_value response;
        generation_id = generation_id;
        run_id = run_id;
      } in
      let grown = select (is_match Value kind key) (s.records ++ r ∷ []) in
      let now : count_or_zero Value (get c (put c (length grown) s.cursor)) ≡ length grown =
        ap (count_or_zero Value)
          (get-put c c (length grown) s.cursor ∙ if_true (length grown) c s.cursor) in
      let other : get (cursor_of Value l b) (put c (length grown) s.cursor)
          ≡ get (cursor_of Value l b) s.cursor =
        get-put c (cursor_of Value l b) (length grown) s.cursor
        ∙ if_other c (cursor_of Value l b) (differs kind l key b h) (length grown) s.cursor in
      (
        ap (λ (o : Option (ReplayRecord Value)). elim o [ none ↦ false | some x ↦ true ])
            (ap (λ n. at Value n grown) now ∙ at_end grown),
        ap
              (λ n.
                at Value (count_or_zero Value n)
                  (select (is_match Value l b) (s.records ++ r ∷ [])))
              other
            ∙ ap (at Value (consumed Value l b s)) (select-snoc (is_match Value l b) s.records r h),
      )
