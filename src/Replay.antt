-- ===== src/Replay.antt =====
-- Recordings of boundary interactions and their replay: src/chassis/replay/models.py and session.py.
-- Requests and responses are values that pass through the redactor, which is an argument.
pub mod Cursors
pub mod Ordered
mod Examples
use chassis.Prelude.{
  ℕ, zero, suc, ◌+◌, ◌-◌, ◌*◌, ◌/◌, ◌%◌, ◌≤◌, ◌<◌, String, ◌≡◌, refl, sym, ap, ◌∙◌, ◌≢◌, ◌↔◌, ◌⊎◌,
  inl, inr, Bool, true, false, ◌&&◌, ◌||◌, not, Option, none, some, List, [], ◌∷◌, ◌++◌, map, arith,
  ltb, leb, nat_beq, nat_beq_iff, Eq, ◌==◌, eq_beq, nat_eq, string_eq, if◌then◌else◌, Bool-cases,
  if_ind, Option-cases, length, drop, take, select, any, all, count_if, find, All, length-append,
  length-drop, any-append, select-append, All-append, elem, any-select, All-select, select-All,
  find_passes, find-All, find-any, All-map, All-any,
}
use chassis.Prelude.Dict.{Dict, get, put}
use Prim.Native.String.{◌++◌ as text_append}

pub data ReplayMode : Type 0 where
  live record_mode replay_mode : ReplayMode

pub data BoundaryKind : Type 0 where
  tool model interrupt snapshot lifecycle : BoundaryKind

pub data ReplayFallback : Type 0 where
  error live_fallback : ReplayFallback

unfoldable pub value : BoundaryKind → String
value tool = "tool"
value model = "model"
value interrupt = "interrupt"
value snapshot = "snapshot"
value lifecycle = "lifecycle"

unfoldable pub is_kind : BoundaryKind → BoundaryKind → Bool
unfolding value
is_kind k l = value k == value l

-- What a lookup finds: the record, or why there is none.
pub data Missing : Type 0 where
  missing exhausted : Missing

pub data CaptureError : Type 0 where
  not_live_fallback unsupported_kind : CaptureError

module _ (Value : Type 0) where
  pub record ReplayRecord : Type 0 where
    pub kind : BoundaryKind
    pub sequence : ℕ
    pub key : String
    pub request : Value
    pub response : Value
    pub generation_id : Option String
    pub run_id : Option String

  pub record ReplaySession : Type 0 where
    pub mode : ReplayMode
    pub fallback : ReplayFallback
    pub records : List ReplayRecord
    pub cursor : Dict String ℕ

  unfoldable pub is_recording : ReplaySession → Bool
  is_recording s = elim s.mode [ record_mode ↦ true | _ ↦ false ]

  unfoldable pub is_replaying : ReplaySession → Bool
  is_replaying s = elim s.mode [ replay_mode ↦ true | _ ↦ false ]

  unfoldable pub falls_back : ReplaySession → Bool
  falls_back s = elim s.fallback [ live_fallback ↦ true | error ↦ false ]

  unfoldable pub cursor_of : BoundaryKind → String → String
  unfolding value
  cursor_of kind key = text_append (value kind) (text_append ":" key)

  unfoldable pub is_match : BoundaryKind → String → ReplayRecord → Bool
  unfolding is_kind
  is_match kind key r = is_kind r.kind kind && r.key == key

  unfoldable pub matches : BoundaryKind → String → ReplaySession → List ReplayRecord
  unfolding is_match
  matches kind key s = select (is_match kind key) s.records

  unfoldable pub count_or_zero : Option ℕ → ℕ
  count_or_zero none = 0
  count_or_zero (some n) = n

  unfoldable pub consumed : BoundaryKind → String → ReplaySession → ℕ
  unfolding cursor_of get count_or_zero
  consumed kind key s = count_or_zero (get (cursor_of kind key) s.cursor)

  -- `matches[consumed]`, where there is such a record.
  unfoldable pub at : ℕ → List ReplayRecord → Option ReplayRecord
  at n [] = none
  at zero (r ∷ rs) = some r
  at (suc n) (r ∷ rs) = at n rs

  unfoldable pub peek : BoundaryKind → String → ReplaySession → Option ReplayRecord
  unfolding matches consumed at
  peek kind key s = at (consumed kind key s) (matches kind key s)

  unfoldable pub has_remaining : BoundaryKind → String → ReplaySession → Bool
  unfolding peek
  has_remaining kind key s = elim (peek kind key s) [ none ↦ false | some r ↦ true ]

  unfoldable pub has : BoundaryKind → String → ReplaySession → Bool
  unfolding is_match
  has kind key s = any (is_match kind key) s.records

  unfoldable pub set_cursor : BoundaryKind → String → ℕ → ReplaySession → ReplaySession
  unfolding cursor_of put
  set_cursor kind key n s = record {
    mode = s.mode;
    fallback = s.fallback;
    records = s.records;
    cursor = put (cursor_of kind key) n s.cursor;
  }

  pub data Replayed : Type 0 where
    answer : ReplayRecord → Replayed
    mismatch : Missing → (recorded consumed : ℕ) → Replayed

  unfoldable pub reason_for : List ReplayRecord → Missing
  reason_for [] = missing
  reason_for (r ∷ rs) = exhausted

  unfoldable pub replay_at :
      Option ReplayRecord → BoundaryKind → String → ReplaySession → Replayed × ReplaySession
  unfolding matches consumed set_cursor reason_for is_kind
  replay_at none kind key s = (
    mismatch (reason_for (matches kind key s))
        (length (select (λ r. is_kind r.kind kind) s.records)) (consumed kind key s),
    s,
  )
  replay_at (some r) kind key s = (answer r, set_cursor kind key (suc (consumed kind key s)) s)

  unfoldable pub replay : BoundaryKind → String → ReplaySession → Replayed × ReplaySession
  unfolding replay_at matches consumed at
  replay kind key s = replay_at (at (consumed kind key s) (matches kind key s)) kind key s

  unfoldable pub append_record :
      BoundaryKind
      → String
      → (request response : Value) → (generation_id run_id : Option String) → ReplaySession
      → ReplaySession
  append_record kind key request response generation_id run_id s = record {
    mode = s.mode;
    fallback = s.fallback;
    records =
        s.records
        ++ record {
          kind = kind;
          sequence = length s.records;
          key = key;
          request = request;
          response = response;
          generation_id = generation_id;
          run_id = run_id;
        }
          ∷ [];
    cursor = s.cursor;
  }

  module _ (redact_value : Value → Value) where
    -- `record`
    unfoldable pub write :
        BoundaryKind
        → String
        → (request response : Value) → (generation_id run_id : Option String) → ReplaySession
        → ReplaySession
    unfolding is_recording append_record
    write kind key request response generation_id run_id s =
        if not (is_recording s)
        then s
        else append_record kind key (redact_value request) (redact_value response) generation_id
            run_id s

    unfoldable pub is_captured : BoundaryKind → Bool
    unfolding is_kind
    is_captured kind = is_kind kind tool || is_kind kind model

    pub data Captured : Type 0 where
      captured : ReplaySession → Captured
      uncaptured : CaptureError → Captured

    unfoldable pub capture :
        BoundaryKind
        → String
        → (request response : Value) → (generation_id run_id : Option String) → ReplaySession
        → ReplaySession
    unfolding append_record matches set_cursor
    capture kind key request response generation_id run_id s =
        let grown =
          append_record kind key (redact_value request) (redact_value response) generation_id run_id
            s in
        set_cursor kind key (length (matches kind key grown)) grown

    unfoldable pub record_fallback :
        BoundaryKind
        → String
        → (request response : Value) → (generation_id run_id : Option String) → ReplaySession
        → Captured
    unfolding is_replaying falls_back is_captured capture
    record_fallback kind key request response generation_id run_id s =
        if not (is_replaying s && falls_back s)
        then uncaptured not_live_fallback
        else if not (is_captured kind)
        then uncaptured unsupported_kind
        else captured (capture kind key request response generation_id run_id s)
