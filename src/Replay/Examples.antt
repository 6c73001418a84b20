-- ===== src/Replay/Examples.antt =====
-- A recording of two calls of one tool and one of another, and the theorems at it.
use chassis.Prelude.{
  ℕ, String, ◌≡◌, refl, false, none, some, List, [], ◌∷◌, nat_eq, string_eq, count_if,
}
use chassis.Replay.{
  tool, model, replay_mode, live_fallback, is_kind, ReplayRecord, ReplaySession, consumed, matches,
  peek, has_remaining, replay, capture, answer, mismatch, exhausted, missing, record_fallback,
}
use chassis.Replay.Ordered.{
  Request, is_for, answers_to, in_order, answers_to-in_order, has_remaining-capture,
}

abbrev call : ℕ → String → ℕ → ReplayRecord ℕ
call sequence key response = record {
  kind = tool;
  sequence = sequence;
  key = key;
  request = 0;
  response = response;
  generation_id = none;
  run_id = none;
}

abbrev session : ReplaySession ℕ
session = record {
  mode = replay_mode;
  fallback = live_fallback;
  records = call 0 "search" 10 ∷ call 1 "fetch" 20 ∷ call 2 "search" 30 ∷ [];
  cursor = [];
}

abbrev requests : List (Request ℕ)
requests = (tool, "search") ∷ (tool, "fetch") ∷ (tool, "search") ∷ (tool, "search") ∷ []

runs : Unit {0}
unfolding replay capture has_remaining record_fallback
runs = tt

first_answer : (replay ℕ tool "search" session).0 ≡ answer (call 0 "search" 10)
unfolding runs
first_answer = refl

never_recorded : (replay ℕ model "search" session).0 ≡ mismatch missing 0 0
unfolding runs
never_recorded = refl

used_up : (replay ℕ tool "fetch" (replay ℕ tool "fetch" session).1).0 ≡ mismatch exhausted 3 1
unfolding runs
used_up = refl

in_recording_order :
    answers_to ℕ tool "search" requests session
    ≡ some (call 0 "search" 10) ∷ some (call 2 "search" 30) ∷ none ∷ []
unfolding runs
in_recording_order = refl

answers_to-in_order_example :
    answers_to ℕ tool "search" requests session
    ≡ in_order ℕ
        (consumed ℕ tool "search" session)
        (count_if (is_for ℕ tool "search") requests)
        (matches ℕ tool "search" session)
answers_to-in_order_example = answers_to-in_order ℕ tool "search" requests session

has_remaining-capture_example :
    (has_remaining ℕ tool "search" (capture ℕ (λ v. v) tool "search" 0 40 none none session)
      ≡ false)
    × (peek ℕ tool "fetch" (capture ℕ (λ v. v) tool "search" 0 40 none none session)
        ≡ peek ℕ tool "fetch" session)
unfolding is_kind
has_remaining-capture_example =
    has_remaining-capture ℕ (λ v. v) tool "search" 0 40 none none session tool "fetch" refl
