-- ===== src/Replay/Cursors.antt =====
-- The keys that a session counts its answers under (src/chassis/replay/session.py).
use chassis.Prelude.{String, ◌≡◌, sym, ap, ◌∙◌, nat_beq, nat_eq, string_eq, if◌then◌else◌}
use Prim.Native.Char.{code}
use Prim.Native.String.{◌++◌ as text_append}
use Prim.Native.String.append.{nil, cons}
use chassis.Replay.{BoundaryKind, tool, model, interrupt, snapshot, lifecycle, value, cursor_of}

text_append_inj : (s a b : String) → text_append s a ≡ text_append s b → a ≡ b
text_append_inj String.[] a b h = sym (nil a) ∙ h ∙ nil b
text_append_inj (String.◌∷◌ c s) a b h = text_append_inj s a b (cc (h, cons c s a, cons c s b))

-- The kind that a key of the cursor begins with.
abbrev kind_in : String → BoundaryKind
kind_in String.[] = tool
kind_in (String.◌∷◌ c s) =
    if nat_beq (code c) 109
    then model
    else if nat_beq (code c) 105
    then interrupt
    else if nat_beq (code c) 115
    then snapshot
    else if nat_beq (code c) 108
    then lifecycle
    else tool

kind_in-value : (k : BoundaryKind) (s : String) → kind_in (text_append (value k) s) ≡ k
unfolding value
kind_in-value tool s = ap kind_in (cons _ _ s)
kind_in-value model s = ap kind_in (cons _ _ s)
kind_in-value interrupt s = ap kind_in (cons _ _ s)
kind_in-value snapshot s = ap kind_in (cons _ _ s)
kind_in-value lifecycle s = ap kind_in (cons _ _ s)

-- The keys of the cursor tell boundaries apart.
pub cursor_of_inj :
    (Value : Type 0) (k l : BoundaryKind) (a b : String)
    → cursor_of Value k a ≡ cursor_of Value l b
    → (k ≡ l) × (a ≡ b)
unfolding cursor_of
cursor_of_inj Value k l a b h =
    let kinds : k ≡ l =
      sym (kind_in-value k (text_append ":" a))
      ∙ ap kind_in h
      ∙ kind_in-value l (text_append ":" b) in
    (
      kinds,
      text_append_inj ":" a b (
          text_append_inj (value k) (text_append ":" a) (text_append ":" b)
            (h ∙ ap (λ x. text_append (value x) (text_append ":" b)) (sym kinds))),
    )
