-- ===== src/Logger/Frames.antt =====
-- The line of a stack trace that `captureCallSite` takes, by the lines that the trace is made of.
use cdk_log_to_s.Prelude.{
  ℕ, zero, suc, ◌==◌, Text, false, List, [], ◌∷◌, ◌++◌, Option, none, some, ◌or_else◌, All, ◌≡◌,
  refl, ap, ◌∙◌,
}
use cdk_log_to_s.Logger.CallSite.{line_at, truthy, frame_of, line_of, capture_call_site}

abbrev pub IsLine : Text → Type 0
IsLine l = All (λ c. (c == b'\n') ≡ false) l

-- The text of lines, with a line feed between two.
abbrev pub joined : List Text → Text
joined [] = []
joined (l ∷ []) = l
joined (l ∷ m ∷ lines) = l ++ b'\n' ∷ joined (m ∷ lines)

abbrev nth : ℕ → List Text → Option Text
nth n [] = none
nth zero (l ∷ lines) = some l
nth (suc n) (l ∷ lines) = nth n lines

line_at-zero : (l : Text) → IsLine l → line_at zero l ≡ some l
unfolding line_at
line_at-zero [] h = refl
line_at-zero (c ∷ l) h = rw (h.0, line_at-zero l h.1) refl

line_at-first : (l rest : Text) → IsLine l → line_at zero (l ++ b'\n' ∷ rest) ≡ some l
unfolding line_at
line_at-first [] rest h = refl
line_at-first (c ∷ l) rest h = rw (h.0, line_at-first l rest h.1) refl

line_at-beyond : (n : ℕ) (l : Text) → IsLine l → line_at (suc n) l ≡ none
unfolding line_at
line_at-beyond n [] h = refl
line_at-beyond n (c ∷ l) h = rw (h.0) (line_at-beyond n l h.1)

line_at-next :
    (n : ℕ) (l rest : Text) → IsLine l → line_at (suc n) (l ++ b'\n' ∷ rest) ≡ line_at n rest
unfolding line_at
line_at-next n [] rest h = refl
line_at-next n (c ∷ l) rest h = rw (h.0) (line_at-next n l rest h.1)

line_at-joined :
    (n : ℕ) (m : Text) (lines : List Text)
    → All IsLine (m ∷ lines)
    → line_at n (joined (m ∷ lines)) ≡ nth n (m ∷ lines)
line_at-joined zero m [] h = line_at-zero m h.0
line_at-joined (suc n) m [] h = line_at-beyond n m h.0
line_at-joined zero m (l ∷ lines) h = line_at-first m (joined (l ∷ lines)) h.0
line_at-joined (suc n) m (l ∷ lines) h =
    line_at-next n m (joined (l ∷ lines)) h.0 ∙ line_at-joined n l lines h.1

-- The frame behind the heading and three more lines, if there is a text in its line.
abbrev pub due_frame : Text → List Text → Option Text
due_frame marker (heading ∷ a ∷ b ∷ c ∷ (d ∷ line) ∷ lines) = some (frame_of marker (d ∷ line))
due_frame marker _ = none

abbrev frame_in : Text → Option Text → Option Text
frame_in marker o = elim (truthy o) [ none ↦ none | some line ↦ some (frame_of marker line) ]

line_of-frame_in : (marker s : Text) → line_of 3 marker s ≡ frame_in marker (line_at 4 s)
unfolding line_of
line_of-frame_in marker s = refl

frame_in-due_frame :
    (marker : Text) (lines : List Text) → frame_in marker (nth 4 lines) ≡ due_frame marker lines
unfolding truthy
frame_in-due_frame marker [] = refl
frame_in-due_frame marker (l0 ∷ []) = refl
frame_in-due_frame marker (l0 ∷ l1 ∷ []) = refl
frame_in-due_frame marker (l0 ∷ l1 ∷ l2 ∷ []) = refl
frame_in-due_frame marker (l0 ∷ l1 ∷ l2 ∷ l3 ∷ []) = refl
frame_in-due_frame marker (l0 ∷ l1 ∷ l2 ∷ l3 ∷ [] ∷ lines) = refl
frame_in-due_frame marker (l0 ∷ l1 ∷ l2 ∷ l3 ∷ (d ∷ line) ∷ lines) = refl

line_at-nth : (lines : List Text) → All IsLine lines → line_at 4 (joined lines) ≡ nth 4 lines
line_at-nth [] h = unfold line_at in refl
line_at-nth (m ∷ lines) h = line_at-joined 4 m lines h

line_of-joined :
    (marker : Text) (lines : List Text)
    → All IsLine lines
    → line_of 3 marker (joined lines) ≡ due_frame marker lines
line_of-joined marker lines h =
    line_of-frame_in marker (joined lines)
    ∙ ap (frame_in marker) (line_at-nth lines h)
    ∙ frame_in-due_frame marker lines

capture-line_of :
    (stack : Option Text) (marker : Text)
    → capture_call_site stack 3 marker ≡ line_of 3 marker (stack or_else [])
unfolding capture_call_site line_of truthy line_at
capture-line_of none marker = refl
capture-line_of (some []) marker = refl
capture-line_of (some (c ∷ s)) marker = refl

-- Whatever the lines are, the frame is that of the line behind the heading and the three frames of
-- the logger.
pub capture_call_site-due_frame :
    (stack : Option Text) (marker : Text) (lines : List Text)
    → (stack or_else []) ≡ joined lines
    → All IsLine lines
    → capture_call_site stack 3 marker ≡ due_frame marker lines
capture_call_site-due_frame stack marker lines e h =
    capture-line_of stack marker ∙ ap (line_of 3 marker) e ∙ line_of-joined marker lines h
