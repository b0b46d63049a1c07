-- ===== src/Logger/CallSite.antt =====
-- `captureCallSite` of packages/logger/src/logger.ts. The stack trace of the runtime is given.
use cdk_log_to_s.Prelude.{
  ℕ, zero, suc, ◌+◌, ◌==◌, Text, codes, text_eq, trim, drop, drop_while, is_space, Bool, true,
  false, ◌&&◌, ◌||◌, not, starts_with, [], ◌∷◌, Option, none, some, map, if◌then◌else◌,
}

-- `s.split('\n')[n]`.
unfoldable pub line_at : ℕ → Text → Option Text
line_at zero [] = some []
line_at (suc n) [] = none
line_at zero (c ∷ s) =
    let rest = line_at zero s in
    if c == b'\n' then some [] else elim rest [ some line ↦ some (c ∷ line) | none ↦ none ]
line_at (suc n) (c ∷ s) =
    let next = line_at n s in let rest = line_at (suc n) s in if c == b'\n' then next else rest

-- What `.` of a regular expression does not match.
abbrev pub is_terminator : ℕ → Bool
is_terminator c = c == 10 || c == 13 || c == 0x2028 || c == 0x2029

-- The text before a last `)`, if it is not empty and `.` matches its units.
unfoldable pub up_to_close : Text → Option Text
up_to_close [] = none
up_to_close (c ∷ []) = none
up_to_close (c ∷ d ∷ []) = if d == b')' && not (is_terminator c) then some (c ∷ []) else none
up_to_close (c ∷ d ∷ e ∷ s) =
    let rest = up_to_close (d ∷ e ∷ s) in
    if is_terminator c then none else elim rest [ some t ↦ some (c ∷ t) | none ↦ none ]

-- The group of `/\((.+?)\)$/`: the leftmost parenthesis from which the rest matches.
unfoldable pub parenthesised : Text → Option Text
parenthesised [] = none
parenthesised (c ∷ s) =
    let later = parenthesised s in
    let here = up_to_close s in
    if c == b'(' then elim here [ some t ↦ some t | none ↦ later ] else later

unfoldable pub no_terminator : Text → Bool
no_terminator [] = true
no_terminator (c ∷ s) = not (is_terminator c) && no_terminator s

starts_space : Text → Bool
starts_space [] = false
starts_space (c ∷ s) = is_space c

-- The group of `/^at\s+(.+)$/`, for a text that does not end in white space.
unfoldable pub after_at : Text → Option Text
unfolding starts_space
after_at line =
    let tail = drop 2 line in
    let rest = drop_while is_space tail in
    if starts_with (codes "at") line
      && starts_space tail
      && not (text_eq rest [])
      && no_terminator rest
    then some rest
    else none

-- `s.indexOf(p)`, or `none` for -1.
unfoldable pub index_of : Text → Text → Option ℕ
index_of p [] = if text_eq p [] then some 0 else none
index_of p (c ∷ s) =
    let rest = index_of p s in
    if starts_with p (c ∷ s) then some 0 else elim rest [ some i ↦ some (suc i) | none ↦ none ]

-- `.replace(/\\/g, '/')`.
abbrev pub forward_slashes : Text → Text
forward_slashes s = map (λ c. if c == b'\\' then b'/' else c) s

first_match : Option Text → Option Text → Option Text
first_match none m = m
first_match (some t) m = some t

-- `idx >= 0 ? location.slice(idx + 1) : location`.
unfoldable pub below_root : Text → Text → Text
below_root root_marker location = elim (index_of root_marker location) [
  | some i ↦ drop (i + 1) location
  | none ↦ location
]

-- The frame of a line of the stack that is not empty.
unfoldable pub frame_of : Text → Text → Text
unfolding first_match
frame_of root_marker line = elim (first_match (parenthesised (trim line)) (after_at (trim line))) [
  | none ↦ trim line
  | some m ↦ below_root root_marker (forward_slashes m)
]

-- The empty text counts as undefined.
unfoldable pub truthy : Option Text → Option Text
truthy none = none
truthy (some []) = none
truthy (some (c ∷ s)) = some (c ∷ s)

unfoldable pub line_of : ℕ → Text → Text → Option Text
line_of skip root_marker stack = elim (truthy (line_at (skip + 1) stack)) [
  | none ↦ none
  | some line ↦ some (frame_of root_marker line)
]

unfoldable pub capture_call_site : Option Text → ℕ → Text → Option Text
capture_call_site stack skip root_marker = elim (truthy stack) [
  | none ↦ none
  | some s ↦ line_of skip root_marker s
]
