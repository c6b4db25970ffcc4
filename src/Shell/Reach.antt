-- ===== src/Shell/Reach.antt =====
-- The states that the input of a shell can reach, indexed by the keys that were typed.
use zli.Prelude.{ltb}
use zli.Prelude.{Bool-cases}
use zli.Shell.{started_timer}
use zli.Prelude.{
  ℕ, ◌+◌, ◌*◌, ◌≤◌, Option, some, none, List, [], ◌∷◌, ◌++◌, String, ◌∙◌, ◌-◌, subst, ◌≡◌, ◌⊎◌, inl,
  inr, refl, sym, arith,
}
use Prim.Native.String.{◌++◌ as text_append}
use zli.Shell.{InputState, initial_input, next_delay, keypress, send_input, join, joined}
use text.Mathlib.TextLemmas.{append_assoc as text_assoc, append-nil as text-append-nil}
use zli.Shell.Chunks.{buffer_chunks_lem, join-append, join-joined}

-- A key is typed, or the timer fires, which it can while it is set.
pub data Typed : List String → InputState → Type 0 where
  begin : (now : ℕ) → Typed [] (initial_input now)
  press :
      {keys : List String} {s : InputState} (now later : ℕ) (key : String)
      → Typed keys s
      → Typed (keys ++ (key ∷ [])) (keypress now later key s)
  fire :
      {keys : List String} {s t : InputState} {delay : ℕ}
      → Typed keys s
      → s.timer ≡ some delay
      → send_input s ≡ some t
      → Typed keys t

-- What the firing of a timer does to the state, in one step that cannot fail.
send_input_lem :
    (s : InputState)
    → (t : InputState) × (send_input s ≡ some t)
      × (t.input_buffer ≡ [])
      × (t.timer ≡ none)
      × (t.max_input_delay ≡ s.max_input_delay)
      × (join t.written ≡ text_append (join s.written) (join s.input_buffer))
unfolding send_input
send_input_lem s =
    let (sent, e, f, k) = buffer_chunks_lem 10000 s.input_buffer (omega arith) in
    (
      record s { input_buffer = []; timer = none; written = s.written ++ joined sent },
      rw e refl,
      refl,
      refl,
      refl,
      rw (join-append s.written (joined sent), join-joined sent, f) refl,
    )

next_delay_lem :
    (now previous n : ℕ)
    → n ≤ 20
    → (m : ℕ) × (next_delay now previous (1 + 5 * n) ≡ 1 + 5 * m) × (m ≤ 20)
unfolding next_delay
next_delay_lem now previous n h = elim (Bool-cases (ltb (now - previous) 5)) [
  | inl quick ↦ elim (Bool-cases (ltb (1 + 5 * n) 101)) [
    | inl below ↦ (n + 1, ground arith, ground arith)
    | inr full ↦ (n, ground arith, h)
  ]
  | inr slow ↦ (0, ground arith, omega arith)
]

-- The timer is set just when keys wait for it.
abbrev pub IsAwaited : Option ℕ → List String → Type 0
IsAwaited none [] = Unit
IsAwaited none (key ∷ rest) = ⊥
IsAwaited (some delay) [] = ⊥
IsAwaited (some delay) (key ∷ rest) = Unit

IsAwaited-cases :
    (timer : Option ℕ) (buffer : List String)
    → IsAwaited timer buffer
    → ((timer ≡ none) × (buffer ≡ [])) ⊎ ((delay : ℕ) × (timer ≡ some delay))
IsAwaited-cases none [] h = inl (refl, refl)
IsAwaited-cases none (key ∷ rest) h = absurd h
IsAwaited-cases (some delay) buffer h = inr (delay, refl)

started_timer-IsAwaited :
    (timer : Option ℕ) (delay : ℕ) (buffer : List String) (key : String)
    → IsAwaited (started_timer timer delay) (buffer ++ (key ∷ []))
started_timer-IsAwaited none delay [] key = tt
started_timer-IsAwaited none delay (k ∷ rest) key = tt
started_timer-IsAwaited (some d) delay [] key = tt
started_timer-IsAwaited (some d) delay (k ∷ rest) key = tt

-- No key is lost, doubled or out of order; the timer is set just when keys wait; the delay is
-- 1, 6, …, 101.
abbrev pub IsSound : List String → InputState → Type 0
IsSound keys s =
    (text_append (join s.written) (join s.input_buffer) ≡ join keys)
    × IsAwaited s.timer s.input_buffer
    × ((n : ℕ) × (s.max_input_delay ≡ 1 + 5 * n) × (n ≤ 20))

keypress-IsSound :
    (keys : List String) (s : InputState) (now later : ℕ) (key : String)
    → IsSound keys s
    → IsSound (keys ++ (key ∷ [])) (keypress now later key s)
unfolding keypress
keypress-IsSound keys s now later key (text, awaited, (n, e, h)) = (
  rw (join-append s.input_buffer (key ∷ []), join-append keys (key ∷ []), sym text)
      (sym (text_assoc (join s.written) (join s.input_buffer) (join (key ∷ [])))),
  started_timer-IsAwaited s.timer _ s.input_buffer key,
  rw e (next_delay_lem now s.previous_input n h),
)

fired-IsSound :
    (keys : List String) (s t : InputState)
    → send_input s ≡ some t
    → IsSound keys s
    → IsSound keys t
fired-IsSound keys s t e (text, awaited, delay) =
    let (u, f, empty, stopped, same_delay, sent) = send_input_lem s in
    let same : u ≡ t = cc in
    subst (IsSound keys) same (
      rw (empty, sent, text) (text-append-nil (join keys)),
      rw (empty, stopped) tt,
      rw same_delay delay,
    )

-- After any keys and any firings of the timer between them: what was written and what waits is what
-- was typed, in order; the timer is set just when keys wait; and the delay is one of 1, 6, …, 101.
pub Typed-IsSound : {keys : List String} {s : InputState} → Typed keys s → IsSound keys s
unfolding initial_input
Typed-IsSound (begin now) = (refl, tt, (0, refl, omega arith))
Typed-IsSound (press now later key r) = keypress-IsSound _ _ now later key (Typed-IsSound r)
Typed-IsSound (fire r e f) = fired-IsSound _ _ _ f (Typed-IsSound r)

-- Whatever keys were typed, and however the timer came between them, either all of them were
-- written, or the timer is set, and when it fires nothing goes wrong and all of them are written.
pub Typed-sent :
    (keys : List String) (s : InputState)
    → Typed keys s
    → ((s.timer ≡ none) × (join s.written ≡ join keys))
      ⊎ ((delay : ℕ) × (t : InputState) × (s.timer ≡ some delay)
          × (send_input s ≡ some t)
          × (t.timer ≡ none)
          × (join t.written ≡ join keys))
Typed-sent keys s r =
    let (text, awaited, delays) = Typed-IsSound r in
    elim (IsAwaited-cases s.timer s.input_buffer awaited) [
      | inl (stopped, empty) ↦
          inl (stopped, sym (text-append-nil (join s.written)) ∙ (rw empty at text))
      | inr (delay, set) ↦
          let (t, f, empty, stopped, same_delay, sent) = send_input_lem s in
          inr (delay, t, set, f, stopped, rw (sent, text) refl)
    ]
