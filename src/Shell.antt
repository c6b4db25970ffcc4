-- ===== src/Shell.antt =====
-- utils/shell-utils.ts: the keys typed into a shell, which are gathered and sent in chunks after a
-- delay, and the space that the zli uses.
pub mod Chunks
pub mod Reach
mod Space
mod Tests
use zli.Prelude.{
  ℕ, zero, suc, ◌+◌, ◌-◌, Bool, true, false, ◌&&◌, Option, some, none, List, [], ◌∷◌, ◌++◌, String,
  ltb, leb, if◌then◌else◌, length, take, drop, filter, string_key, ◌==◌,
}
use Prim.Native.String.{◌++◌ as text_append}

-- The variables of `createAndRunShell` that the handlers of its events share. `timer` is
-- `bufferFunction` with the delay that it was started with; `written` is what was passed to
-- `terminal.writeString`, in order.
pub record InputState : Type 0 where
  pub max_input_delay : ℕ
  pub previous_input : ℕ
  pub input_buffer : List String
  pub timer : Option ℕ
  pub written : List String

unfoldable pub initial_input : ℕ → InputState
initial_input now = record {
  max_input_delay = 1;
  previous_input = now;
  input_buffer = [];
  timer = none;
  written = [];
}

-- `maxInputDelay` after a key: below 5 ms after the key before it grows by 5 up to the limit of
-- 101, else it starts again. A clock that went back counts as below 5 ms, as it does in the code.
unfoldable pub next_delay : ℕ → ℕ → ℕ → ℕ
next_delay now previous delay =
    if ltb (now - previous) 5 then (if ltb delay 101 then delay + 5 else delay) else 1

abbrev pub started_timer : Option ℕ → ℕ → Option ℕ
started_timer none delay = some delay
started_timer (some d) delay = some d

-- The handler of `keypress`. It reads the clock twice: `now` for the test, `later` for
-- `previousInput`.
unfoldable pub keypress : ℕ → ℕ → String → InputState → InputState
keypress now later key s =
    let delay = next_delay now s.previous_input s.max_input_delay in
    record s {
      input_buffer = s.input_buffer ++ (key ∷ []);
      max_input_delay = delay;
      previous_input = later;
      timer = started_timer s.timer delay;
    }

-- `join('')`
abbrev pub join : List String → String
join [] = ""
join (s ∷ rest) = text_append s (join rest)

abbrev pub and_first {ℓ} : {A : Type ℓ} → A → Option (List A) → Option (List A)
and_first a none = none
and_first a (some rest) = some (a ∷ rest)

-- `for (let i = …; i < inputBuffer.length; i += chunk)`, with the slices that it takes, in at most
-- as many rounds as the first argument says.
unfoldable pub buffer_chunks {ℓ} : {A : Type ℓ} → ℕ → ℕ → ℕ → List A → Option (List (List A))
buffer_chunks zero chunk i buffer = if ltb i (length buffer) then none else some []
buffer_chunks (suc rounds) chunk i buffer =
    let rest = buffer_chunks rounds chunk (i + chunk) buffer in
    if ltb i (length buffer) then and_first (take chunk (drop i buffer)) rest else some []

abbrev pub joined : List (List String) → List String
joined [] = []
joined (chunk ∷ rest) = join chunk ∷ joined rest

abbrev pub flush : Option (List (List String)) → InputState → Option InputState
flush none s = none
flush (some chunks) s =
    some (record s { input_buffer = []; timer = none; written = s.written ++ joined chunks })

-- The function that the timer calls, with a round of its loop for each key of the buffer.
unfoldable pub send_input : InputState → Option InputState
send_input s = flush (buffer_chunks (length s.input_buffer) 10000 0 s.input_buffer) s

-- `is_active` is `state == SpaceState.Active`.
pub record SpaceSummary : Type 0 where
  pub id : String
  pub display_name : String
  pub is_active : Bool

abbrev pub is_cli_space : SpaceSummary → Bool
is_cli_space s = (s.display_name == "cli-space") && s.is_active

-- `pop`: the last element.
abbrev pub last {ℓ} : {A : Type ℓ} → A → List A → A
last x [] = x
last x (y ∷ rest) = last y rest

-- The space of a filtered list, and whether the warning on several of them is logged.
abbrev pub chosen_space : List SpaceSummary → Option SpaceSummary × Bool
chosen_space [] = (none, false)
chosen_space (s ∷ []) = (some s, false)
chosen_space (s ∷ t ∷ rest) = (some (last t rest), true)

unfoldable pub get_cli_space : List SpaceSummary → Option SpaceSummary × Bool
get_cli_space spaces = chosen_space (filter is_cli_space spaces)
