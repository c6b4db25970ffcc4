-- ===== src/Shell/Tests.antt =====
-- Two keys are typed, and the timer fires between them; a buffer of three keys in chunks of two.
use zli.Shell.{next_delay}
use zli.Prelude.{List, [], ◌∷◌, ◌≡◌, refl, some, none, ◌⊎◌, length, arith, ℕ, String}
use zli.Shell.{InputState, initial_input, keypress, buffer_chunks, send_input, join}
use zli.Shell.Chunks.{AreChunks, buffer_chunks_lem}
use zli.Shell.Reach.{Typed, begin, press, fire, IsSound, Typed-IsSound, Typed-sent}

abbrev keys : List String
keys = "l" ∷ "s" ∷ "\r" ∷ []

buffer_chunks_lem_example : AreChunks 2 keys (buffer_chunks (length keys) 2 0 keys)
buffer_chunks_lem_example = buffer_chunks_lem 2 keys (omega arith)

chunks_of_two : buffer_chunks 3 2 0 keys ≡ some (("l" ∷ "s" ∷ []) ∷ ("\r" ∷ []) ∷ [])
unfolding buffer_chunks
chunks_of_two = refl

abbrev one_key : InputState
one_key = keypress 103 103 "l" (initial_input 100)

abbrev sent_key : InputState
sent_key = record {
  max_input_delay = 6;
  previous_input = 103;
  input_buffer = [];
  timer = none;
  written = "l" ∷ [];
}

sent : send_input one_key ≡ some sent_key
unfolding send_input keypress initial_input next_delay buffer_chunks
sent = refl

first_key : Typed ("l" ∷ []) one_key
first_key = press 103 103 "l" (begin 100)

timer_set : one_key.timer ≡ some 6
unfolding keypress initial_input next_delay
timer_set = refl

second_key : Typed ("l" ∷ "s" ∷ []) (keypress 900 901 "s" sent_key)
second_key = press 900 901 "s" (fire first_key timer_set sent)

Typed-IsSound_example : IsSound ("l" ∷ "s" ∷ []) (keypress 900 901 "s" sent_key)
Typed-IsSound_example = Typed-IsSound second_key

abbrev two_keys : InputState
two_keys = keypress 900 901 "s" sent_key

Typed-sent_example :
    ((two_keys.timer ≡ none) × (join two_keys.written ≡ join ("l" ∷ "s" ∷ [])))
    ⊎ ((delay : ℕ) × (t : InputState) × (two_keys.timer ≡ some delay)
        × (send_input two_keys ≡ some t)
        × (t.timer ≡ none)
        × (join t.written ≡ join ("l" ∷ "s" ∷ [])))
Typed-sent_example = Typed-sent ("l" ∷ "s" ∷ []) two_keys second_key
