-- ===== src/Shell/Chunks.antt =====
-- The chunks that the loop of the timer sends.
use zli.Prelude.{
  ℕ, zero, suc, ◌+◌, ◌≤◌, ◌<◌, Option, some, List, [], ◌∷◌, ◌++◌, String, length, take, drop, All,
  take-append-drop, length-take, length-drop, ◌≡◌, ◌∙◌, refl, sym, ltb, arith, ap, Bool-cases, inl,
  inr,
}
use Prim.Native.String.{◌++◌ as text_append}
use text.Mathlib.TextLemmas.{append_assoc as text_assoc, nil-append}
use zli.Shell.{buffer_chunks, join, joined}

module _ {ℓ} {A : Type ℓ} where
  abbrev pub flatten : List (List A) → List A
  flatten [] = []
  flatten (chunk ∷ rest) = chunk ++ flatten rest

  drop-nil : (n : ℕ) → drop {A = A} n [] ≡ []
  drop-nil zero = refl
  drop-nil (suc n) = refl

  drop-drop : (n i : ℕ) (xs : List A) → drop n (drop i xs) ≡ drop (i + n) xs
  drop-drop n zero xs = ap (λ m. drop m xs) (omega arith)
  drop-drop n (suc i) [] = drop-nil n ∙ sym (drop-nil (suc i + n))
  drop-drop n (suc i) (x ∷ xs) =
      let e : suc (i + n) ≡ suc i + n = omega arith in
      drop-drop n i xs ∙ ap (λ m. drop m (x ∷ xs)) e

  pub take-drop-append : (n i : ℕ) (xs : List A) → take n (drop i xs) ++ drop (i + n) xs ≡ drop i xs
  take-drop-append n i xs = rw (sym (drop-drop n i xs)) (take-append-drop n (drop i xs))

  pub drop_of_end : (i : ℕ) (xs : List A) → length xs ≤ i → drop i xs ≡ []
  drop_of_end zero [] h = refl
  drop_of_end zero (x ∷ xs) h = ground arith
  drop_of_end (suc i) [] h = refl
  drop_of_end (suc i) (x ∷ xs) h = drop_of_end i xs (omega arith)

  -- What the loop owes from the index `i` on.
  abbrev pub AreChunks : ℕ → List A → Option (List (List A)) → Type ℓ
  AreChunks chunk buffer chunks =
      (sent : List (List A)) × (chunks ≡ some sent)
      × (flatten sent ≡ buffer)
      × All (λ (c : List A). (1 ≤ length c) × (length c ≤ chunk)) sent

  buffer_chunks_from :
      (rounds chunk i : ℕ) (buffer : List A)
      → 0 < chunk
      → length buffer ≤ rounds + i
      → AreChunks chunk (drop i buffer) (buffer_chunks rounds chunk i buffer)
  unfolding buffer_chunks
  buffer_chunks_from zero chunk i buffer p h =
      ([], ground (arith), sym (drop_of_end i buffer (omega arith)), tt)
  buffer_chunks_from (suc rounds) chunk i buffer p h = elim (Bool-cases (ltb i (length buffer))) [
    | inl e ↦
        let (sent, f, g, k) = buffer_chunks_from rounds chunk (i + chunk) buffer p (omega arith) in
        (
          take chunk (drop i buffer) ∷ sent,
          rw (e, f),
          rw g (take-drop-append chunk i buffer),
          (ground (arith, length-take chunk (drop i buffer), length-drop i buffer), k),
        )
    | inr e ↦ ([], rw e, sym (drop_of_end i buffer (ground arith)), tt)
  ]

  -- For a chunk size above 0, the loop ends within a round for each element of the buffer. What it
  -- takes is the buffer, in order and without loss, in chunks that are not empty and no larger than
  -- the chunk size.
  pub buffer_chunks_lem :
      (chunk : ℕ) (buffer : List A)
      → 0 < chunk
      → AreChunks chunk buffer (buffer_chunks (length buffer) chunk 0 buffer)
  buffer_chunks_lem chunk buffer p =
      buffer_chunks_from (length buffer) chunk 0 buffer p (omega arith)

pub join-append : (xs ys : List String) → join (xs ++ ys) ≡ text_append (join xs) (join ys)
join-append [] ys = sym (nil-append (join ys))
join-append (x ∷ xs) ys = rw (join-append xs ys) (sym (text_assoc x (join xs) (join ys)))

-- Joining the chunks gives the same text as joining their elements.
pub join-joined : (chunks : List (List String)) → join (joined chunks) ≡ join (flatten chunks)
join-joined [] = refl
join-joined (c ∷ rest) = rw (join-append c (flatten rest), join-joined rest) refl
