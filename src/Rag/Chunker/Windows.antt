-- ===== src/Rag/Chunker/Windows.antt =====
-- The chunks of a document cover it, with exactly the overlap that was asked for.
use mathlib.Core.List.{append-nil}
use go_rag_agent.Base.{
  ℕ, zero, suc, ◌+◌, ◌-◌, ◌≤◌, ◌<◌, ◌≡◌, refl, sym, ap, subst, ◌∙◌, List, [], ◌∷◌, ◌++◌, arith, min,
  ℤ, length, take, drop, slice, Text, le-or-lt, inl, inr, length-take, length-drop,
  take-append-drop, drop-append, drop-drop, take_of_length-le,
}
use go_rag_agent.Rag.Chunker.{
  Chunker, Chunk, Document, chunk_at, split_from, split, new_chunker, ok,
}

pub record IsValid (c : Chunker) : Type 0 where
  pub smaller : c.overlap < c.size

pub new_chunker-IsValid :
    (size overlap : ℤ) {c : Chunker} → new_chunker size overlap ≡ ok c → IsValid c
unfolding new_chunker
new_chunker-IsValid size overlap h = ground arith

-- The texts joined, with the overlap of all but the first dropped.
pub glue_tail : ℕ → List Chunk → Text
glue_tail o [] = []
glue_tail o (c ∷ cs) = drop o c.text ++ glue_tail o cs

unfoldable pub glue : ℕ → List Chunk → Text
unfolding glue_tail
glue o [] = []
glue o (c ∷ cs) = c.text ++ glue_tail o cs

module _ {A : Type 0} where
  drop-take-append :
      (o n : ℕ) (xs : List A) → o ≤ n → n ≤ length xs → drop o (take n xs) ++ drop n xs ≡ drop o xs
  drop-take-append o n xs h k =
      sym (drop-append o (take n xs) (drop n xs) (omega (arith, length-take n xs)))
      ∙ ap (drop o) (take-append-drop n xs)

text-last :
    (c : Chunker) (doc : Document) (start index : ℕ)
    → length doc.content ≤ start + c.size
    → (chunk_at c doc start index).text ≡ drop start doc.content
unfolding chunk_at
text-last c doc start index h =
    take_of_length-le _ (drop start doc.content) (omega (arith, length-drop start doc.content))

text-more :
    (c : Chunker) (doc : Document) (start index : ℕ)
    → start + c.size < length doc.content
    → (chunk_at c doc start index).text ≡ take c.size (drop start doc.content)
unfolding chunk_at
text-more c doc start index h =
    let e : min (start + c.size) (length doc.content) - start ≡ c.size = omega arith in rw e

-- One round of the loop.
split_from-last :
    (c : Chunker) (doc : Document) (fuel start index : ℕ)
    → start < length doc.content
    → length doc.content ≤ start + c.size
    → split_from c doc (suc fuel) start index ≡ chunk_at c doc start index ∷ []
unfolding split_from
split_from-last c doc fuel start index h k = ground arith

split_from-more :
    (c : Chunker) (doc : Document) (fuel start index : ℕ)
    → start + c.size < length doc.content
    → split_from c doc (suc fuel) start index
      ≡ chunk_at c doc start index
        ∷ split_from c doc fuel (start + (c.size - c.overlap)) (index + 1)
unfolding split_from
split_from-more c doc fuel start index h = ground arith

glue_tail-split_from :
    (c : Chunker) (doc : Document) (fuel start index : ℕ)
    → IsValid c
    → start + c.overlap < length doc.content
    → length doc.content ≤ start + fuel
    → glue_tail c.overlap (split_from c doc fuel start index) ≡ drop (start + c.overlap) doc.content
unfolding glue_tail
glue_tail-split_from c doc zero start index v h f = absurd (omega arith)
glue_tail-split_from c doc (suc fuel) start index v h f =
    elim (le-or-lt (length doc.content) (start + c.size)) [
      | inl short ↦ rw (split_from-last c doc fuel start index (omega arith) short) (
          append-nil (drop c.overlap (chunk_at c doc start index).text)
          ∙ (ap (drop c.overlap) (text-last c doc start index short)
              ∙ drop-drop c.overlap start doc.content))
      | inr long ↦
          let ih =
            glue_tail-split_from c doc fuel (start + (c.size - c.overlap)) (index + 1) v
              (omega arith) (omega arith) in
          let same : start + (c.size - c.overlap) + c.overlap ≡ start + c.size = omega arith in
          let rest =
            ih ∙ (ap (λ k. drop k doc.content) same ∙ sym (drop-drop c.size start doc.content)) in
          rw (split_from-more c doc fuel start index long, text-more c doc start index long, rest)
            (drop-take-append c.overlap c.size (drop start doc.content) (omega arith)
                (omega (arith, length-drop start doc.content))
              ∙ drop-drop c.overlap start doc.content)
    ]

glue-split_from :
    (c : Chunker) (doc : Document) (fuel start index : ℕ)
    → IsValid c
    → start < length doc.content
    → length doc.content ≤ start + fuel
    → glue c.overlap (split_from c doc fuel start index) ≡ drop start doc.content
unfolding glue
glue-split_from c doc zero start index v h f = absurd (omega arith)
glue-split_from c doc (suc fuel) start index v h f =
    elim (le-or-lt (length doc.content) (start + c.size)) [
      | inl short ↦
          rw (split_from-last c doc fuel start index h short)
            (append-nil (chunk_at c doc start index).text ∙ text-last c doc start index short)
      | inr long ↦
          let ih =
            glue_tail-split_from c doc fuel (start + (c.size - c.overlap)) (index + 1) v
              (omega arith) (omega arith) in
          let same : start + (c.size - c.overlap) + c.overlap ≡ start + c.size = omega arith in
          let rest =
            ih ∙ (ap (λ k. drop k doc.content) same ∙ sym (drop-drop c.size start doc.content)) in
          rw (split_from-more c doc fuel start index long, text-more c doc start index long, rest)
            (take-append-drop c.size (drop start doc.content))
    ]

nil_of_length : (xs : Text) → length xs ≤ 0 → xs ≡ []
nil_of_length [] h = refl
nil_of_length (x ∷ xs) h = absurd (omega arith)

glue-split_empty :
    (c : Chunker) (doc : Document) → doc.content ≡ [] → glue c.overlap (split c doc) ≡ doc.content
unfolding split split_from glue
glue-split_empty c doc e =
    subst (λ xs. glue c.overlap (split_from c doc (length xs) 0 0) ≡ xs) (sym e) refl

-- With a chunker that `NewChunker` accepts, the texts of the chunks, joined with the overlap of all
-- but the first dropped, are the document's content: nothing is lost, repeated or reordered.
pub split-glue :
    (size overlap : ℤ) (doc : Document) {c : Chunker}
    → new_chunker size overlap ≡ ok c
    → glue c.overlap (split c doc) ≡ doc.content
unfolding split
split-glue size overlap doc {c} made =
    let v = new_chunker-IsValid size overlap made in
    elim (le-or-lt (length doc.content) 0) [
      | inl nothing ↦ glue-split_empty c doc (nil_of_length doc.content nothing)
      | inr some_text ↦ glue-split_from c doc (length doc.content) 0 0 v some_text (omega arith)
    ]

-- Windows of the full size, each one step behind the one before it, up to a last one that ends with
-- the content and is not empty.
abbrev pub Windows : Chunker → Document → ℕ → List Chunk → Type 0
Windows c doc start [] = ⊥
Windows c doc start (last ∷ []) =
    (last.start_rune ≡ start)
    × (last.end_rune ≡ length doc.content)
    × (start < last.end_rune)
    × (last.end_rune ≤ start + c.size)
    × (last.text ≡ slice start last.end_rune doc.content)
    × (last.parent_id ≡ doc.id)
Windows c doc start (chunk ∷ next ∷ rest) =
    (chunk.start_rune ≡ start)
    × (chunk.end_rune ≡ start + c.size)
    × (chunk.end_rune < length doc.content)
    × (chunk.text ≡ slice start chunk.end_rune doc.content)
    × (chunk.parent_id ≡ doc.id)
    × Windows c doc (start + (c.size - c.overlap)) (next ∷ rest)

Windows-cons :
    (c : Chunker) (doc : Document) (start : ℕ) (chunk : Chunk) (rest : List Chunk)
    → (chunk.start_rune ≡ start)
      × (chunk.end_rune ≡ start + c.size)
      × (chunk.end_rune < length doc.content)
      × (chunk.text ≡ slice start chunk.end_rune doc.content)
      × (chunk.parent_id ≡ doc.id)
    → Windows c doc (start + (c.size - c.overlap)) rest
    → Windows c doc start (chunk ∷ rest)
Windows-cons c doc start chunk [] h w = absurd w
Windows-cons c doc start chunk (next ∷ rest) (a, b, d, e, f) w = (a, b, d, e, f, w)

split_from-Windows :
    (c : Chunker) (doc : Document) (fuel start index : ℕ)
    → IsValid c
    → start < length doc.content
    → length doc.content ≤ start + fuel
    → Windows c doc start (split_from c doc fuel start index)
unfolding chunk_at
split_from-Windows c doc zero start index v h f = absurd (omega arith)
split_from-Windows c doc (suc fuel) start index v h f =
    elim (le-or-lt (length doc.content) (start + c.size)) [
      | inl short ↦
          rw (split_from-last c doc fuel start index h short)
            (refl, omega arith, omega arith, omega arith, refl, refl)
      | inr long ↦ rw (split_from-more c doc fuel start index long) (
          Windows-cons c doc start (chunk_at c doc start index) _
            (refl, omega arith, omega arith, refl, refl)
            (split_from-Windows c doc fuel (start + (c.size - c.overlap)) (index + 1) v
              (omega arith) (omega arith)))
    ]

-- The chunks of a document that is not empty are windows of the configured size, each starting
-- `size - overlap` runes behind the one before it, and the last one ends with the content.
split-Windows :
    (size overlap : ℤ) (doc : Document) {c : Chunker}
    → new_chunker size overlap ≡ ok c
    → 0 < length doc.content
    → Windows c doc 0 (split c doc)
unfolding split
split-Windows size overlap doc {c} made some_text =
    split_from-Windows c doc (length doc.content) 0 0 (new_chunker-IsValid size overlap made)
      some_text (omega arith)
