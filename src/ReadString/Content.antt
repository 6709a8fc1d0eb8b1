-- ===== src/ReadString/Content.antt =====
-- The content of a body stream, without its pauses and the cuts between its chunks, and what
-- `ReadToString` of src/server/field/mod.rs makes of it.
use mathlib.Core.Quot
use mathlib.Core.Quot.{Quot}
use multipart_async.Base.{
  ℕ, ◌<◌, ◌≡◌, refl, ◌∙◌, List, Bytes, length, Option, none, Bool-cases, inl, inr, Returns,
  Returns-map, if◌then◌else◌,
}
use multipart_async.Stream.{Result, ok, err, Event, Error}
use multipart_async.Finder.Spec.{payload}
use multipart_async.ReadString.{ReadToString, TryStream, new, poll}
use multipart_async.ReadString.Whole.{fails, Gives}
use multipart_async.ReadString.Driven.{
  Answered, Answered-text, text_of, utf8_text, run_future_hot-Answered,
}
use multipart_async.TestUtil.{run_future_hot}

module _ (E : Type 0) where
  -- the same bytes, and both with an error or both without
  abbrev SameContent : List (Event E) → List (Event E) → Type 0
  SameContent a b = (payload a ≡ payload b) × (fails a ≡ fails b)

  -- The answers of a stream, without the pauses, the cuts between the chunks, and which error ends them.
  abbrev pub Content : Type 0
  Content = Quot SameContent

  -- The text of a list of answers: none if there is an error among them or the bytes are no valid UTF-8.
  answers_text : List (Event E) → Option Bytes
  answers_text events = if fails events then none else utf8_text (payload events)

  answers_text-SameContent :
      (a b : List (Event E)) → SameContent a b → answers_text a ≡ answers_text b
  unfolding answers_text
  answers_text-SameContent a b (same, same_fails) = rw (same, same_fails) refl

  pub content_text : Content → Option Bytes
  content_text = Quot.lift (hlevel) answers_text answers_text-SameContent

module _ {S E : Type 0} (st : TryStream S E) (Ended : S → Type 0) (events : List (Event E)) where
  Answered-content_text :
      (result : Result Bytes (Error E)) (r : ReadToString S)
      → Answered st Ended events result r
      → text_of result ≡ content_text E (Quot.mk events)
  unfolding content_text answers_text
  Answered-content_text (ok s) r (text, same, fine, ended) =
      Answered-text st Ended events fine (ok s) r (text, same, fine, ended) ∙ rw fine refl
  Answered-content_text (err e) r h = elim (Bool-cases (fails events)) [
    | inl bad ↦ rw bad refl
    | inr fine ↦ Answered-text st Ended events fine (err e) r h ∙ rw fine refl
  ]

  -- What a `ReadToString` over a stream returns depends on the content of the stream only: if the stream
  -- gives the answers `events` and is polled more often than there are answers, it returns the text of the
  -- class of `events` under "the same bytes, and with or without an error", or an error if that has none.
  pub run_future_hot-content_text :
      (s : S) (fuel : ℕ)
      → Gives st Ended s events
      → length events < fuel
      → Returns
          (λ (result, r). text_of result ≡ content_text E (Quot.mk events))
          (run_future_hot fuel (poll st) (new s))
  run_future_hot-content_text s fuel gives enough =
      Returns-map (λ (result, r) h. Answered-content_text result r h)
        (run_future_hot fuel (poll st) (new s))
        (run_future_hot-Answered st Ended events s fuel gives enough)
