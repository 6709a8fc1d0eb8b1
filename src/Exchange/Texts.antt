-- ===== src/Exchange/Texts.antt =====
-- The texts that a client of src/client/writer.rs writes, read by a server with `read_to_string` of
-- src/server/field/mod.rs.
use multipart_async.Base.{
  ◌≡◌, refl, sym, ap, ◌∙◌, subst, false, List, [], ◌∷◌, Bytes, some, none, ◌<◌, Outcome, value,
  panic, out_of_fuel, arith, append-nil, length, Returns, Returns-map,
}
use multipart_async.Stream.{
  Event, chunk, ready, Result, ok, err, Error, parsing, utf8, stream_error,
}
use multipart_async.Search.{Twoway}
use multipart_async.Finder.Spec.{payload}
use multipart_async.Fields.{Crates, FieldHeaders}
use multipart_async.Text.Scan.{IsUtf8}
use multipart_async.ReadString
use multipart_async.ReadString.{ReadToString}
use multipart_async.ReadString.Whole.{fails, Gives}
use multipart_async.ReadString.Driven.{Answered, run_future_hot-Answered}
use multipart_async.TestUtil.{run_future_hot}
use multipart_async.Multipart.{Multipart, NextField, new_next_field, with_body, poll_next_field}
use multipart_async.Multipart.Whole.{ReadsData, no_data, one_chunk}
use multipart_async.Multipart.Data.{FieldData, poll_data, field_stream, read_to_string}
use multipart_async.Writer
use multipart_async.Writer.{done, vec_sink, Writer}
use multipart_async.Exchange.{Field, write_request}
use multipart_async.Exchange.Steps.{delimiter}
use multipart_async.Exchange.Served.{
  ReadsFields, no_field, one_field, AllReceived, fields_of, answers_of, ReadsFields-write_request,
}

module _ (crates : Crates) ⦃tw : Twoway⦄ {E : Type 0} where
  -- The calls of a server: a future of `next_field`, `read_to_string` of the data of the field that it gives,
  -- and so on until it gives none.
  pub data ReadsTexts : Multipart E → List (FieldHeaders crates × Bytes) → Type 0 where
    no_text :
        (m m' : Multipart E) (n : NextField)
        → poll_next_field crates new_next_field m ≡ value (ready (ok none), n, m')
        → ReadsTexts m []
    one_text :
        (m m' : Multipart E) (n : NextField) (h : FieldHeaders crates) (s : Bytes)
        (r : ReadToString (FieldData E)) (rest : List (FieldHeaders crates × Bytes))
        → poll_next_field crates new_next_field m ≡ value (ready (ok (some h)), n, m')
        → run_future_hot 2
            (ReadString.poll field_stream)
            (read_to_string (record { multipart = m' }))
          ≡ value (ok s, r)
        → ReadsTexts r.stream.multipart rest
        → ReadsTexts m ((h, s) ∷ rest)

module _ {A : Type 0} where
  abbrev pub AllUtf8 : List (A × Bytes) → Type 0
  AllUtf8 [] = Unit
  AllUtf8 ((a, s) ∷ rest) = IsUtf8 s × AllUtf8 rest

module _ ⦃tw : Twoway⦄ {E : Type 0} where
  -- the data of a field as answers of a stream
  record Given (m : Multipart E) (s : Bytes) (m' : Multipart E) : Type 0 where
    events : List (Event (Error E))
    gives : Gives field_stream (λ d. d.multipart ≡ m') (record { multipart = m }) events
    same : payload events ≡ s
    fine : fails events ≡ false
    few : length events < 2

  ReadsData-Given : (m m' : Multipart E) (s : Bytes) → ReadsData m s m' → Given m s m'
  unfolding poll_data
  ReadsData-Given m m' s (no_data ended) = record {
    events = [];
    gives = (record { multipart = m }, rw ended refl, refl, omega arith);
    same = refl;
    fine = refl;
    few = omega arith;
  }
  ReadsData-Given m m' s (one_chunk c m'' first ended) = record {
    events = chunk c ∷ [];
    gives = (
      record { multipart = m' },
      rw first refl,
      (record { multipart = m' }, rw ended refl, refl, omega arith),
      omega arith,
    );
    same = append-nil c;
    fine = refl;
    few = omega arith;
  }

  -- the text, and the server behind the field
  abbrev IsText :
      Bytes → Multipart E → Result Bytes (Error (Error E)) × ReadToString (FieldData E) → Type 0
  IsText s m' (result, r) = (result ≡ ok s) × (r.stream.multipart ≡ m')

  Answered-IsText :
      (m : Multipart E) (s : Bytes) (m' : Multipart E) (k : Given m s m')
      → IsUtf8 s
      → (result : Result Bytes (Error (Error E))) (r : ReadToString (FieldData E))
      → Answered field_stream (λ d. d.multipart ≡ m') k.events result r
      → IsText s m' (result, r)
  Answered-IsText m s m' k text (ok t) r (_, same, _, ended) = (ap ok (same ∙ k.same), ended)
  Answered-IsText m s m' k text (err (stream_error e)) r h = cc
  Answered-IsText m s m' k text (err (utf8 up_to len)) r h =
      absurd (h (subst IsUtf8 (sym k.same) text))
  Answered-IsText m s m' k text (err (parsing x)) r (_, h) =
      absurd (h (subst IsUtf8 (sym k.same) text))

  -- one text
  run_future_hot-IsText :
      (m : Multipart E) (s : Bytes) (m' : Multipart E)
      → ReadsData m s m'
      → IsUtf8 s
      → Returns (IsText s m') (
          run_future_hot 2
            (ReadString.poll field_stream)
            (read_to_string (record { multipart = m })))
  unfolding read_to_string
  run_future_hot-IsText m s m' reads text =
      let k = ReadsData-Given m m' s reads in
      Returns-map (λ (result, r) h. Answered-IsText m s m' k text result r h) _
        (run_future_hot-Answered field_stream (λ d. d.multipart ≡ m') k.events
          (record { multipart = m }) 2 k.gives k.few)

module _ (crates : Crates) ⦃tw : Twoway⦄ {E : Type 0} where
  text-then :
      (m m' : Multipart E) (n : NextField) (h : FieldHeaders crates) (s : Bytes) (m'' : Multipart E)
      (rest : List (FieldHeaders crates × Bytes))
      (o : Outcome (Result Bytes (Error (Error E)) × ReadToString (FieldData E)))
      → poll_next_field crates new_next_field m ≡ value (ready (ok (some h)), n, m')
      → run_future_hot 2 (ReadString.poll field_stream) (read_to_string (record { multipart = m' }))
        ≡ o
      → Returns (IsText s m'') o
      → ReadsTexts crates m'' rest
      → ReadsTexts crates m ((h, s) ∷ rest)
  text-then m m' n h s m'' rest (value (result, r)) next run (same, behind) more =
      one_text m m' n h s r rest next (run ∙ ap (λ x. value (x, r)) same)
        (subst (λ x. ReadsTexts crates x rest) (sym behind) more)
  text-then m m' n h s m'' rest (panic p) next run is_text more = absurd is_text
  text-then m m' n h s m'' rest out_of_fuel next run is_text more = absurd is_text

  ReadsFields-ReadsTexts :
      (m : Multipart E) (answers : List (FieldHeaders crates × Bytes))
      → ReadsFields crates m answers
      → AllUtf8 answers
      → ReadsTexts crates m answers
  ReadsFields-ReadsTexts m answers (no_field _ m' n next) texts = no_text m m' n next
  ReadsFields-ReadsTexts m answers (one_field _ m' m'' n h s rest next reads more) (text, texts) =
      text-then m m' n h s m'' rest _ next refl (run_future_hot-IsText m' s m'' reads text)
        (ReadsFields-ReadsTexts m'' rest more texts)

module _ (crates : Crates) ⦃tw : Twoway⦄ (E : Type 0) (boundary : Bytes) where
  -- What a `MultipartWriter` over a `Vec<u8>` writes for one field or more, whose readers do not fail and
  -- whose contents are valid UTF-8, and `finish` behind them, a `Multipart` with the same boundary that gets
  -- it in one chunk gives back as texts: for each field the future of `next_field` returns its headers, as
  -- the crates parse them, and `read_to_string` of its data, polled twice at most, returns its content;
  -- behind the last field the future of `next_field` returns none. The headers of no field may hold two
  -- newlines before their end, and of no field the boundary may be found before the one that follows it.
  pub ReadsTexts-write_request :
      (f : Field) (h : FieldHeaders crates) (rest : List (Field × FieldHeaders crates))
      → AllReceived crates (delimiter boundary) ((f, h) ∷ rest)
      → AllUtf8 (answers_of crates ((f, h) ∷ rest))
      → (w : Writer vec_sink) × (write_request
            (f ∷ fields_of crates rest)
            (Writer.new vec_sink [] boundary)
          ≡ (done tt, w))
        × ReadsTexts crates {E = E}
            (with_body (chunk w.inner ∷ []) boundary)
            (answers_of crates ((f, h) ∷ rest))
  ReadsTexts-write_request f h rest received texts =
      let (w, wrote, reads) = ReadsFields-write_request crates E boundary f h rest received in
      (
        w,
        wrote,
        ReadsFields-ReadsTexts crates (with_body (chunk w.inner ∷ []) boundary)
            (answers_of crates ((f, h) ∷ rest)) reads texts,
      )
