-- ===== src/Multipart/Text.antt =====
-- The data of a field, read to a string: `FieldData` of src/server/field/mod.rs over a `Multipart`.
use multipart_async.Base.{
  ℕ, zero, suc, ◌*◌, ◌+◌, ◌≤◌, ◌<◌, ◌≡◌, ◌⊎◌, inl, inr, refl, sym, ap, ◌∙◌, subst, false, List, [],
  ◌∷◌, ◌++◌, Bytes, length, none, some, Outcome, value, panic, out_of_fuel, arith, append_assoc,
  append-nil, Returns, Returns-map,
}
use multipart_async.Stream.{
  Event, not_ready, chunk, failed, ready, pending, Result, ok, err, Error, PollOpt,
}
use multipart_async.Search.{Twoway, crlf}
use multipart_async.Finder.{end}
use multipart_async.Finder.Spec.{payload, AtEnd, Gap-newline, IsWhole, Inv}
use multipart_async.Push.Stops.{PushChunk-stops}
use multipart_async.Finder.Body.{Gap-cases, rank_le}
use multipart_async.Push.{PushChunk, poll_next}
use multipart_async.Push.Spec.{
  Drawn, remaining, chunks_left, PollSpec, poll_next-PollSpec, poll_next-AtEnd, pushed_count-le,
}
use multipart_async.Headers.{is_reading_headers}
use multipart_async.ReadString
use multipart_async.ReadString.{ReadToString, TryStream}
use multipart_async.ReadString.Whole.{Gives, ErrorSpec}
use multipart_async.Text.Scan.{IsUtf8}
use multipart_async.ReadString.Driven.{Answered, run_future_hot-Answered}
use multipart_async.TestUtil.{run_future_hot}
use multipart_async.Multipart.{Multipart, poll_field_chunk}
use multipart_async.Multipart.Steps.{InOrder}
use multipart_async.Multipart.Data.{FieldData, poll_data, field_stream, read_to_string}

Gives-map :
    {S E : Type 0} (st : TryStream S E) (Ended Ended' : S → Type 0)
    → ((s : S) → Ended s → Ended' s)
    → (s : S) (events : List (Event E)) → Gives st Ended s events
    → Gives st Ended' s events
Gives-map st Ended Ended' f s [] (s', e, ended, lt) = (s', e, f s' ended, lt)
Gives-map st Ended Ended' f s (not_ready ∷ events) (s', e, more, lt) =
    (s', e, Gives-map st Ended Ended' f s' events more, lt)
Gives-map st Ended Ended' f s (chunk c ∷ events) (s', e, more, lt) =
    (s', e, Gives-map st Ended Ended' f s' events more, lt)
Gives-map st Ended Ended' f s (failed x ∷ events) h = h

module _ ⦃tw : Twoway⦄ {E : Type 0} (boundary : Bytes) where
  -- A finder in order, and no headers in the making.
  pub record InField (m : Multipart E) : Type 0 where
    pub in_order : InOrder boundary m
    pub idle : is_reading_headers m.read_hdr ≡ false

  -- Behind the field whose content came out of `whole`: the boundary and two bytes more come next, or the
  -- finder is at its end.
  pub record Behind (whole content : Bytes) (d : FieldData E) : Type 0 where
    pub in_field : InField d.multipart
    pub at_end : AtEnd d.multipart.inner.stream.state
    pub stops :
        IsWhole boundary (remaining d.multipart.inner) ⊎ (d.multipart.inner.stream.state ≡ end)
    pub gap : Bytes
    pub newline : (gap ≡ []) ⊎ (gap ≡ crlf)
    pub bytes : whole ≡ content ++ (gap ++ remaining d.multipart.inner)

  -- The answers of the data of a field, and what is behind it once they are over.
  pub record Contents (m : Multipart E) : Type 0 where
    pub events : List (Event (Error E))
    pub gives :
        Gives field_stream
          (Behind (remaining m.inner) (payload events))
          (record { multipart = m })
          events
    pub few : length events ≤ suc (chunks_left m.inner)

  bound : (p : PushChunk E) → suc (chunks_left p) < 2 * length p.stream.stream + 4
  bound p = omega (arith, pushed_count-le p.pushed, rank_le p.stream.state)

  polled_data :
      (m : Multipart E) (polled : PollOpt Bytes (Error E)) (p : PushChunk E)
      → is_reading_headers m.read_hdr ≡ false
      → poll_next m.inner ≡ value (polled, p)
      → poll_data (record { multipart = m })
        ≡ value (polled, record { multipart = record m { inner = p } })
  unfolding poll_data poll_field_chunk
  polled_data m polled p idle e = rw (idle, e) refl

  -- The answers that are left behind a chunk `c` of `whole`.
  record Left (whole c : Bytes) (m : Multipart E) : Type 0 where
    events : List (Event (Error E))
    gives :
        Gives field_stream (Behind whole (c ++ payload events)) (record { multipart = m }) events
    few : length events ≤ suc (chunks_left m.inner)

  Contents-Left :
      (whole c : Bytes) (m : Multipart E)
      → whole ≡ c ++ remaining m.inner
      → Contents m
      → Left whole c m
  Contents-Left whole c m e k = record {
    events = k.events;
    gives =
        Gives-map field_stream (Behind (remaining m.inner) (payload k.events))
          (Behind whole (c ++ payload k.events))
          (λ d b. record {
            in_field = b.in_field;
            at_end = b.at_end;
            stops = b.stops;
            gap = b.gap;
            newline = b.newline;
            bytes =
                e
                ∙ ap (λ x. c ++ x) b.bytes
                ∙ sym (append_assoc c (payload k.events) (b.gap ++ remaining d.multipart.inner));
          })
          (record { multipart = m }) k.events k.gives;
    few = k.few;
  }

  AtEnd-Left :
      (whole c gap : Bytes) (m : Multipart E)
      → InField m
      → m.inner.pushed ≡ none
      → AtEnd m.inner.stream.state
      → (gap ≡ []) ⊎ (gap ≡ crlf)
      → whole ≡ c ++ (gap ++ remaining m.inner)
      → Left whole c m
  AtEnd-Left whole c gap m field unpushed at_end newline e = record {
    events = [];
    gives = (
      record { multipart = m },
      polled_data m (ready none) m.inner field.idle (poll_next-AtEnd m.inner unpushed at_end),
      record {
        in_field = field;
        at_end = at_end;
        stops = PushChunk-stops boundary m.inner field.in_order unpushed at_end;
        gap = gap;
        newline = newline;
        bytes = e ∙ ap (λ x. x ++ (gap ++ remaining m.inner)) (sym (append-nil c));
      },
      omega arith,
    );
    few = omega arith;
  }

  behind_chunk :
      (m : Multipart E) (c : Bytes) (p : PushChunk E)
      → is_reading_headers m.read_hdr ≡ false
      → Inv boundary p.stream
      → p.pushed ≡ none
      → Drawn m.inner c p
      → Contents (record m { inner = p })
      → Left (remaining m.inner) c (record m { inner = p })
  behind_chunk m c p idle inv unpushed k contents =
      elim (Gap-cases p.stream.state k.gap k.only_newline) [
        | inl no_gap ↦
            Contents-Left (remaining m.inner) c (record m { inner = p })
              (k.bytes ∙ ap (λ gap. c ++ (gap ++ remaining p)) no_gap) contents
        | inr at_end ↦
            AtEnd-Left (remaining m.inner) c k.gap (record m { inner = p })
              (record { in_order = inv; idle = idle }) unpushed at_end
              (Gap-newline p.stream.state k.gap k.only_newline) k.bytes
      ]

  answers_from :
      (fuel : ℕ) (m : Multipart E) (r : Outcome (PollOpt Bytes (Error E) × PushChunk E))
      → is_reading_headers m.read_hdr ≡ false
      → poll_next m.inner ≡ r
      → Returns (PollSpec m.inner boundary) r
      → chunks_left m.inner ≤ fuel
      → ((m' : Multipart E) → InField m' → chunks_left m'.inner < fuel → Contents m')
      → Contents m
  answers_from fuel m (value (pending, p)) idle e (inv, unpushed, (k, less)) le ih =
      let m' = record m { inner = p } in
      let left =
        behind_chunk m [] p idle inv unpushed k
          (ih m' (record { in_order = inv; idle = idle }) (omega (arith, less, le))) in
      record {
        events = not_ready ∷ left.events;
        gives = (
          record { multipart = m' },
          polled_data m pending p idle e,
          left.gives,
          omega (arith, bound m.inner, left.few, less),
        );
        few = omega (arith, left.few, less);
      }
  answers_from fuel m (value (ready none, p)) idle e (inv, unpushed, (k, at_end)) le ih = record {
    events = [];
    gives = (
      record { multipart = record m { inner = p } },
      polled_data m (ready none) p idle e,
      record {
        in_field = record { in_order = inv; idle = idle };
        at_end = at_end;
        stops = PushChunk-stops boundary p inv unpushed at_end;
        gap = k.gap;
        newline = Gap-newline p.stream.state k.gap k.only_newline;
        bytes = k.bytes;
      },
      omega arith,
    );
    few = omega arith;
  }
  answers_from fuel m (value (ready (some (ok c)), p)) idle e (inv, unpushed, (k, less)) le ih =
      let m' = record m { inner = p } in
      let left =
        behind_chunk m c p idle inv unpushed k
          (ih m' (record { in_order = inv; idle = idle }) (omega (arith, less, le))) in
      record {
        events = chunk c ∷ left.events;
        gives = (
          record { multipart = m' },
          polled_data m (ready (some (ok c))) p idle e,
          left.gives,
          omega (arith, bound m.inner, left.few, less),
        );
        few = omega (arith, left.few, less);
      }
  answers_from fuel m (value (ready (some (err x)), p)) idle e (inv, unpushed, bad) le ih = record {
    events = failed x ∷ [];
    gives = (
      record { multipart = record m { inner = p } },
      polled_data m (ready (some (err x))) p idle e,
      omega (arith, bound m.inner),
    );
    few = omega arith;
  }
  answers_from fuel m (panic x) idle e h le ih = absurd h
  answers_from fuel m out_of_fuel idle e h le ih = absurd h

  answers_within :
      (fuel : ℕ) (m : Multipart E) → InField m → chunks_left m.inner < fuel → Contents m
  answers_within zero m field enough = absurd (omega arith)
  answers_within (suc fuel) m field enough =
      answers_from fuel m (poll_next m.inner) field.idle refl
        (poll_next-PollSpec boundary m.inner field.in_order) (omega arith) (answers_within fuel)

  -- The data of a field is a stream that ends or fails: its chunks are what lies in front of the next
  -- boundary.
  pub field_answers : (m : Multipart E) → InField m → Contents m
  field_answers m field = answers_within (suc (chunks_left m.inner)) m field (omega arith)

  -- what `read_to_string` may come to
  abbrev pub ReadsText : Multipart E → Result Bytes (Error (Error E)) → FieldData E → Type 0
  ReadsText m (ok s) d = IsUtf8 s × Behind (remaining m.inner) s d
  ReadsText m (err e) d = (k : Contents m) × ErrorSpec [] k.events e

  Answered-ReadsText :
      (m : Multipart E) (k : Contents m) (result : Result Bytes (Error (Error E)))
      (r : ReadToString (FieldData E))
      → Answered field_stream (Behind (remaining m.inner) (payload k.events)) k.events result r
      → ReadsText m result r.stream
  Answered-ReadsText m k (ok s) r (text, same, fine, behind) =
      (text, subst (λ b. Behind (remaining m.inner) b r.stream) (sym same) behind)
  Answered-ReadsText m k (err e) r h = (k, h)

  -- Between the headers of a field and the end of its data, `read_to_string`, polled until it is ready and
  -- more often than chunks can be left, returns and does not panic. A string that it returns is valid UTF-8,
  -- and all the bytes in front of what the `Multipart` is then left with, less at most the newline in front of
  -- that. The `Multipart` is in order for the next field: what it is left with begins with a whole boundary, or
  -- its finder is at the end. The string itself may hold the boundary, where a cut between chunks hid it from
  -- the finder. If an error is returned, the data of the field gives an error or is no valid UTF-8.
  pub read_to_string-ReadsText :
      (m : Multipart E) (fuel : ℕ)
      → InField m
      → suc (chunks_left m.inner) < fuel
      → Returns
          (λ (result, r). ReadsText m result r.stream)
          (run_future_hot fuel
            (ReadString.poll field_stream)
            (read_to_string (record { multipart = m })))
  unfolding read_to_string
  read_to_string-ReadsText m fuel field enough =
      let k = field_answers m field in
      Returns-map (λ (result, r) h. Answered-ReadsText m k result r h) _
        (run_future_hot-Answered field_stream (Behind (remaining m.inner) (payload k.events))
          k.events (record { multipart = m }) fuel k.gives (omega (arith, k.few, enough)))
