-- ===== src/ReadString/Decode.antt =====
-- The body of the loop of `ReadToString::poll`.
use multipart_async.Base.{
  ℕ, suc, ◌+◌, ◌-◌, ◌%◌, ◌≤◌, ◌<◌, ◌≡◌, inl, inr, refl, sym, ap, ◌∙◌, subst, true, [], ◌∷◌, ◌++◌,
  Bytes, length, take, drop, arith, Option, none, some, value, ltb, leb, Bool-cases, length-append,
  length-take, length-drop, append_assoc, take-append-drop, take-length, drop-length,
}
use multipart_async.Chunk.{split_into-value}
use multipart_async.Text.{Utf8Check, valid, invalid, check_utf8}
use multipart_async.Text.Front.{Leads, utf8_front-cut}
use multipart_async.Text.Scan.{
  IsUtf8, IsUtf8-append, IsUtf8-right, bad-append, check_utf8-CutOff, CutOff-IsUtf8, whole_char,
}
use multipart_async.ReadString.{
  ReadToString, utf8_char_width, copy_at, decode_checked, decode_chunk, finish_surrogate,
  with_width,
}
use multipart_async.ReadString.Spec.{NoText, TurnSpec}

copy_at-value :
    (array : Bytes) (at : ℕ) (bytes : Bytes)
    → at + length bytes ≤ length array
    → copy_at array at bytes ≡ value (take at array ++ (bytes ++ drop (at + length bytes) array))
unfolding copy_at
copy_at-value array at bytes h = ground arith

pub Leads-le : (c k : ℕ) → Leads c k → k ≤ 3
Leads-le c k l = ground arith

pub Leads-width : (c k : ℕ) → Leads c k → utf8_char_width c ≡ some (suc k)
unfolding utf8_char_width
Leads-width c k l = ground arith

NoText-left : (a b : Bytes) → IsUtf8 a → NoText b → NoText (a ++ b)
NoText-left a b text none_begins t h =
    none_begins t (IsUtf8-right a (b ++ t) text (rw (← append_assoc) h))

NoText-right : (a b : Bytes) → NoText a → NoText (a ++ b)
NoText-right a b none_begins t h = none_begins (b ++ t) (rw (← append_assoc) h)

-- The bytes that complete a character, and what is behind them.
regroup :
    (string : Bytes) (lead : ℕ) (rest data' : Bytes) (n : ℕ)
    → (string ++ (lead ∷ (rest ++ take n data'))) ++ drop n data'
      ≡ (string ++ (lead ∷ rest)) ++ data'
regroup string lead rest data' n =
    (simp append_assoc)
    ∙ ap (λ x. string ++ (lead ∷ (rest ++ x))) (take-append-drop n data')
    ∙ (simp append_assoc)

take_front :
    (k : ℕ) (xs ys zs : Bytes) → k ≡ length xs + length ys → take k (xs ++ (ys ++ zs)) ≡ xs ++ ys
take_front k xs ys zs e =
    ap (λ l. take k l) (sym (append_assoc xs ys zs))
    ∙ ap (λ n. take n ((xs ++ ys) ++ zs)) (e ∙ sym (length-append xs ys))
    ∙ take-length (xs ++ ys) zs

valid_ne_invalid : {up : ℕ} {len : Option ℕ} → ¬ (valid ≡ invalid up len)
valid_ne_invalid h = cc

module _ {S : Type 0} (E : Type 0) where
  -- The chunk ends within a character: what is before it is text, and the character has begun.
  cut_off-TurnSpec :
      (r : ReadToString S) (before : Bytes) (lead : ℕ) (rest : Bytes) (wants : ℕ)
      → IsUtf8 r.string
      → IsUtf8 before
      → Leads lead wants
      → length rest < wants
      → TurnSpec {E = E}
          (r.string ++ (before ++ (lead ∷ rest)))
          (decode_checked r (before ++ (lead ∷ rest)) (invalid (length before) none))
  unfolding decode_checked
  cut_off-TurnSpec r before lead rest wants text more leads short =
      let tail = lead ∷ rest in
      let zeros : Bytes = 0 ∷ 0 ∷ 0 ∷ [] in
      let size = length-append before tail in
      let few = Leads-le lead wants leads in
      let fits : leb (length before) (length (before ++ tail)) ≡ true = ground (arith, size) in
      let len : length (before ++ tail) - length before ≡ suc (length rest) = omega (arith, size) in
      let byte : suc (length rest) % 256 ≡ suc (length rest) = omega arith in
      rw
        (
          fits,
          take-length before tail,
          drop-length before tail,
          len,
          copy_at-value zeros 0 tail (omega arith),
          byte,
        )
        (record {
          text = IsUtf8-append r.string before text more;
          held = (
            record {
              lead = lead;
              rest = rest;
              pad = drop (0 + length tail) zeros;
              wants = wants;
              leads = leads;
              short = short;
              start_eq = refl;
              size = omega (
                arith,
                length-append tail (drop (0 + length tail) zeros),
                length-drop (0 + length tail) zeros,
              );
              len_eq = refl;
            },
            sym (append_assoc r.string before tail),
          );
        })

  -- A chunk, behind text.
  decode_checked-TurnSpec :
      (r : ReadToString S) (data' : Bytes) (c : Utf8Check)
      → check_utf8 data' ≡ c
      → IsUtf8 r.string
      → r.surrogate ≡ none
      → TurnSpec {E = E} (r.string ++ data') (decode_checked r data' c)
  decode_checked-TurnSpec r data' valid e text fresh =
      unfold decode_checked in
      record { text = IsUtf8-append r.string data' text e; held = rw fresh refl }
  decode_checked-TurnSpec r data' (invalid up (some n)) e text fresh =
      unfold decode_checked in (tt, NoText-left r.string data' text (λ t. bad-append data' t e))
  decode_checked-TurnSpec r data' (invalid up none) e text fresh =
      let k = check_utf8-CutOff data' e in
      let (wants, leads, short) = utf8_front-cut k.lead k.rest k.short in
      let at : up ≡ length k.before = omega (arith, k.at) in
      let done =
        cut_off-TurnSpec r k.before k.lead k.rest wants text (CutOff-IsUtf8 data' k) leads short in
      subst (λ u. TurnSpec {E = E} (r.string ++ data') (decode_checked r data' (invalid u none)))
        (sym at)
        (subst
          (λ d.
            TurnSpec {E = E} (r.string ++ d) (decode_checked r d (invalid (length k.before) none)))
          (sym k.parts) done)

  pub decode_chunk-TurnSpec :
      (r : ReadToString S) (data' : Bytes)
      → IsUtf8 r.string
      → r.surrogate ≡ none
      → TurnSpec {E = E} (r.string ++ data') (decode_chunk r data')
  unfolding decode_chunk
  decode_chunk-TurnSpec r data' text fresh =
      decode_checked-TurnSpec r data' (check_utf8 data') refl text fresh

  -- The character is complete, and so it is text, or no text begins with it.
  finish_surrogate-TurnSpec :
      (r : ReadToString S) (lead : ℕ) (rest data' : Bytes) (n wants : ℕ) (c : Utf8Check)
      → check_utf8 (lead ∷ (rest ++ take n data')) ≡ c
      → IsUtf8 r.string
      → Leads lead wants
      → length rest + n ≡ wants
      → n ≤ length data'
      → TurnSpec {E = E}
          ((r.string ++ (lead ∷ rest)) ++ data')
          (finish_surrogate r (lead ∷ (rest ++ take n data')) data' n c)
  unfolding finish_surrogate
  finish_surrogate-TurnSpec r lead rest data' n wants valid e text leads exact room =
      let bytes = lead ∷ (rest ++ take n data') in
      let r' = record r { string = r.string ++ bytes; surrogate = none } in
      subst (λ all. TurnSpec {E = E} all (finish_surrogate r bytes data' n valid))
        (regroup r.string lead rest data' n)
        (rw (split_into-value data' n room)
          (decode_chunk-TurnSpec r' (drop n data') (IsUtf8-append r.string bytes text e) refl))
  finish_surrogate-TurnSpec r lead rest data' n wants (invalid up len) e text leads exact room =
      let more = rest ++ take n data' in
      let size : length more ≡ wants =
        omega (arith, length-append rest (take n data'), length-take n data') in
      (
        tt,
        subst NoText (regroup r.string lead rest data' n) (
            NoText-right (r.string ++ (lead ∷ more)) (drop n data') (
              NoText-left r.string (lead ∷ more) text
                (elim (whole_char lead more wants leads size) [
                  | inl good ↦ absurd (valid_ne_invalid (sym good ∙ e))
                  | inr none_begins ↦ none_begins
                ]))),
      )

  -- A chunk behind a character that has begun.
  pub with_width-TurnSpec :
      (r : ReadToString S) (lead : ℕ) (rest pad : Bytes) (wants : ℕ) (data' : Bytes)
      → IsUtf8 r.string
      → Leads lead wants
      → length rest < wants
      → length ((lead ∷ rest) ++ pad) ≡ 3
      → TurnSpec {E = E}
          ((r.string ++ (lead ∷ rest)) ++ data')
          (with_width r ((lead ∷ rest) ++ pad) (suc (length rest)) (suc wants) data')
  unfolding with_width
  with_width-TurnSpec r lead rest pad wants data' text leads short three =
      let tail = lead ∷ rest in
      let start = tail ++ pad in
      let few = Leads-le lead wants leads in
      let size = length-append tail pad in
      let fits : leb (suc (length rest)) (suc wants) ≡ true = ground arith in
      let sub : suc wants - suc (length rest) ≡ wants - length rest = omega arith in
      elim (Bool-cases (ltb (length data') (wants - length rest))) [
        | inl few_bytes ↦
            let lt : length data' < wants - length rest = ground arith in
            let byte : (suc (length rest) + length data') % 256 ≡ suc (length rest) + length data' =
              omega arith in
            let pad' = drop (suc (length rest) + length data') start in
            rw
              (
                fits,
                sub,
                few_bytes,
                copy_at-value start (suc (length rest)) data' (omega arith),
                take-length rest pad,
                byte,
              )
              (record {
                text = text;
                held = (
                  record {
                    lead = lead;
                    rest = rest ++ data';
                    pad = pad';
                    wants = wants;
                    leads = leads;
                    short = omega (arith, length-append rest data');
                    start_eq = ap (◌∷◌ lead) (sym (append_assoc rest data' pad'));
                    size = omega (
                      arith,
                      length-append tail (data' ++ pad'),
                      length-append data' pad',
                      length-drop (suc (length rest) + length data') start,
                    );
                    len_eq = omega (arith, length-append rest data');
                  },
                  append_assoc r.string tail data',
                );
              })
        | inr enough ↦
            let n = wants - length rest in
            let room : n ≤ length data' = ground arith in
            let zeros : Bytes = 0 ∷ 0 ∷ 0 ∷ 0 ∷ [] in
            let taken = take n data' in
            let taken_size : length taken ≡ n = omega (arith, length-take n data') in
            let behind = drop (0 + suc (length rest)) zeros in
            let behind_size = length-drop (0 + suc (length rest)) zeros in
            let buffer_size = length-append rest behind in
            let more = drop (suc (length rest) + length taken) (tail ++ behind) in
            let wide : leb (suc wants) (suc (length (rest ++ (taken ++ more)))) ≡ true =
              ground (arith, length-append rest (taken ++ more), length-append taken more) in
            let start_fits : leb (suc (length rest)) (length start) ≡ true = ground (arith, size) in
            let room_fits : leb n (length data') ≡ true = ground arith in
            rw
              (
                fits,
                sub,
                enough,
                start_fits,
                take-length rest pad,
                copy_at-value zeros 0 tail (omega arith),
                room_fits,
              )
              (rw
                (
                  copy_at-value (tail ++ behind) (suc (length rest)) taken (omega arith),
                  take-length rest behind,
                  wide,
                  take_front wants rest taken more (omega arith),
                )
                (finish_surrogate-TurnSpec r lead rest data' n wants
                  (check_utf8 (lead ∷ (rest ++ taken))) refl text leads (omega arith) room))
      ]
