-- ===== src/Disposition/Loop.antt =====
-- `parse_cont_disp_val` and the rest of the input behind each parameter.
use multipart_async.Base.{
  ℕ, zero, suc, ◌+◌, ◌≤◌, ◌<◌, ◌≡◌, ◌≢◌, refl, sym, ap, ◌∙◌, Bool, false, [], ◌∷◌, length, is_empty,
  Option, none, some, Outcome, value, ◌>>=◌, not, arith, inl, inr, ◌⊎◌, Bool-cases, Option-cases,
  if◌then◌else◌,
}
use mathlib.Core.List.{reverse, reverse_aux}
use multipart_async.Stream.{
  Text, Result, ok, err, HeaderError, unexpected_disposition, expected_name,
}
use multipart_async.Text.{trim, trim_left_by, trim_by, split_two}
use multipart_async.Disposition.{
  Names, is_pad, is_equals, is_quote, ends_token, or_empty, param_name, param_val, parse_keyval,
  keyval_loop, keyval_fuel, set_param, parse_cont_disp_val, is_form_data, disposition_params,
}

length-reverse_aux : (s acc : Text) → length (reverse_aux s acc) ≡ length s + length acc
length-reverse_aux [] acc = omega arith
length-reverse_aux (c ∷ s) acc = omega (arith, length-reverse_aux s (c ∷ acc))

length-reverse : (s : Text) → length (reverse s) ≡ length s
length-reverse s = omega (arith, length-reverse_aux s [])

trim_left_by-le : (p : ℕ → Bool) (s : Text) → length (trim_left_by p s) ≤ length s
unfolding trim_left_by
trim_left_by-le p [] = omega arith
trim_left_by-le p (c ∷ s) = ground (arith, trim_left_by-le p s)

trim_by-le : (p : ℕ → Bool) (s : Text) → length (trim_by p s) ≤ length s
unfolding trim_by
trim_by-le p s = omega (
  arith,
  length-reverse (trim_left_by p (reverse (trim_left_by p s))),
  trim_left_by-le p (reverse (trim_left_by p s)),
  length-reverse (trim_left_by p s),
  trim_left_by-le p s,
)

-- What stands behind the first match is shorter than the text.
split_two-lt : (p : ℕ → Bool) (s : Text) → s ≢ [] → length (or_empty (split_two p s).1) < length s
unfolding split_two
split_two-lt p [] ne = absurd (ne refl)
split_two-lt p (c ∷ []) ne = ground arith
split_two-lt p (c ∷ d ∷ s) ne = ground (arith, split_two-lt p (d ∷ s))

split_two-le : (p : ℕ → Bool) (s : Text) → length (or_empty (split_two p s).1) ≤ length s
split_two-le p [] = unfold split_two in omega arith
split_two-le p (c ∷ s) = omega (arith, split_two-lt p (c ∷ s) (cc))

split_two-below :
    (p : ℕ → Bool) (t s : Text)
    → length t ≤ length s
    → s ≢ []
    → length (or_empty (split_two p t).1) < length s
split_two-below p [] [] le ne = absurd (ne refl)
split_two-below p [] (c ∷ s) le ne = unfold split_two in omega arith
split_two-below p (d ∷ t) s le ne = omega (arith, split_two-lt p (d ∷ t) (cc))

blank_nil : (s : Text) → is_empty (trim s) ≡ false → s ≢ []
unfolding trim
blank_nil [] h e = cc
blank_nil (c ∷ s) h e = cc

-- Either way the rest of the input is what stands behind a split, trimmed.
param_val-cases :
    (s : Text)
    → let rest = or_empty (split_two ends_token s).1 in
      ((param_val s).1 ≡ trim_by is_pad rest)
      ⊎ ((param_val s).1 ≡ trim_by is_pad (or_empty (split_two is_quote rest).1))
unfolding param_val
param_val-cases s = elim (Bool-cases (is_empty (trim (split_two ends_token s).0))) [
  | inl quoted ↦ inr (rw quoted)
  | inr token ↦ inl (rw token)
]

param_val-le : (s : Text) → length (param_val s).1 ≤ length s
param_val-le s =
    let rest = or_empty (split_two ends_token s).1 in
    let inner = or_empty (split_two is_quote rest).1 in
    let first = split_two-le ends_token s in
    let second = split_two-le is_quote rest in
    elim (param_val-cases s) [
      | inl e ↦ omega (arith, ap length e, trim_by-le is_pad rest, first)
      | inr e ↦ omega (arith, ap length e, trim_by-le is_pad inner, second, first)
    ]

param_name-lt : (s : Text) → s ≢ [] → length (param_name s).1 < length s
unfolding param_name
param_name-lt s ne =
    let t = trim_left_by is_pad s in
    omega (arith, split_two-below is_equals t s (trim_left_by-le is_pad s) ne)

trim_nil : trim [] ≡ []
unfolding trim
trim_nil = refl

parse_keyval-cases :
    (s : Text)
    → (parse_keyval s ≡ none)
      ⊎ ((is_empty (trim s) ≡ false)
          × (parse_keyval s
              ≡ some (
                (param_name s).0,
                (param_val (param_name s).1).0,
                (param_val (param_name s).1).1,
              )))
unfolding parse_keyval
parse_keyval-cases s = elim (Bool-cases (is_empty (trim s))) [
  | inl blank ↦ inl (rw blank)
  | inr more ↦ inr (more, rw more)
]

rest_of : Option (Text × Text × Text) → Text
rest_of none = []
rest_of (some (key, val, rest)) = rest

-- Every parameter that `parse_keyval` reads makes the rest of the input shorter.
pub parse_keyval-lt :
    (s : Text) {key val rest : Text}
    → parse_keyval s ≡ some (key, val, rest)
    → length rest < length s
unfolding rest_of
parse_keyval-lt s h = elim (parse_keyval-cases s) [
  | inl ended ↦ cc
  | inr (more, e) ↦
      let ne : s ≢ [] = λ nil. blank_nil s more nil in
      omega (
        arith,
        ap (λ t. length (rest_of t)) (sym h ∙ e),
        param_val-le (param_name s).1,
        param_name-lt s ne,
      )
]

-- One round for each parameter, and each takes at least one character: the fuel is enough.
keyval_loop_total :
    (fuel : ℕ) (rem : Text) (out : Names)
    → length rem < fuel
    → (out' : Names) × (keyval_loop fuel rem out ≡ value out')
unfolding keyval_loop
keyval_loop_total zero rem out lt = absurd (omega arith)
keyval_loop_total (suc fuel) rem out lt = elim (Option-cases (parse_keyval rem)) [
  | inl ended ↦ (out, rw (ended, keyval_loop))
  | inr ((key, val, rest), e) ↦
      let (out', done) =
        keyval_loop_total fuel rest (set_param out key val)
          (omega (arith, parse_keyval-lt rem e)) in
      (out', rw (e, keyval_loop) done)
]

-- what `parse_cont_disp_val` does with the names that its loop has read
abbrev named : Text → Names → Outcome (Result Names HeaderError)
named val out = value (if is_empty out.name then err (expected_name val) else ok out)

-- Whatever the value of the header is, and whatever was read before, `parse_cont_disp_val` ends with a
-- result: the loop over the parameters has enough fuel, and nothing panics.
pub parse_cont_disp_val_total :
    (val : Text) (out : Names)
    → (r : Result Names HeaderError) × (parse_cont_disp_val val out ≡ value r)
unfolding parse_cont_disp_val
parse_cont_disp_val_total val out =
    let rem = disposition_params val in
    let (out', done) = keyval_loop_total (keyval_fuel rem) rem out (omega arith) in
    let read : Bool → Outcome (Result Names HeaderError) = λ form.
      if not form
      then value (err (unexpected_disposition val))
      else (keyval_loop (keyval_fuel rem) rem out >>= named val) in
    elim (Bool-cases (is_form_data val)) [
      | inl form ↦ (
        (if is_empty out'.name then err (expected_name val) else ok out'),
        ap read form ∙ ap (λ k. k >>= named val) done,
      )
      | inr other ↦ (err (unexpected_disposition val), ap read other)
    ]
