-- ===== src/Disposition.antt =====
-- src/server/field/headers.rs: `parse_cont_disp_val` and the functions under it, which take the
-- value of a `Content-Disposition` header apart.
pub mod Loop
pub mod Written
use multipart_async.Base.{
  ℕ, zero, suc, Bool, true, false, not, ◌||◌, [], ◌∷◌, is_empty, Option, none, some, ◌==◌, codes,
  length, if◌then◌else◌, Outcome, value, panic, out_of_fuel, ◌>>=◌,
}
use multipart_async.Stream.{
  Text, Result, ok, err, HeaderError, unexpected_disposition, expected_name,
}
use multipart_async.Text.{trim, trim_left_by, trim_by, split_two, text_eq, eq_ignore_ascii_case}

-- what `parse_cont_disp_val` writes of a `FieldHeaders`
pub record Names : Type 0 where
  pub name : Text
  pub filename : Option Text

abbrev pub is_pad : ℕ → Bool
is_pad c = c == b' ' || c == b';'

abbrev pub is_quote : ℕ → Bool
is_quote c = c == b'"'

abbrev pub is_equals : ℕ → Bool
is_equals c = c == b'='

abbrev pub is_semicolon : ℕ → Bool
is_semicolon c = c == b';'

abbrev pub ends_token : ℕ → Bool
ends_token c = c == b'"' || c == b';'

-- `splits.next().unwrap_or("")`
abbrev pub or_empty : Option Text → Text
or_empty none = []
or_empty (some s) = s

-- `param_name`; the first part of a split is always there
param_name : Text → Text × Text
unfolding split_two trim_left_by trim
param_name input =
    let (name, rest) = split_two is_equals (trim_left_by is_pad input) in (trim name, or_empty rest)

-- the value in quotes, from behind the opening quote on
quoted_val : Text → Text × Text
unfolding split_two trim trim_by
quoted_val rem =
    let (quoted, rest) = split_two is_quote rem in (trim quoted, trim_by is_pad (or_empty rest))

-- `param_val`
param_val : Text → Text × Text
unfolding quoted_val split_two trim trim_by
param_val input =
    let (token, rest) = split_two ends_token input in
    if is_empty (trim token)
    then quoted_val (or_empty rest)
    else (trim token, trim_by is_pad (or_empty rest))

-- `parse_keyval`
unfoldable pub parse_keyval : Text → Option (Text × Text × Text)
unfolding param_name param_val
parse_keyval input =
    if is_empty (trim input)
    then none
    else let (name, rest) = param_name input in
      let (val, rest') = param_val rest in some (name, val, rest')

-- `match key { "name" => .., "filename" => .., _ => .. }`
set_param : Names → Text → Text → Names
unfolding text_eq
set_param out key val =
    if text_eq key (codes "name")
    then record out { name = val }
    else if text_eq key (codes "filename")
    then record out { filename = some val }
    else out

-- `while let Some((key, val, rest)) = parse_keyval(rem)`
keyval_loop : ℕ → Text → Names → Outcome Names
keyval_loop zero rem out = out_of_fuel
keyval_loop (suc fuel) rem out = elim (parse_keyval rem) [
  | none ↦ value out
  | some (key, val, rest) ↦ keyval_loop fuel rest (set_param out key val)
]

-- Each round of the loop takes at least one character.
abbrev pub keyval_fuel : Text → ℕ
keyval_fuel rem = suc (length rem)

-- Only the first section may not be in quotes, so the rest is kept in one piece.
disposition_params : Text → Text
unfolding split_two trim
disposition_params val = trim (or_empty (split_two is_semicolon val).1)

-- whether the first section is `form-data`
is_form_data : Text → Bool
unfolding split_two trim eq_ignore_ascii_case
is_form_data val = eq_ignore_ascii_case (trim (split_two is_semicolon val).0) (codes "form-data")

-- `parse_cont_disp_val`
unfoldable pub parse_cont_disp_val : Text → Names → Outcome (Result Names HeaderError)
unfolding keyval_loop parse_keyval set_param disposition_params is_form_data
parse_cont_disp_val val out =
    if not (is_form_data val) then value (err (unexpected_disposition val)) else do
      out' ← keyval_loop (keyval_fuel (disposition_params val)) (disposition_params val) out
      value (if is_empty out'.name then err (expected_name val) else ok out')
