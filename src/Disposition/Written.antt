-- ===== src/Disposition/Written.antt =====
-- `parse_cont_disp_val` on a value with a name in quotes, and perhaps a file name.
use multipart_async.Base.{
  ℕ, suc, ◌≡◌, refl, sym, ap, ◌∙◌, Bool, false, [], ◌∷◌, ◌++◌, codes, is_empty, Option, none, some,
  value, append_assoc, ◌≢◌,
}
use mathlib.Core.List.{reverse, reverse-append, reverse-reverse}
use multipart_async.Stream.{Text, ok}
use multipart_async.Text.{is_whitespace, trim, trim_left_by, trim_by, split_two, text_eq}
use multipart_async.Disposition.{
  Names, is_pad, is_quote, param_name, quoted_val, param_val, parse_keyval, keyval_loop,
  keyval_fuel, set_param, parse_cont_disp_val, is_form_data, disposition_params,
}

-- the parameter behind the name
abbrev pub file_param : Option Text → Text
file_param none = []
file_param (some f) = codes "; filename=\"" ++ (f ++ codes "\"")

abbrev pub params : Text → Option Text → Text
params name filename = codes "name=\"" ++ (name ++ (codes "\"" ++ file_param filename))

-- The value of the header.
abbrev pub disposition : Text → Option Text → Text
disposition name filename = codes "form-data; " ++ params name filename

-- No quote stands in it, and no white space at its ends.
abbrev pub NoQuote : Text → Type 0
NoQuote [] = Unit
NoQuote (c ∷ s) = (is_quote c ≡ false) × NoQuote s

abbrev pub IsQuotable : Text → Type 0
IsQuotable s = NoQuote s × (trim s ≡ s)

abbrev pub AllQuotable : Option Text → Type 0
AllQuotable none = Unit
AllQuotable (some s) = IsQuotable s

split_quote : (s t : Text) → NoQuote s → split_two is_quote (s ++ (b'"' ∷ t)) ≡ (s, some t)
unfolding split_two
split_quote [] t h = refl
split_quote (c ∷ s) t (other, h) = rw (other, split_quote s t h) refl

-- A text that ends in a quote is not trimmed at its end.
trim_end :
    (p : ℕ → Bool) (s : Text)
    → p b'"' ≡ false
    → reverse (trim_left_by p (reverse (s ++ (b'"' ∷ [])))) ≡ s ++ (b'"' ∷ [])
unfolding trim_left_by
trim_end p s keeps =
    let back : reverse (s ++ (b'"' ∷ [])) ≡ b'"' ∷ reverse s = reverse-append s (b'"' ∷ []) in
    rw (back, keeps) (ap reverse (sym back) ∙ reverse-reverse (s ++ (b'"' ∷ [])))

params-ends :
    (name : Text) (filename : Option Text)
    → (s : Text) × (params name filename ≡ b'n' ∷ (s ++ (b'"' ∷ [])))
params-ends name none = (codes "ame=\"" ++ name, refl)
params-ends name (some f) =
    (codes "ame=\"" ++ (name ++ (codes "\"" ++ (codes "; filename=\"" ++ f))), simp append_assoc)

file_param-trimmed :
    (f : Text) → trim_by is_pad (file_param (some f)) ≡ codes "filename=\"" ++ (f ++ codes "\"")
unfolding trim_by trim_left_by
file_param-trimmed f = trim_end is_pad (codes "filename=\"" ++ f) refl

-- The parameters begin with a letter and end in a quote.
trim_name : (s : Text) → trim (b'n' ∷ (s ++ (b'"' ∷ []))) ≡ b'n' ∷ (s ++ (b'"' ∷ []))
unfolding trim trim_by trim_left_by is_whitespace
trim_name s = trim_end is_whitespace (b'n' ∷ s) refl

trim_space : (s : Text) → trim (b' ' ∷ b'n' ∷ (s ++ (b'"' ∷ []))) ≡ b'n' ∷ (s ++ (b'"' ∷ []))
unfolding trim trim_by trim_left_by is_whitespace
trim_space s = trim_end is_whitespace (b'n' ∷ s) refl

trim_file : (s : Text) → trim (b'f' ∷ (s ++ (b'"' ∷ []))) ≡ b'f' ∷ (s ++ (b'"' ∷ []))
unfolding trim trim_by trim_left_by is_whitespace
trim_file s = trim_end is_whitespace (b'f' ∷ s) refl

module _ (v rest : Text) where
  quoted_val-quotable : IsQuotable v → quoted_val (v ++ (b'"' ∷ rest)) ≡ (v, trim_by is_pad rest)
  unfolding quoted_val
  quoted_val-quotable (plain, trimmed) = rw (quoted_val, split_quote v rest plain, trimmed) refl

  param_val-quotable :
      IsQuotable v → param_val (b'"' ∷ (v ++ (b'"' ∷ rest))) ≡ (v, trim_by is_pad rest)
  unfolding param_val split_two trim trim_by trim_left_by
  param_val-quotable h = quoted_val-quotable h

  parse_keyval-name :
      is_empty (trim (codes "name=\"" ++ (v ++ (b'"' ∷ rest)))) ≡ false
      → IsQuotable v
      → parse_keyval (codes "name=\"" ++ (v ++ (b'"' ∷ rest)))
        ≡ some (codes "name", v, trim_by is_pad rest)
  unfolding parse_keyval param_name split_two trim trim_by trim_left_by is_whitespace
  parse_keyval-name some_char h =
      rw some_char (ap (λ (val, rest'). some (codes "name", val, rest')) (param_val-quotable h))

  parse_keyval-file :
      is_empty (trim (codes "filename=\"" ++ (v ++ (b'"' ∷ rest)))) ≡ false
      → IsQuotable v
      → parse_keyval (codes "filename=\"" ++ (v ++ (b'"' ∷ rest)))
        ≡ some (codes "filename", v, trim_by is_pad rest)
  unfolding parse_keyval param_name split_two trim trim_by trim_left_by is_whitespace
  parse_keyval-file some_char h =
      rw some_char (ap (λ (val, rest'). some (codes "filename", val, rest')) (param_val-quotable h))

file-some_char : (f : Text) → is_empty (trim (codes "filename=\"" ++ (f ++ (b'"' ∷ [])))) ≡ false
file-some_char f = ap is_empty (trim_file (codes "ilename=\"" ++ f))

-- one round of the loop
keyval_loop-some :
    (fuel : ℕ) (rem key val rest : Text) (out : Names)
    → parse_keyval rem ≡ some (key, val, rest)
    → keyval_loop (suc fuel) rem out ≡ keyval_loop fuel rest (set_param out key val)
unfolding keyval_loop
keyval_loop-some fuel rem key val rest out e = rw (e, keyval_loop) refl

keyval_loop-nil : (fuel : ℕ) (out : Names) → keyval_loop (suc fuel) [] out ≡ value out
unfolding keyval_loop parse_keyval trim trim_by trim_left_by
keyval_loop-nil fuel out = refl

abbrev with_file : Names → Option Text → Names
with_file out none = out
with_file out (some f) = record out { filename = some f }

with_file-new :
    (name : Text) (o : Option Text)
    → with_file (record { name = name; filename = none }) o ≡ record { name = name; filename = o }
with_file-new name none = refl
with_file-new name (some f) = refl

nonempty : (s : Text) → s ≢ [] → is_empty s ≡ false
nonempty [] ne = absurd (ne refl)
nonempty (c ∷ s) ne = refl

-- the loop behind the name
file_loop :
    (fuel : ℕ) (filename : Option Text) (out : Names)
    → AllQuotable filename
    → keyval_loop (suc (suc fuel)) (trim_by is_pad (file_param filename)) out
      ≡ value (with_file out filename)
unfolding set_param text_eq trim_by trim_left_by
file_loop fuel none out h = keyval_loop-nil (suc fuel) out
file_loop fuel (some f) out h =
    ap (λ rem. keyval_loop (suc (suc fuel)) rem out) (file_param-trimmed f)
    ∙ keyval_loop-some (suc fuel) (codes "filename=\"" ++ (f ++ codes "\"")) (codes "filename") f []
        out (parse_keyval-file f [] (file-some_char f) h)
    ∙ keyval_loop-nil fuel (record out { filename = some f })

module _ (name : Text) (filename : Option Text) where
  trimmed-params : trim (b' ' ∷ params name filename) ≡ params name filename
  trimmed-params = let (s, e) = params-ends name filename in rw e (trim_space s)

  params-some_char : is_empty (trim (params name filename)) ≡ false
  params-some_char = let (s, e) = params-ends name filename in rw e (ap is_empty (trim_name s))

  name_loop :
      (fuel : ℕ) (out : Names)
      → IsQuotable name
      → AllQuotable filename
      → keyval_loop (suc (suc (suc fuel))) (params name filename) out
        ≡ value (with_file (record out { name = name }) filename)
  unfolding set_param text_eq
  name_loop fuel out h k =
      keyval_loop-some (suc (suc fuel)) (params name filename) (codes "name") name
        (trim_by is_pad (file_param filename)) out
        (parse_keyval-name name (file_param filename) params-some_char h)
      ∙ file_loop fuel filename (record out { name = name }) k

  read_loop :
      IsQuotable name
      → AllQuotable filename
      → keyval_loop
          (keyval_fuel (params name filename))
          (params name filename)
          (record { name = []; filename = none })
        ≡ value (record { name = name; filename = filename })
  read_loop h k =
      name_loop _ (record { name = []; filename = none }) h k
      ∙ ap value (with_file-new name filename)

  -- `parse_cont_disp_val` reads back the names that the client writes.
  pub parse_cont_disp_val-disposition :
      name ≢ []
      → IsQuotable name
      → AllQuotable filename
      → parse_cont_disp_val (disposition name filename) (record { name = []; filename = none })
        ≡ value (ok (record { name = name; filename = filename }))
  unfolding parse_cont_disp_val disposition_params is_form_data split_two
  parse_cont_disp_val-disposition ne h k = rw (trimmed-params, read_loop h k, nonempty name ne) refl
