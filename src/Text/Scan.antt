-- ===== src/Text/Scan.antt =====
-- `str::from_utf8` on a byte string that is put together from parts.
use multipart_async.Base.{
  ℕ, zero, suc, ◌+◌, ◌≤◌, ◌<◌, ◌≡◌, ◌≢◌, refl, sym, ap, ◌∙◌, [], ◌∷◌, ◌++◌, Bytes, length, arith,
  Option, none, some, inl, inr, ◌⊎◌,
}
use multipart_async.Text.{
  Utf8Front, char, bad, cut, utf8_front, valid, invalid, scan_utf8, check_utf8,
}
use multipart_async.Text.Front.{
  Leads, Leads-unique, utf8_front-append, utf8_front-cut, utf8_front-char, utf8_front-char_left,
  char_ne_cut, bad_ne_cut, front_cases,
}

abbrev pub IsUtf8 : Bytes → Type 0
IsUtf8 s = check_utf8 s ≡ valid

pub front-append :
    (c : ℕ) (s t : Bytes) {f : Utf8Front} → utf8_front c s ≡ f → f ≢ cut → utf8_front c (s ++ t) ≡ f
front-append c s t e ne = utf8_front-append c s t (λ is_cut. ne (sym e ∙ is_cut)) ∙ e

-- One step at the beginning of a character, by what stands there.
scan-char :
    (pos c : ℕ) (s : Bytes) {k : ℕ}
    → utf8_front c s ≡ char k
    → scan_utf8 zero pos (c ∷ s) ≡ scan_utf8 k (suc pos) s
unfolding scan_utf8
scan-char pos c s e = rw (scan_utf8, e)

scan-bad :
    (pos c : ℕ) (s : Bytes) {n : ℕ}
    → utf8_front c s ≡ bad n
    → scan_utf8 zero pos (c ∷ s) ≡ invalid pos (some n)
unfolding scan_utf8
scan-bad pos c s e = rw (scan_utf8, e)

scan-cut :
    (pos c : ℕ) (s : Bytes) → utf8_front c s ≡ cut → scan_utf8 zero pos (c ∷ s) ≡ invalid pos none
unfolding scan_utf8
scan-cut pos c s e = rw (scan_utf8, e)

valid_ne_invalid : {pos : ℕ} {len : Option ℕ} → ¬ (valid ≡ invalid pos len)
valid_ne_invalid h = cc

cut_ne_bad : {p q m : ℕ} → ¬ (invalid p none ≡ invalid q (some m))
cut_ne_bad h = cc

invalid_at : {p q : ℕ} {l : Option ℕ} → invalid p l ≡ invalid q l → p ≡ q
invalid_at h = cc

-- Where the scan passes `s` it goes on with what is behind.
scan-append :
    (skip pos : ℕ) (s t : Bytes)
    → skip ≤ length s
    → scan_utf8 skip pos s ≡ valid
    → scan_utf8 skip pos (s ++ t) ≡ scan_utf8 0 (pos + length s) t
unfolding scan_utf8
scan-append zero pos [] t le h = ap (λ p. scan_utf8 0 p t) (omega arith)
scan-append (suc skip) pos [] t le h = absurd (omega arith)
scan-append (suc skip) pos (c ∷ s) t le h =
    scan-append skip (suc pos) s t (omega arith) h ∙ ap (λ p. scan_utf8 0 p t) (omega arith)
scan-append zero pos (c ∷ s) t le h = elim (front_cases (utf8_front c s)) [
  | inl (k, e) ↦
      let (_, room) = utf8_front-char c s e in
      scan-char pos c (s ++ t) (front-append c s t e char_ne_cut)
      ∙ scan-append k (suc pos) s t room (sym (scan-char pos c s e) ∙ h)
      ∙ ap (λ p. scan_utf8 0 p t) (omega arith)
  | inr (inl (n, e)) ↦ absurd (valid_ne_invalid (sym h ∙ scan-bad pos c s e))
  | inr (inr e) ↦ absurd (valid_ne_invalid (sym h ∙ scan-cut pos c s e))
]

-- Where it begins to count makes no difference to whether it passes.
scan-shift :
    (skip pos pos' : ℕ) (s : Bytes) → scan_utf8 skip pos s ≡ valid → scan_utf8 skip pos' s ≡ valid
unfolding scan_utf8
scan-shift skip pos pos' [] h = refl
scan-shift (suc skip) pos pos' (c ∷ s) h = scan-shift skip (suc pos) (suc pos') s h
scan-shift zero pos pos' (c ∷ s) h = elim (front_cases (utf8_front c s)) [
  | inl (k, e) ↦
      scan-char pos' c s e ∙ scan-shift k (suc pos) (suc pos') s (sym (scan-char pos c s e) ∙ h)
  | inr (inl (n, e)) ↦ absurd (valid_ne_invalid (sym h ∙ scan-bad pos c s e))
  | inr (inr e) ↦ absurd (valid_ne_invalid (sym h ∙ scan-cut pos c s e))
]

-- A sequence that begins no character stays one, whatever is behind it.
scan_bad-append :
    (skip pos : ℕ) (s t : Bytes) {up n : ℕ}
    → scan_utf8 skip pos s ≡ invalid up (some n)
    → scan_utf8 skip pos (s ++ t) ≡ invalid up (some n)
unfolding scan_utf8
scan_bad-append skip pos [] t h = absurd (valid_ne_invalid h)
scan_bad-append (suc skip) pos (c ∷ s) t h = scan_bad-append skip (suc pos) s t h
scan_bad-append zero pos (c ∷ s) t {up} {n} h = elim (front_cases (utf8_front c s)) [
  | inl (k, e) ↦
      scan-char pos c (s ++ t) (front-append c s t e char_ne_cut)
      ∙ scan_bad-append k (suc pos) s t (sym (scan-char pos c s e) ∙ h)
  | inr (inl (m, e)) ↦
      scan-bad pos c (s ++ t) (front-append c s t e bad_ne_cut) ∙ sym (scan-bad pos c s e) ∙ h
  | inr (inr e) ↦ absurd (cut_ne_bad (sym (scan-cut pos c s e) ∙ h))
]

-- The scan stopped at a character that is cut off: what is before it passes.
pub record CutOff (skip pos : ℕ) (s : Bytes) (up : ℕ) : Type 0 where
  pub before : Bytes
  pub lead : ℕ
  pub rest : Bytes
  pub parts : s ≡ before ++ (lead ∷ rest)
  pub at : up ≡ pos + length before
  pub room : skip ≤ length before
  pub passes : scan_utf8 skip pos before ≡ valid
  pub short : utf8_front lead rest ≡ cut

scan-CutOff :
    (skip pos : ℕ) (s : Bytes) {up : ℕ}
    → skip ≤ length s
    → scan_utf8 skip pos s ≡ invalid up none
    → CutOff skip pos s up
unfolding scan_utf8
scan-CutOff skip pos [] le h = absurd (valid_ne_invalid h)
scan-CutOff (suc skip) pos (c ∷ s) le h =
    let k = scan-CutOff skip (suc pos) s (omega arith) h in
    record {
      before = c ∷ k.before;
      lead = k.lead;
      rest = k.rest;
      parts = ap (◌∷◌ c) k.parts;
      at = omega (arith, k.at);
      room = omega (arith, k.room);
      passes = k.passes;
      short = k.short;
    }
scan-CutOff zero pos (c ∷ s) {up} le h = elim (front_cases (utf8_front c s)) [
  | inl (n, e) ↦
      let (_, room) = utf8_front-char c s e in
      let k = scan-CutOff n (suc pos) s room (sym (scan-char pos c s e) ∙ h) in
      let e' : utf8_front c (k.before ++ (k.lead ∷ k.rest)) ≡ char n =
        ap (utf8_front c) (sym k.parts) ∙ e in
      record {
        before = c ∷ k.before;
        lead = k.lead;
        rest = k.rest;
        parts = ap (◌∷◌ c) k.parts;
        at = omega (arith, k.at);
        room = omega arith;
        passes =
            scan-char pos c k.before (utf8_front-char_left c k.before (k.lead ∷ k.rest) e' k.room)
            ∙ k.passes;
        short = k.short;
      }
  | inr (inl (n, e)) ↦ absurd (cut_ne_bad (sym h ∙ scan-bad pos c s e))
  | inr (inr e) ↦ record {
    before = [];
    lead = c;
    rest = s;
    parts = refl;
    at = omega (arith, invalid_at (sym (scan-cut pos c s e) ∙ h));
    room = omega arith;
    passes = refl;
    short = e;
  }
]

scan-length : (pos : ℕ) (s : Bytes) (k : ℕ) → k ≡ length s → scan_utf8 k pos s ≡ valid
unfolding scan_utf8
scan-length pos [] k e = refl
scan-length pos (c ∷ s) zero e = absurd (omega arith)
scan-length pos (c ∷ s) (suc k) e = scan-length (suc pos) s k (omega arith)

pub IsUtf8-nil : IsUtf8 []
unfolding check_utf8 scan_utf8
IsUtf8-nil = refl

pub IsUtf8-append : (a b : Bytes) → IsUtf8 a → IsUtf8 b → IsUtf8 (a ++ b)
unfolding check_utf8
IsUtf8-append a b ha hb = scan-append 0 0 a b (omega arith) ha ∙ scan-shift 0 0 (0 + length a) b hb

pub IsUtf8-right : (a b : Bytes) → IsUtf8 a → IsUtf8 (a ++ b) → IsUtf8 b
unfolding check_utf8
IsUtf8-right a b ha h =
    scan-shift 0 (0 + length a) 0 b (sym (scan-append 0 0 a b (omega arith) ha) ∙ h)

pub bad-append : (s t : Bytes) {up n : ℕ} → check_utf8 s ≡ invalid up (some n) → ¬ (IsUtf8 (s ++ t))
unfolding check_utf8
bad-append s t h valid' = valid_ne_invalid (sym valid' ∙ scan_bad-append 0 0 s t h)

pub check_utf8-CutOff : (s : Bytes) {up : ℕ} → check_utf8 s ≡ invalid up none → CutOff 0 0 s up
unfolding check_utf8
check_utf8-CutOff s h = scan-CutOff 0 0 s (omega arith) h

-- What comes before a character that is cut off is text.
pub CutOff-IsUtf8 : (s : Bytes) {up : ℕ} (k : CutOff 0 0 s up) → IsUtf8 k.before
unfolding check_utf8
CutOff-IsUtf8 s k = k.passes

-- As many bytes as a lead byte wants are a character, or no text begins with them.
pub whole_char :
    (lead : ℕ) (rest : Bytes) (k : ℕ)
    → Leads lead k
    → length rest ≡ k
    → (IsUtf8 (lead ∷ rest)) ⊎ ((t : Bytes) → ¬ (IsUtf8 ((lead ∷ rest) ++ t)))
unfolding check_utf8
whole_char lead rest k l size = elim (front_cases (utf8_front lead rest)) [
  | inl (n, e) ↦
      let (l', room) = utf8_front-char lead rest e in
      inl
        (scan-char 0 lead rest e ∙ scan-length 1 rest n (omega (arith, Leads-unique lead k n l l')))
  | inr (inl (n, e)) ↦ inr (λ t h.
      valid_ne_invalid
        (sym h ∙ scan-bad 0 lead (rest ++ t) (front-append lead rest t e bad_ne_cut)))
  | inr (inr e) ↦
      let (k', l', short) = utf8_front-cut lead rest e in
      absurd (omega (arith, Leads-unique lead k k' l l'))
]

-- Fewer bytes than a lead byte wants are no text.
pub short_char :
    (lead : ℕ) (rest : Bytes) (k : ℕ) → Leads lead k → length rest < k → ¬ (IsUtf8 (lead ∷ rest))
unfolding check_utf8
short_char lead rest k l short h = elim (front_cases (utf8_front lead rest)) [
  | inl (n, e) ↦
      let (l', room) = utf8_front-char lead rest e in
      absurd (omega (arith, Leads-unique lead k n l l'))
  | inr (inl (n, e)) ↦ valid_ne_invalid (sym h ∙ scan-bad 0 lead rest e)
  | inr (inr e) ↦ valid_ne_invalid (sym h ∙ scan-cut 0 lead rest e)
]
