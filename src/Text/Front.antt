-- ===== src/Text/Front.antt =====
-- The character at the front of a byte string, and what does not depend on the bytes behind it.
use multipart_async.Base.{
  ℕ, zero, suc, ◌+◌, ◌≤◌, ◌<◌, ◌≡◌, ◌≢◌, ◌⊎◌, inl, inr, refl, sym, ◌∙◌, [], ◌∷◌, ◌++◌, Bytes,
  length, arith, ltb, Bool-cases,
}
use multipart_async.Text.{
  Utf8Front, char, bad, cut, within, is_cont, second_range, rest_of_char, second_of_char,
  utf8_front,
}

-- The lead byte `c` begins a character with `k` more bytes.
abbrev pub Leads : ℕ → ℕ → Type 0
Leads c k =
    ((c < 0x80) × (k ≡ 0))
    ⊎ (((0xC2 ≤ c) × (c ≤ 0xDF) × (k ≡ 1))
        ⊎ (((0xE0 ≤ c) × (c ≤ 0xEF) × (k ≡ 2)) ⊎ ((0xF0 ≤ c) × (c ≤ 0xF4) × (k ≡ 3))))

pub Leads-unique : (c k k' : ℕ) → Leads c k → Leads c k' → k ≡ k'
Leads-unique c k k' h h' = ground arith

rest_of_char-append :
    (done k : ℕ) (s t : Bytes)
    → rest_of_char done k s ≢ cut
    → rest_of_char done k (s ++ t) ≡ rest_of_char done k s
unfolding rest_of_char
rest_of_char-append done zero s t h = refl
rest_of_char-append done (suc k) [] t h = absurd (h refl)
rest_of_char-append done (suc k) (c ∷ s) t h = elim (Bool-cases (is_cont c)) [
  | inl more ↦ rw more (rest_of_char-append (suc done) k s t (rw more at h))
  | inr wrong ↦ rw wrong
]

rest_of_char-cut : (done k : ℕ) (s : Bytes) → rest_of_char done k s ≡ cut → length s < k
unfolding rest_of_char
rest_of_char-cut done zero s h = cc
rest_of_char-cut done (suc k) [] h = omega arith
rest_of_char-cut done (suc k) (c ∷ s) h = ground (arith, rest_of_char-cut (suc done) k s)

rest_of_char-char :
    (done k : ℕ) (s : Bytes) (n : ℕ)
    → rest_of_char done k s ≡ char n
    → (n ≡ done + k) × (k ≤ length s)
unfolding rest_of_char
rest_of_char-char done zero s n h = ground arith
rest_of_char-char done (suc k) [] n h = cc
rest_of_char-char done (suc k) (c ∷ s) n h = ground (arith, rest_of_char-char (suc done) k s n)

second_of_char-append :
    (c k : ℕ) (s t : Bytes)
    → second_of_char c k s ≢ cut
    → second_of_char c k (s ++ t) ≡ second_of_char c k s
unfolding second_of_char
second_of_char-append c k [] t h = absurd (h refl)
second_of_char-append c k (d ∷ s) t h = elim (Bool-cases (second_range c d)) [
  | inl more ↦ rw more (rest_of_char-append 1 k s t (rw more at h))
  | inr wrong ↦ rw wrong
]

second_of_char-cut : (c k : ℕ) (s : Bytes) → second_of_char c k s ≡ cut → length s < suc k
unfolding second_of_char
second_of_char-cut c k [] h = omega arith
second_of_char-cut c k (d ∷ s) h = ground (arith, rest_of_char-cut 1 k s)

bad_ne_char : {n m : ℕ} → ¬ (bad n ≡ char m)
bad_ne_char h = cc

second_of_char-char :
    (c k : ℕ) (s : Bytes) (n : ℕ) → second_of_char c k s ≡ char n → (n ≡ suc k) × (suc k ≤ length s)
unfolding second_of_char
second_of_char-char c k [] n h = cc
second_of_char-char c k (d ∷ s) n h = elim (Bool-cases (second_range c d)) [
  | inl more ↦ omega (arith, rest_of_char-char 1 k s n (rw more at h))
  | inr wrong ↦ absurd (bad_ne_char (rw wrong at h))
]

pub char_ne_cut : {n : ℕ} → ¬ (char n ≡ cut)
char_ne_cut h = cc

pub bad_ne_cut : {n : ℕ} → ¬ (bad n ≡ cut)
bad_ne_cut h = cc

-- What a lead byte alone decides: a character of its own, no character, or how many bytes must follow.
data LeadView (c : ℕ) : Type 0 where
  alone : c < 0x80 → ((s : Bytes) → utf8_front c s ≡ char 0) → LeadView c
  none_of : ((s : Bytes) → utf8_front c s ≡ bad 1) → LeadView c
  leads :
      (k : ℕ) → Leads c (suc k) → ((s : Bytes) → utf8_front c s ≡ second_of_char c k s) → LeadView c

lead_view : (c : ℕ) → LeadView c
unfolding utf8_front
lead_view c = elim (Bool-cases (ltb c 0x80)) [
  | inl one ↦ alone (ground arith) (λ s. rw one)
  | inr more ↦ elim (Bool-cases (within 0xC2 0xDF c)) [
    | inl two ↦ leads 0 (inr (inl (ground arith))) (λ s. rw (more, two))
    | inr n2 ↦ elim (Bool-cases (within 0xE0 0xEF c)) [
      | inl three ↦ leads 1 (inr (inr (inl (ground arith)))) (λ s. rw (more, n2, three))
      | inr n3 ↦ elim (Bool-cases (within 0xF0 0xF4 c)) [
        | inl four ↦ leads 2 (inr (inr (inr (ground arith)))) (λ s. rw (more, n2, n3, four))
        | inr n4 ↦ none_of (λ s. rw (more, n2, n3, n4))
      ]
    ]
  ]
]

pub utf8_front-append :
    (c : ℕ) (s t : Bytes) → utf8_front c s ≢ cut → utf8_front c (s ++ t) ≡ utf8_front c s
utf8_front-append c s t h = elim (lead_view c) [
  | alone lt e ↦ rw (e s, e (s ++ t))
  | none_of e ↦ rw (e s, e (s ++ t))
  | leads k l e ↦ rw (e s, e (s ++ t)) (second_of_char-append c k s t (rw (e s) at h))
]

pub utf8_front-cut :
    (c : ℕ) (s : Bytes) → utf8_front c s ≡ cut → (k : ℕ) × Leads c k × (length s < k)
utf8_front-cut c s h = elim (lead_view c) [
  | alone lt e ↦ cc (e s)
  | none_of e ↦ cc (e s)
  | leads k l e ↦ (suc k, l, second_of_char-cut c k s (rw (e s) at h))
]

pub utf8_front-char :
    (c : ℕ) (s : Bytes) {n : ℕ} → utf8_front c s ≡ char n → Leads c n × (n ≤ length s)
utf8_front-char c s {n} h = elim (lead_view c) [
  | alone lt e ↦ let same : n ≡ 0 = cc (e s) in (inl (lt, same), omega arith)
  | none_of e ↦ cc (e s)
  | leads k l e ↦
      let (same, room) = second_of_char-char c k s n (rw (e s) at h) in rw same (l, room)
]

-- A character does not depend on what is behind it.
pub utf8_front-char_left :
    (c : ℕ) (s t : Bytes) {n : ℕ}
    → utf8_front c (s ++ t) ≡ char n
    → n ≤ length s
    → utf8_front c s ≡ char n
utf8_front-char_left c s t {n} h le = go (utf8_front c s) refl
  where
    go : (f : Utf8Front) → utf8_front c s ≡ f → utf8_front c s ≡ char n
    go (char m) e =
        let ne : utf8_front c s ≢ cut = λ is_cut. char_ne_cut (sym e ∙ is_cut) in
        sym (utf8_front-append c s t ne) ∙ h
    go (bad m) e =
        let ne : utf8_front c s ≢ cut = λ is_cut. bad_ne_cut (sym e ∙ is_cut) in
        sym (utf8_front-append c s t ne) ∙ h
    go cut e =
        let (k, l, short) = utf8_front-cut c s e in
        let (l', room) = utf8_front-char c (s ++ t) h in
        absurd (omega (arith, Leads-unique c k n l l'))

pub front_cases : (f : Utf8Front) → ((k : ℕ) × (f ≡ char k)) ⊎ (((n : ℕ) × (f ≡ bad n)) ⊎ (f ≡ cut))
front_cases (char k) = inl (k, refl)
front_cases (bad n) = inr (inl (n, refl))
front_cases cut = inr (inr refl)
