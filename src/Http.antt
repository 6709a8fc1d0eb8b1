-- ===== src/Http.antt =====
-- What src/client/mod.rs and src/server/mod.rs use of the crates http and mime for a request: arguments of
-- the model, with the behaviour that the crates document.
use multipart_async.Base.{
  ℕ, ◌≤◌, ◌<◌, ◌≡◌, ◌⊎◌, Bool, [], ◌∷◌, ◌++◌, Bytes, codes, length, Option, some,
}

-- A byte of visible ASCII, a space included.
abbrev pub IsVisible : ℕ → Type 0
IsVisible b = (32 ≤ b) × (b < 127)

abbrev pub AllVisible : Bytes → Type 0
AllVisible [] = Unit
AllVisible (b ∷ bs) = IsVisible b × AllVisible bs

-- An ASCII letter or digit.
abbrev pub IsAlphanumeric : ℕ → Type 0
IsAlphanumeric b = ((b'0' ≤ b) × (b ≤ b'9')) ⊎ ((b'A' ≤ b) × (b ≤ b'Z')) ⊎ ((b'a' ≤ b) × (b ≤ b'z'))

abbrev pub AllAlphanumeric : Bytes → Type 0
AllAlphanumeric [] = Unit
AllAlphanumeric (b ∷ bs) = IsAlphanumeric b × AllAlphanumeric bs

-- `HeaderValue` of the crate http: visible ASCII is parsed, and comes back from `to_str`.
pub record HeaderValues : Type 1 where
  pub HeaderValue : Type 0
  pub parse : Bytes → Option HeaderValue
  pub to_str : HeaderValue → Option Bytes
  pub parses :
      (bytes : Bytes)
      → AllVisible bytes
      → (v : HeaderValue) × (parse bytes ≡ some v) × (to_str v ≡ some bytes)

-- The parts of a request without its body: whether its method is POST, and the value of its `Content-Type`;
-- `Mime` of the crate mime and its parameter `boundary`, which is found in the content type of a form.
pub record Requests (http : HeaderValues) : Type 1 where
  pub Parts : Type 0
  pub is_post : Parts → Bool
  pub content_type : Parts → Option http.HeaderValue
  pub Mime : Type 0
  pub parse_mime : Bytes → Option Mime
  pub boundary_param : Mime → Option Bytes
  pub parses_form :
      (boundary : Bytes)
      → AllAlphanumeric boundary
      → 0 < length boundary
      → (mime : Mime) × (parse_mime (codes "multipart/form-data; boundary=" ++ boundary)
          ≡ some mime)
        × (boundary_param mime ≡ some boundary)
