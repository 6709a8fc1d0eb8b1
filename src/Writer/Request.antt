-- ===== src/Writer/Request.antt =====
-- src/client/mod.rs: `MultipartRequest`. The samples of the crate rand, which are letters and digits, are an
-- argument.
use multipart_async.Base.{
  ℕ, zero, suc, ◌≡◌, refl, ap, [], ◌∷◌, ◌++◌, Bytes, codes, length, none, some, Outcome, value,
  panic, expect_none, arith,
}
use multipart_async.Http.{AllVisible, IsAlphanumeric, AllAlphanumeric, HeaderValues}
use multipart_async.Writer
use multipart_async.Writer.{Sink, Writer}

-- `BOUNDARY_LEN`
abbrev pub boundary_len : ℕ
boundary_len = 32

-- `Alphanumeric.sample_iter(thread_rng())`: an endless iterator of ASCII letters and digits
pub record Samples : Type 0 where
  pub sample : ℕ → ℕ
  pub alphanumeric : (i : ℕ) → IsAlphanumeric (sample i)

-- `.take(count)`, from the sample `i` on
take_samples : (ℕ → ℕ) → ℕ → ℕ → Bytes
take_samples sample i zero = []
take_samples sample i (suc count) = sample i ∷ take_samples sample (suc i) count

-- `struct MultipartRequest`
pub record MultipartRequest : Type 0 where
  pub boundary : Bytes

-- `MultipartRequest::new`
unfoldable pub new : Samples → MultipartRequest
unfolding take_samples
new samples = record { boundary = take_samples samples.sample 0 boundary_len }

-- the text that `get_content_type` formats
unfoldable pub content_type : MultipartRequest → Bytes
content_type req = codes "multipart/form-data; boundary=" ++ req.boundary

-- `MultipartRequest::get_content_type`
unfoldable pub get_content_type :
    (http : HeaderValues) → MultipartRequest → Outcome http.HeaderValue
unfolding content_type
get_content_type http req = elim (http.parse (content_type req)) [
  | some v ↦ value v
  | none ↦ panic expect_none
]

-- `MultipartRequest::wrap_writer`
unfoldable pub wrap_writer : (sink : Sink) → MultipartRequest → sink.Output → Writer sink
unfolding Writer.new
wrap_writer sink req writer = Writer.new sink writer req.boundary

AllVisible-append : (xs ys : Bytes) → AllVisible xs → AllVisible ys → AllVisible (xs ++ ys)
AllVisible-append [] ys h h' = h'
AllVisible-append (x ∷ xs) ys (h, hs) h' = (h, AllVisible-append xs ys hs h')

length-take_samples : (sample : ℕ → ℕ) (i count : ℕ) → length (take_samples sample i count) ≡ count
unfolding take_samples
length-take_samples sample i zero = refl
length-take_samples sample i (suc count) = ap suc (length-take_samples sample (suc i) count)

take_samples-AllAlphanumeric :
    (samples : Samples) (i count : ℕ) → AllAlphanumeric (take_samples samples.sample i count)
unfolding take_samples
take_samples-AllAlphanumeric samples i zero = tt
take_samples-AllAlphanumeric samples i (suc count) =
    (samples.alphanumeric i, take_samples-AllAlphanumeric samples (suc i) count)

AllAlphanumeric-AllVisible : (bytes : Bytes) → AllAlphanumeric bytes → AllVisible bytes
AllAlphanumeric-AllVisible [] h = tt
AllAlphanumeric-AllVisible (b ∷ bs) (h, hs) = ((omega (arith, h)), AllAlphanumeric-AllVisible bs hs)

pub new-AllAlphanumeric : (samples : Samples) → AllAlphanumeric (new samples).boundary
unfolding new
new-AllAlphanumeric samples = take_samples-AllAlphanumeric samples 0 32

pub length-new : (samples : Samples) → length (new samples).boundary ≡ 32
unfolding new
length-new samples = length-take_samples samples.sample 0 32

prefix-AllVisible : AllVisible (codes "multipart/form-data; boundary=")
prefix-AllVisible = ground arith

content_type-AllVisible : (samples : Samples) → AllVisible (content_type (new samples))
unfolding content_type
content_type-AllVisible samples =
    let boundary = (new samples).boundary in
    AllVisible-append (codes "multipart/form-data; boundary=") boundary prefix-AllVisible
      (AllAlphanumeric-AllVisible boundary (new-AllAlphanumeric samples))

-- The content type of a new request, whatever letters and digits are drawn for its boundary, is a valid
-- header value: `get_content_type` does not panic. The writer of the request has the boundary that the
-- content type names, which has 32 bytes.
pub get_content_type-wrap_writer :
    (samples : Samples) (http : HeaderValues) (sink : Sink) (out : sink.Output)
    → let req = new samples in
      let w = wrap_writer sink req out in
      (v : http.HeaderValue) × (get_content_type http req ≡ value v)
      × (http.parse (codes "multipart/form-data; boundary=" ++ w.boundary) ≡ some v)
      × (length w.boundary ≡ 32)
unfolding wrap_writer get_content_type content_type
get_content_type-wrap_writer samples http sink out =
    let (v, e, same) = http.parses (content_type (new samples)) (content_type-AllVisible samples) in
    (v, rw (get_content_type, e) refl, e, length-new samples)

-- what a header value from `get_content_type` says
pub to_str-get_content_type :
    (samples : Samples) (http : HeaderValues) (v : http.HeaderValue)
    → get_content_type http (new samples) ≡ value v
    → http.to_str v ≡ some (codes "multipart/form-data; boundary=" ++ (new samples).boundary)
unfolding get_content_type content_type
to_str-get_content_type samples http v e =
    let (v', e', same) =
      http.parses (content_type (new samples)) (content_type-AllVisible samples) in
    let sent : value v' ≡ value v = rw (get_content_type, e') at e in cc
