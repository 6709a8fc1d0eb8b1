-- ===== src/Multipart/Accept.antt =====
-- src/server/mod.rs: `Multipart::try_from_request`, over the requests of the crate http.
use multipart_async.Base.{not, List, Bytes, Option, some, none, if◌then◌else◌}
use multipart_async.Stream.{Result, ok, err, Event}
use multipart_async.Http.{HeaderValues, Requests}
use multipart_async.Multipart.{Multipart, with_body}

-- `?` on an `Option`
infixl 5 ◌>>=◌
abbrev ◌>>=◌ {ℓ κ} : {A : Type ℓ} {B : Type κ} → Option A → (A → Option B) → Option B
none >>= f = none
some a >>= f = f a

module _ (http : HeaderValues) (requests : Requests http) where
  -- `http::Request`: its parts and its body
  pub record Request (E : Type 0) : Type 0 where
    pub parts : requests.Parts
    pub body : List (Event E)

  -- `get_boundary`
  unfoldable pub get_boundary : requests.Parts → Option Bytes
  get_boundary parts = do
    header ← requests.content_type parts
    text ← http.to_str header
    mime ← requests.parse_mime text
    requests.boundary_param mime

  module _ {E : Type 0} where
    -- `Multipart::try_from_request`
    unfoldable pub try_from_request : Request E → Result (Multipart E) (Request E)
    unfolding with_body get_boundary
    try_from_request req =
        if not (requests.is_post req.parts) then err req else elim (get_boundary req.parts) [
          | some boundary ↦ ok (with_body req.body boundary)
          | none ↦ err (record { parts = req.parts; body = req.body })
        ]
