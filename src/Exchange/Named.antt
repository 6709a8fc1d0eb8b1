-- ===== src/Exchange/Named.antt =====
-- The names that the client writes into `Content-Disposition`, read by the server. They are in ASCII here:
-- the code points of a text are its bytes.
use multipart_async.Base.{◌≡◌, ◌≢◌, [], ◌++◌, Bytes, codes, Option, none, some, value, append_assoc}
use multipart_async.Stream.{ok}
use multipart_async.Search.{dashes}
use multipart_async.Disposition.{parse_cont_disp_val}
use multipart_async.Disposition.Written.{
  disposition, IsQuotable, AllQuotable, parse_cont_disp_val-disposition,
}
use multipart_async.Writer.{vec_sink, get_field_header}

-- what follows the value of `Content-Disposition`
abbrev pub header_end : Option Bytes → Bytes
header_end none = codes "\r\n\r\n"
header_end (some ct) = codes "\r\nContent-Type: " ++ (ct ++ codes "\r\n\r\n")

header-eq :
    (boundary name : Bytes) (filename content_type : Option Bytes)
    → get_field_header vec_sink boundary name filename content_type
      ≡ dashes
        ++ (boundary
            ++ (codes "\r\nContent-Disposition: "
                ++ (disposition name filename ++ header_end content_type)))
unfolding get_field_header
header-eq boundary name none none = simp append_assoc
header-eq boundary name none (some ct) = simp append_assoc
header-eq boundary name (some f) none = simp append_assoc
header-eq boundary name (some f) (some ct) = simp append_assoc

-- The header of a field that `get_field_header` makes is the boundary, the name `Content-Disposition` with a
-- value, and what follows; from that value `parse_cont_disp_val` reads the name and the file name that were
-- given. The name is not empty; neither holds a quote, nor white space at its ends.
pub parse_cont_disp_val-get_field_header :
    (boundary name : Bytes) (filename content_type : Option Bytes)
    → name ≢ []
    → IsQuotable name
    → AllQuotable filename
    → (get_field_header vec_sink boundary name filename content_type
        ≡ dashes
          ++ (boundary
              ++ (codes "\r\nContent-Disposition: "
                  ++ (disposition name filename ++ header_end content_type))))
      × (parse_cont_disp_val (disposition name filename) (record { name = []; filename = none })
          ≡ value (ok (record { name = name; filename = filename })))
parse_cont_disp_val-get_field_header boundary name filename content_type ne h k = (
  header-eq boundary name filename content_type,
  parse_cont_disp_val-disposition name filename ne h k,
)
