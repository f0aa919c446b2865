-- ===== src/Tests/Multiparts.antt =====
-- The body of a quilt of two parts.
use go_ds_s3_walrus.Common.{◌≡◌, ◌<◌, ◌++◌, Bool, false, refl, List, [], ◌∷◌, length, true, arith}
use go_ds_s3_walrus.Common.Int.{pos, half_word}
use go_ds_s3_walrus.Client.{QuiltPart}
use go_ds_s3_walrus.Index.{Bytes}
use go_ds_s3_walrus.Client.Multipart.{
  text_bytes, joined, FormWriter, IsFormWriter, escape_quotes, write_multipart_body,
  multipart_body_length, multipart_body_length-length,
}

abbrev two_parts : List QuiltPart
two_parts =
    record { identifier = "0"; content = 1 ∷ 2 ∷ [] }
    ∷ record { identifier = "1"; content = 3 ∷ [] }
    ∷ []

-- A form writer.
abbrev header : Bytes → Bytes → Bytes
header name file =
    text_bytes "--f00\r\nContent-Disposition: form-data; name=\""
    ++ (escape_quotes name
        ++ (text_bytes "\"; filename=\""
            ++ (escape_quotes file
                ++ text_bytes "\"\r\nContent-Type: application/octet-stream\r\n\r\n")))

abbrev header_of : Bool → Bytes → Bytes → Bytes
header_of true name file = header name file
header_of false name file = text_bytes "\r\n" ++ header name file

abbrev form : FormWriter
form = record { create_form_file = header_of; close = joined ("\r\n--f00--\r\n" ∷ []) }

form-IsFormWriter : IsFormWriter "f00" form
form-IsFormWriter = record {
  first_part = λ name file n f. rw (n, f) refl;
  next_part = λ name file. refl;
  last = refl;
}

body_length : length (write_multipart_body form true two_parts) ≡ 226
unfolding write_multipart_body escape_quotes
body_length = refl

below_half : length (write_multipart_body form true two_parts) < half_word
below_half = rw body_length (omega arith)

plain_0 : escape_quotes (48 ∷ []) ≡ 48 ∷ []
unfolding escape_quotes
plain_0 = refl

plain_1 : escape_quotes (49 ∷ []) ≡ 49 ∷ []
unfolding escape_quotes
plain_1 = refl

multipart_body_length-length_example :
    multipart_body_length "f00" two_parts ≡ pos (length (write_multipart_body form true two_parts))
multipart_body_length-length_example =
    multipart_body_length-length "f00" form two_parts form-IsFormWriter (plain_0, (plain_1, tt))
      below_half
