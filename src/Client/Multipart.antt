-- ===== src/Client/Multipart.antt =====
-- `writeMultipartBody` and `multipartBodyLength` of client.go.
use Prim.Native.Char.{code}
use go_ds_s3_walrus.Common.{
  ℕ, ◌+◌, ◌<◌, String, Bool, true, false, ◌≡◌, ap, ◌∙◌, List, [], ◌∷◌, ◌++◌, length, length-append,
  arith, if◌then◌else◌, ◌==◌, ◌||◌, All,
}
use go_ds_s3_walrus.Common.Int.{ℤ, pos, half_word, add64, add64-pos}
use go_ds_s3_walrus.Index.{Bytes}
use go_ds_s3_walrus.Client.{QuiltPart}

-- The bytes of a text: identifiers, boundaries and headers are ASCII.
abbrev pub text_bytes : String → Bytes
text_bytes String.[] = []
text_bytes (String.◌∷◌ c s) = code c ∷ text_bytes s

abbrev pub joined : List String → Bytes
joined [] = []
joined (s ∷ ss) = text_bytes s ++ joined ss

-- The escaping of names by `mime/multipart`: quotes and backslashes get a backslash, the ends of lines a %-code.
unfoldable pub escape_quotes : Bytes → Bytes
escape_quotes [] = []
escape_quotes (b ∷ bs) =
    let rest = escape_quotes bs in
    if (b == 92) || (b == 34)
    then 92 ∷ b ∷ rest
    else if b == 13
    then text_bytes "%0D" ++ rest
    else if b == 10
    then text_bytes "%0A" ++ rest
    else b ∷ rest

-- A name that is written as it is.
abbrev pub IsPlain : QuiltPart → Type 0
IsPlain p = escape_quotes (text_bytes p.identifier) ≡ text_bytes p.identifier

-- `multipart.Writer` is not part of the repository: what `CreateFormFile` writes for a part, which is
-- the first one or not, with a name for the field and one for the file, and what `Close` writes.
pub record FormWriter : Type 0 where
  pub create_form_file : Bool → Bytes → Bytes → Bytes
  pub close : Bytes

-- What the writer does with names that need no escaping: a part begins with its boundary on a line of its
-- own (RFC 2046), and has the headers of a file in a form (RFC 7578) and an empty line; the last
-- boundary closes the body.
pub record IsFormWriter (boundary : String) (form : FormWriter) : Type 0 where
  pub first_part :
      (name file : Bytes)
      → escape_quotes name ≡ name
      → escape_quotes file ≡ file
      → form.create_form_file true name file
        ≡ joined ("--" ∷ boundary ∷ "\r\nContent-Disposition: form-data; name=\"" ∷ [])
          ++ (name
              ++ (text_bytes "\"; filename=\""
                  ++ (file ++ text_bytes "\"\r\nContent-Type: application/octet-stream\r\n\r\n")))
  pub next_part :
      (name file : Bytes)
      → form.create_form_file false name file
        ≡ text_bytes "\r\n" ++ form.create_form_file true name file
  pub last : form.close ≡ joined ("\r\n--" ∷ boundary ∷ "--\r\n" ∷ [])

-- `writeMultipartBody`: a part for each block, with its identifier as both names.
unfoldable pub write_multipart_body : FormWriter → Bool → List QuiltPart → Bytes
write_multipart_body form first [] = form.close
write_multipart_body form first (p ∷ parts) =
    form.create_form_file first (text_bytes p.identifier) (text_bytes p.identifier)
    ++ (p.content ++ write_multipart_body form false parts)

module _ (boundary : String) where
  -- The literals of `multipartBodyLength`.
  unfoldable pub separator : Bool → Bytes
  separator true = joined ("--" ∷ boundary ∷ "\r\n" ∷ [])
  separator false = joined ("\r\n--" ∷ boundary ∷ "\r\n" ∷ [])

  unfoldable pub disposition : Bytes → Bytes
  disposition name =
      text_bytes "Content-Disposition: form-data; name=\""
      ++ (name ++ (text_bytes "\"; filename=\"" ++ (name ++ text_bytes "\"\r\n")))

  unfoldable pub content_type : Bytes
  content_type = joined ("Content-Type: application/octet-stream\r\n" ∷ [])

  unfoldable pub closing : Bytes
  closing = joined ("\r\n--" ∷ boundary ∷ "--\r\n" ∷ [])

  -- The loop over the parts, from a sum.
  unfoldable pub length_loop : Bool → ℤ → List QuiltPart → ℤ
  length_loop first n [] = add64 n (pos (length closing))
  length_loop first n (p ∷ parts) =
      let n₁ = add64 n (pos (length (separator first))) in
      let n₂ = add64 n₁ (pos (length (disposition (text_bytes p.identifier)))) in
      let n₃ = add64 n₂ (pos (length content_type)) in
      let n₄ = add64 n₃ (pos (length (joined ("\r\n" ∷ [])))) in
      length_loop false (add64 n₄ (pos (length p.content))) parts

  unfoldable pub multipart_body_length : List QuiltPart → ℤ
  multipart_body_length parts = length_loop true (pos 0) parts

  -- A header of the form writer is as long as the literals are.
  header_length :
      (form : FormWriter) (first : Bool) (p : QuiltPart)
      → IsFormWriter boundary form
      → IsPlain p
      → length (form.create_form_file first (text_bytes p.identifier) (text_bytes p.identifier))
        ≡ length (separator first)
          + length (disposition (text_bytes p.identifier))
          + length content_type
          + length (joined ("\r\n" ∷ []))
  unfolding separator disposition content_type
  header_length form true p f plain =
      rw (f.first_part _ _ plain plain) (simp length-append (omega arith))
  header_length form false p f plain =
      rw (f.next_part _ _) (rw (f.first_part _ _ plain plain) (simp length-append (omega arith)))

  -- The five sums of a round of the loop, where none wraps.
  added :
      (n a b c d e : ℕ)
      → n + a + b + c + d + e < half_word
      → add64 (add64 (add64 (add64 (add64 (pos n) (pos a)) (pos b)) (pos c)) (pos d)) (pos e)
        ≡ pos (n + a + b + c + d + e)
  added n a b c d e small =
      rw
        (
          add64-pos n a (omega (arith, small)),
          add64-pos (n + a) b (omega (arith, small)),
          add64-pos (n + a + b) c (omega (arith, small)),
          add64-pos (n + a + b + c) d (omega (arith, small)),
        )
        (add64-pos (n + a + b + c + d) e small)

  length_loop-length :
      (form : FormWriter) (first : Bool) (n : ℕ) (parts : List QuiltPart)
      → IsFormWriter boundary form
      → All IsPlain parts
      → n + length (write_multipart_body form first parts) < half_word
      → length_loop first (pos n) parts ≡ pos (n + length (write_multipart_body form first parts))
  unfolding length_loop write_multipart_body closing
  length_loop-length form first n [] f plain small = rw f.last (add64-pos n _ (rw f.last at small))
  length_loop-length form first n (p ∷ parts) f plain small =
      let rest = write_multipart_body form false parts in
      let whole =
        length-append
          (form.create_form_file first (text_bytes p.identifier) (text_bytes p.identifier))
          (p.content ++ rest) in
      let tail = length-append p.content rest in
      let header = header_length form first p f plain.0 in
      let bound : n
            + length (separator first)
            + length (disposition (text_bytes p.identifier))
            + length content_type
            + length (joined ("\r\n" ∷ []))
            + length p.content
          < half_word =
        omega (arith, small, whole, tail, header) in
      rw (added n _ _ _ _ _ bound) (
        length_loop-length form false _ parts f plain.1 (omega (arith, small, whole, tail, header))
        ∙ ap pos (omega (arith, whole, tail, header)))

  -- The Content-Length that is announced for a quilt is the length of the body that is written, for every form
  -- writer that writes what RFC 2046 and RFC 7578 say, when no identifier needs escaping and that length
  -- is below 2^63.
  pub multipart_body_length-length :
      (form : FormWriter) (parts : List QuiltPart)
      → IsFormWriter boundary form
      → All IsPlain parts
      → length (write_multipart_body form true parts) < half_word
      → multipart_body_length parts ≡ pos (length (write_multipart_body form true parts))
  unfolding multipart_body_length
  multipart_body_length-length form parts f plain small =
      length_loop-length form true 0 parts f plain (omega (arith, small)) ∙ ap pos (omega arith)
