-- ===== src/Server/GitHttp/Framed.antt =====
-- What `parse_cgi_output` of sync-server/src/git_http.rs makes of a response of lines and a body.
use mathlib.Core.List.{append_assoc}
use mathlib.Core.Path.{fun_ext}
use dojjo.Prelude.Text.Order.{text_order}
use dojjo.Prelude.{
  ℕ, List, [], ◌∷◌, ◌++◌, ◌≡◌, ◌≢◌, refl, sym, ap, ◌∙◌, arith, false, ◌&&◌, Option, some, Result,
  ok, All, leb, ltb, assert, ◌>>=◌, ◌>>◌,
}
use dojjo.Prelude.Dict.{Dict}
use dojjo.Prelude.Text.{Text, text, is_empty, trim, split, join, has_char, starts_with}
use dojjo.Prelude.Text.Laws.{split-join}
use dojjo.Prelude.Text.Search.{has_text, split_once}
use dojjo.Prelude.Text.Occurs.{split_once-append, has_char-append}
use dojjo.Mirror.Operation.{Bytes}
use dojjo.Server.MirrorGet.{AppError}
use dojjo.Server.GitHttp.{Backend}
use dojjo.Server.GitHttp.Routes.{is_empty-append}
use dojjo.Server.GitHttp.Cgi.{
  CgiResponse, trim_returns, parse_field, parse_line, parse_lines, parse_cgi_output,
}

-- A header field with no colon in its name, no line break, and no white space around its parts.
pub record IsField (field : Text × Text) : Type 0 where
  pub name_plain : has_char b':' field.0 ≡ false
  pub name_trimmed : trim field.0 ≡ field.0
  pub value_trimmed : trim (b' ' ∷ field.1) ≡ field.1
  pub one_line : has_char b'\n' (field.0 ++ text ": " ++ field.1) ≡ false
  pub no_return : has_char b'\r' (field.0 ++ text ": " ++ field.1) ≡ false

abbrev pub field_line : Text × Text → Text
field_line (name, value) = name ++ text ": " ++ value

-- The lines, each but the last with a return behind it.
abbrev pub with_returns : List (Text × Text) → List Text
with_returns [] = []
with_returns (l ∷ []) = field_line l ∷ []
with_returns (l ∷ m ∷ r) = (field_line l ++ text "\r") ∷ with_returns (m ∷ r)

abbrev pub header_block : List (Text × Text) → Text
header_block fields = join b'\n' (with_returns fields)

no_blank_line :
    (s t : Text)
    → has_char b'\r' s ≡ false
    → has_text (text "\r\n\r\n") (s ++ t) ≡ has_text (text "\r\n\r\n") t
unfolding has_text
no_blank_line [] t h = refl
no_blank_line (c ∷ s) t h = ground (arith, no_blank_line s t, h)

starts_without_return :
    (name value t : Text)
    → has_char b'\r' (name ++ text ": " ++ value) ≡ false
    → starts_with (text "\r\n") (name ++ text ": " ++ value ++ t) ≡ false
starts_without_return [] value t h = refl
starts_without_return (c ∷ name) value t h = ground (arith, h)

trim_returns_plain : (s : Text) → has_char b'\r' s ≡ false → trim_returns s ≡ s
unfolding trim_returns
trim_returns_plain [] h = refl
trim_returns_plain (c ∷ s) h = ground (arith, trim_returns_plain s)

trim_returns-append : (s : Text) → has_char b'\r' s ≡ false → trim_returns (s ++ text "\r") ≡ s
unfolding trim_returns
trim_returns-append [] h = refl
trim_returns-append (c ∷ s) h = ground (arith, trim_returns-append s)

split_colon :
    (name t : Text)
    → has_char b':' name ≡ false
    → split_once (text ":") (name ++ (b':' ∷ t)) ≡ some (name, t)
unfolding split_once
split_colon [] t h = refl
split_colon (c ∷ name) t h = ground (arith, split_colon name t, h)

is_empty-field_line : (f : Text × Text) → is_empty (field_line f) ≡ false
is_empty-field_line ([], value) = refl
is_empty-field_line (c ∷ name, value) = refl

join_more :
    (line : Text) (m : Text × Text) (r : List (Text × Text))
    → join b'\n' (line ∷ with_returns (m ∷ r)) ≡ line ++ (b'\n' ∷ header_block (m ∷ r))
unfolding join
join_more line m [] = refl
join_more line m (n ∷ r) = refl

-- The first line of several, with what stands behind it.
first_line :
    (f m : Text × Text) (r : List (Text × Text)) (t : Text)
    → header_block (f ∷ m ∷ r) ++ t ≡ field_line f ++ (b'\r' ∷ b'\n' ∷ (header_block (m ∷ r) ++ t))
first_line f m r t =
    ap (λ s. s ++ t) (join_more (field_line f ++ text "\r") m r)
    ∙ append_assoc (field_line f ++ text "\r") (b'\n' ∷ header_block (m ∷ r)) t
    ∙ append_assoc (field_line f) (text "\r") (b'\n' ∷ (header_block (m ∷ r) ++ t))

block_starts :
    (f : Text × Text) (fs : List (Text × Text)) (t : Text)
    → IsField f
    → starts_with (text "\r\n") (header_block (f ∷ fs) ++ t) ≡ false
unfolding join
block_starts f [] t is = starts_without_return f.0 f.1 t is.no_return
block_starts f (m ∷ r) t is =
    ap (starts_with (text "\r\n")) (first_line f m r t)
    ∙ starts_without_return f.0 f.1 (b'\r' ∷ b'\n' ∷ (header_block (m ∷ r) ++ t)) is.no_return

blank_later :
    (rest : Text)
    → starts_with (text "\r\n") rest ≡ false
    → has_text (text "\r\n\r\n") (b'\r' ∷ b'\n' ∷ rest) ≡ has_text (text "\r\n\r\n") rest
unfolding has_text
blank_later rest h = rw h refl

block_no_blank :
    (f : Text × Text) (fs : List (Text × Text))
    → IsField f
    → All IsField fs
    → has_text (text "\r\n\r\n") (header_block (f ∷ fs) ++ text "\r\n\r") ≡ false
unfolding join
block_no_blank f [] is more =
    no_blank_line (field_line f) (text "\r\n\r") is.no_return ∙ unfold has_text in refl
block_no_blank f (m ∷ r) is (is_m, more) =
    let rest = header_block (m ∷ r) ++ text "\r\n\r" in
    ap (has_text (text "\r\n\r\n")) (first_line f m r (text "\r\n\r"))
    ∙ no_blank_line (field_line f) (b'\r' ∷ b'\n' ∷ rest) is.no_return
    ∙ blank_later rest (block_starts m r (text "\r\n\r") is_m)
    ∙ block_no_blank m r is_m more

lines_plain :
    (f : Text × Text) (fs : List (Text × Text))
    → IsField f
    → All IsField fs
    → All (λ s. has_char b'\n' s ≡ false) (with_returns (f ∷ fs))
lines_plain f [] is more = (is.one_line, tt)
lines_plain f (m ∷ r) is (is_m, more) = (
  has_char-append b'\n' (field_line f) (text "\r") ∙ rw (is.one_line) refl,
  lines_plain m r is_m more,
)

-- The fields one after another, each with the status and the headers so far.
unfoldable pub each_field :
    (Text → Option Text)
    → (Text → Option Text)
    → List (Text × Text)
    → ℕ × Dict Text Text
    → Result AppError (ℕ × Dict Text Text)
each_field hn hv [] so_far = ok so_far
each_field hn hv ((name, value) ∷ fields) so_far = do
  next ← parse_field hn hv name value so_far
  each_field hn hv fields next

-- The response, if the status is one of HTTP.
abbrev pub framed : Result AppError (ℕ × Dict Text Text) → Bytes → Result AppError CgiResponse
framed r body = do
  (status, headers) ← r
  assert (leb 100 status && ltb status 600)
  ok (record { status = status; headers = headers; body = body })

with_returns-ne-nil : (f : Text × Text) (fs : List (Text × Text)) → with_returns (f ∷ fs) ≢ []
with_returns-ne-nil f [] h = cc
with_returns-ne-nil f (m ∷ r) h = cc

module _ (hn hv : Text → Option Text) where
  parse_line-field :
      (f : Text × Text) (line : Text) (so_far : ℕ × Dict Text Text)
      → IsField f
      → trim_returns line ≡ field_line f
      → parse_line hn hv line so_far ≡ parse_field hn hv f.0 f.1 so_far
  unfolding parse_line
  parse_line-field f line so_far is trimmed =
      let parts : split_once (text ":") (field_line f) ≡ some (f.0, b' ' ∷ f.1) =
        ap (split_once (text ":")) (append_assoc f.0 (text ": ") f.1)
        ∙ split_colon f.0 (b' ' ∷ f.1) is.name_plain in
      rw (trimmed, is_empty-field_line f, parts, is.name_trimmed, is.value_trimmed) refl

  parse_lines-fields :
      (f : Text × Text) (fs : List (Text × Text)) (so_far : ℕ × Dict Text Text)
      → IsField f
      → All IsField fs
      → parse_lines hn hv (with_returns (f ∷ fs)) so_far ≡ each_field hn hv (f ∷ fs) so_far
  unfolding parse_lines each_field
  parse_lines-fields f [] so_far is more =
      rw
        (parse_line-field f (field_line f) so_far is
          (trim_returns_plain (field_line f) is.no_return))
        refl
  parse_lines-fields f (m ∷ r) so_far is (is_m, more) =
      rw
        (parse_line-field f (field_line f ++ text "\r") so_far is
          (trim_returns-append (field_line f) is.no_return))
        (ap (λ k. parse_field hn hv f.0 f.1 so_far >>= k)
          (fun_ext (λ next. parse_lines-fields m r next is_m more)))

module _ {W : Type 0} (b : Backend W) where
  -- A response of header fields, an empty line and a body of any bytes is read field by field, in their
  -- order, and the body is kept as it is, also where it holds empty lines itself.
  pub parse_cgi_output-framed :
      (f : Text × Text) (fs : List (Text × Text)) (body : Bytes)
      → IsField f
      → All IsField fs
      → b.from_utf8 (header_block (f ∷ fs)) ≡ some (header_block (f ∷ fs))
      → parse_cgi_output b (header_block (f ∷ fs) ++ text "\r\n\r\n" ++ body)
        ≡ framed (each_field b.header_name b.header_value (f ∷ fs) (200, [])) body
  unfolding parse_cgi_output
  parse_cgi_output-framed f fs body is more utf8 =
      let block = header_block (f ∷ fs) in
      let parts : split_once (text "\r\n\r\n") (block ++ text "\r\n\r\n" ++ body)
          ≡ some (block, body) =
        ap (split_once (text "\r\n\r\n")) (
          append_assoc block (text "\r\n\r\n") body
          ∙ sym (append_assoc block (text "\r\n\r") (b'\n' ∷ body)))
        ∙ split_once-append (text "\r\n\r") b'\n' body block (block_no_blank f fs is more) in
      let lines : split b'\n' block ≡ with_returns (f ∷ fs) =
        split-join b'\n' (with_returns (f ∷ fs)) (with_returns-ne-nil f fs)
          (lines_plain f fs is more) in
      let some_bytes : is_empty (block ++ text "\r\n\r\n" ++ body) ≡ false =
        ap is_empty (append_assoc block (text "\r\n\r\n") body)
        ∙ is_empty-append block b'\r' (text "\n\r\n" ++ body) in
      rw
        (
          some_bytes,
          parts,
          utf8,
          lines,
          parse_lines-fields b.header_name b.header_value f fs (200, []) is more,
        )
        refl
