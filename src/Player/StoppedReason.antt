-- ===== src/Player/StoppedReason.antt =====
-- src/player_stopped_reason.hh: why a stream stopped, from the error identifier that the stream
-- player reports. Texts are lists of bytes.
pub mod Laws
use drcpd.Common.{
  Bool-cases, inl, inr, ℕ, zero, suc, ◌+◌, ◌≡◌, ◌≢◌, ◌⊎◌, refl, ap, sym, ◌∙◌, Bool, true, false,
  not, ◌&&◌, Option, none, some, List, [], ◌∷◌, ◌++◌, arith, ◌==◌, if◌then◌else◌, length, take,
  drop,
}

pub data Domain : Type 0 where
  unknown flow io data_ : Domain

pub data Code : Type 0 where
  unknown flow_reported_unknown flow_empty_urlfifo flow_already_stopped : Code
  io_media_failure io_network_failure io_url_missing io_protocol_violation : Code
  io_authentication_failure io_stream_unavailable io_stream_type_not_supported : Code
  io_access_denied data_codec_missing data_wrong_format data_broken_stream data_encrypted : Code
  data_encryption_scheme_not_supported : Code

unfoldable pub is_same : List ℕ → List ℕ → Bool
is_same [] [] = true
is_same [] (y ∷ ys) = false
is_same (x ∷ xs) [] = false
is_same (x ∷ xs) (y ∷ ys) = x == y && is_same xs ys

-- `error_id.find('.')`.
unfoldable pub find_dot : List ℕ → Option ℕ
find_dot [] = none
find_dot (x ∷ xs) =
    let rest : Option ℕ = elim (find_dot xs) [ none ↦ none | some pos ↦ some (suc pos) ] in
    if x == b'.' then some 0 else rest

unfoldable pub lookup_code : List (List ℕ × Code) → List ℕ → ℕ → Code
unfolding is_same
lookup_code [] error_id pos = Code.unknown
lookup_code ((name, code) ∷ codes) error_id pos =
    let rest = lookup_code codes error_id pos in
    if is_same (drop pos error_id) name then code else rest

abbrev pub text_flow : List ℕ
text_flow = b'f' ∷ b'l' ∷ b'o' ∷ b'w' ∷ []

abbrev pub text_io : List ℕ
text_io = b'i' ∷ b'o' ∷ []

abbrev pub text_data : List ℕ
text_data = b'd' ∷ b'a' ∷ b't' ∷ b'a' ∷ []

abbrev pub flow_codes : List (List ℕ × Code)
flow_codes =
    (b'u' ∷ b'n' ∷ b'k' ∷ b'n' ∷ b'o' ∷ b'w' ∷ b'n' ∷ [], Code.flow_reported_unknown)
    ∷ (b'n' ∷ b'o' ∷ b'u' ∷ b'r' ∷ b'l' ∷ [], Code.flow_empty_urlfifo)
    ∷ (b's' ∷ b't' ∷ b'o' ∷ b'p' ∷ b'p' ∷ b'e' ∷ b'd' ∷ [], Code.flow_already_stopped)
    ∷ []

abbrev pub io_codes : List (List ℕ × Code)
io_codes =
    (b'm' ∷ b'e' ∷ b'd' ∷ b'i' ∷ b'a' ∷ [], Code.io_media_failure)
    ∷ (b'n' ∷ b'e' ∷ b't' ∷ [], Code.io_network_failure)
    ∷ (b'n' ∷ b'o' ∷ b'u' ∷ b'r' ∷ b'l' ∷ [], Code.io_url_missing)
    ∷ (b'p' ∷ b'r' ∷ b'o' ∷ b't' ∷ b'o' ∷ b'c' ∷ b'o' ∷ b'l' ∷ [], Code.io_protocol_violation)
    ∷ (b'a' ∷ b'u' ∷ b't' ∷ b'h' ∷ [], Code.io_authentication_failure)
    ∷ (
      b'u' ∷ b'n' ∷ b'a' ∷ b'v' ∷ b'a' ∷ b'i' ∷ b'l' ∷ b'a' ∷ b'b' ∷ b'l' ∷ b'e' ∷ [],
      Code.io_stream_unavailable,
    )
    ∷ (b't' ∷ b'y' ∷ b'p' ∷ b'e' ∷ [], Code.io_stream_type_not_supported)
    ∷ (b'd' ∷ b'e' ∷ b'n' ∷ b'i' ∷ b'e' ∷ b'd' ∷ [], Code.io_access_denied)
    ∷ []

abbrev pub data_codes : List (List ℕ × Code)
data_codes =
    (b'c' ∷ b'o' ∷ b'd' ∷ b'e' ∷ b'c' ∷ [], Code.data_codec_missing)
    ∷ (b'f' ∷ b'o' ∷ b'r' ∷ b'm' ∷ b'a' ∷ b't' ∷ [], Code.data_wrong_format)
    ∷ (b'b' ∷ b'r' ∷ b'o' ∷ b'k' ∷ b'e' ∷ b'n' ∷ [], Code.data_broken_stream)
    ∷ (b'e' ∷ b'n' ∷ b'c' ∷ b'r' ∷ b'y' ∷ b'p' ∷ b't' ∷ b'e' ∷ b'd' ∷ [], Code.data_encrypted)
    ∷ (
      b'n' ∷ b'o' ∷ b'd' ∷ b'e' ∷ b'c' ∷ b'r' ∷ b'y' ∷ b'p' ∷ b't' ∷ b'e' ∷ b'r' ∷ [],
      Code.data_encryption_scheme_not_supported,
    )
    ∷ []

-- The tests on "io" and "data" are on the whole identifier, and for being different.
pub parse_at : List ℕ → ℕ → Domain × Code
parse_at error_id pos =
    if is_same (take pos error_id) text_flow
    then (Domain.flow, lookup_code flow_codes error_id (suc pos))
    else if not (is_same error_id text_io)
    then (Domain.io, lookup_code io_codes error_id (suc pos))
    else if not (is_same error_id text_data)
    then (Domain.data_, lookup_code data_codes error_id (suc pos))
    else (Domain.unknown, Code.unknown)

unfoldable pub parse : List ℕ → Domain × Code
parse error_id = elim (find_dot error_id) [
  | none ↦ (Domain.unknown, Code.unknown)
  | some pos ↦ parse_at error_id pos
]
