-- ===== src/Dcp/Ascii.antt =====
-- The dump of a document for the trace log, `to_ascii` of src/dcp_transaction.cc. The buffer is
-- given by its size; a write past its end is undefined in the source, and has no result here.
-- The terminating zero byte is not part of the texts.
pub mod Laws
use drcpd.Common.{
  ℕ, zero, suc, ◌+◌, ◌-◌, ◌*◌, ◌/◌, ◌%◌, ◌≤◌, ◌<◌, ◌≡◌, ◌≢◌, Bool, true, false, Option, none, some,
  List, [], ◌∷◌, ◌++◌, refl, ap, arith, ltb, leb, if◌then◌else◌, length, take, All, ◌&&◌,
}

abbrev pub buffer_size : ℕ
buffer_size = 16384

unfoldable pub nibble_to_char : ℕ → ℕ
nibble_to_char nibble = if ltb nibble 10 then b'0' + nibble else b'a' + (nibble - 10)

-- `isascii(ch) && isprint(ch)`.
unfoldable pub is_plain : ℕ → Bool
is_plain ch = leb 32 ch && leb ch 126

unfoldable pub escape : ℕ → List ℕ
unfolding nibble_to_char
escape ch =
    b'{' ∷ b'0' ∷ b'x' ∷ nibble_to_char (ch / 16 % 16) ∷ nibble_to_char (ch % 16) ∷ b'}' ∷ []

unfoldable pub prepend : List ℕ → Option (List ℕ) → Option (List ℕ)
prepend xs none = none
prepend xs (some ys) = some (xs ++ ys)

-- The loop, over what is left of the text, with `i` bytes of the buffer filled.
pub fill : ℕ → ℕ → List ℕ → Option (List ℕ)
fill size i [] = some []
fill size i (ch ∷ text) =
    let plain = prepend (ch ∷ []) (fill size (i + 1) text) in
    let escaped = prepend (escape ch) (fill size (i + 6) text) in
    if ltb i size
    then if is_plain ch then plain else if ltb (i + 5) size then escaped else none
    else some []

-- The last byte of the buffer is set to zero.
unfoldable pub to_ascii : ℕ → List ℕ → Option (List ℕ)
unfolding fill
to_ascii size text = elim (fill size 0 text) [ none ↦ none | some out ↦ some (take (size - 1) out) ]
