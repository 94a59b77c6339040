-- ===== src/Player/StoppedReason/Laws.antt =====
-- What src/player_stopped_reason.hh makes of error identifiers.
use drcpd.Common.{
  Bool-cases, inl, inr, ℕ, suc, ◌≡◌, refl, ap, sym, ◌∙◌, true, false, none, some, List, [], ◌∷◌,
  ◌++◌, arith, if◌then◌else◌, length, take, drop,
}
use drcpd.Player.StoppedReason.{
  Domain, Code, is_same, find_dot, lookup_code, text_flow, text_io, flow_codes, io_codes, parse_at,
  parse,
}

equal_texts : (xs ys : List ℕ) → is_same xs ys ≡ true → xs ≡ ys
unfolding is_same
equal_texts [] [] h = refl
equal_texts [] (y ∷ ys) h = absurd (ground arith)
equal_texts (x ∷ xs) [] h = absurd (ground arith)
equal_texts (x ∷ xs) (y ∷ ys) h = ground (arith, equal_texts xs ys)

find_dot-append :
    (pre post : List ℕ) → find_dot pre ≡ none → find_dot (pre ++ b'.' ∷ post) ≡ some (length pre)
unfolding find_dot
find_dot-append [] post h = ground arith
find_dot-append (x ∷ pre) post h = ground (arith, find_dot-append pre post)

take-append : (pre post : List ℕ) → take (length pre) (pre ++ post) ≡ pre
take-append [] post = refl
take-append (x ∷ pre) post = ap (λ (xs : List ℕ). x ∷ xs) (take-append pre post)

drop-append : (pre post : List ℕ) (x : ℕ) → drop (suc (length pre)) (pre ++ x ∷ post) ≡ post
drop-append [] post x = refl
drop-append (y ∷ pre) post x = drop-append pre post x

lookup_code-drop :
    (codes : List (List ℕ × Code)) (error_id post : List ℕ) (pos : ℕ)
    → drop pos error_id ≡ post
    → lookup_code codes error_id pos ≡ lookup_code codes post 0
unfolding lookup_code
lookup_code-drop [] error_id post pos e = refl
lookup_code-drop ((name, code) ∷ codes) error_id post pos e =
    rw (e, lookup_code-drop codes error_id post pos e) refl

not_io :
    (error_id : List ℕ) (pos : ℕ) → find_dot error_id ≡ some pos → is_same error_id text_io ≡ false
unfolding find_dot
not_io error_id pos h = elim (Bool-cases (is_same error_id text_io)) [
  | inl e ↦ absurd (ground (arith, sym (ap find_dot (equal_texts error_id text_io e)) ∙ h))
  | inr e ↦ e
]

parse_at_right :
    (pre post : List ℕ)
    → find_dot pre ≡ none
    → parse_at (pre ++ b'.' ∷ post) (length pre) ≡ (
        if is_same pre text_flow
        then (Domain.flow, lookup_code flow_codes post 0)
        else (Domain.io, lookup_code io_codes post 0))
unfolding parse_at
parse_at_right pre post h =
    let d = drop-append pre post b'.' in
    rw
      (
        take-append pre (b'.' ∷ post),
        not_io (pre ++ b'.' ∷ post) (length pre) (find_dot-append pre post h),
        lookup_code-drop flow_codes (pre ++ b'.' ∷ post) post (suc (length pre)) d,
        lookup_code-drop io_codes (pre ++ b'.' ∷ post) post (suc (length pre)) d,
      )
      refl

-- What comes of an identifier: without a dot, nothing; with "flow" before the first dot, a flow
-- error; with anything else there, "data" included, an input/output error. The code is looked up
-- by what follows the first dot, in the table of that domain.
pub parse_right :
    (pre post : List ℕ)
    → find_dot pre ≡ none
    → (parse pre ≡ (Domain.unknown, Code.unknown))
      × (parse (pre ++ b'.' ∷ post) ≡ (
          if is_same pre text_flow
          then (Domain.flow, lookup_code flow_codes post 0)
          else (Domain.io, lookup_code io_codes post 0)))
unfolding parse
parse_right pre post h =
    (rw (h, parse) refl, rw (find_dot-append pre post h, parse) (parse_at_right pre post h))
