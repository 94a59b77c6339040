-- ===== src/ContextMap/Laws.antt =====
-- Contexts of lists are found by the string IDs under which they were appended (src/context_map.cc).
use Prim.Native.Nat.{◌%◌}
use drcpd.Common.{
  ℕ, suc, ◌+◌, ◌<◌, ◌≡◌, ◌⊎◌, inl, inr, Bool, true, false, ◌&&◌, ◌||◌, Option, none, some, List, [],
  ◌∷◌, ◌++◌, length, u32_mod, arith, refl, ap, sym, ◌∙◌, if◌then◌else◌, Bool-cases, subst,
}
use drcpd.ContextMap.{
  internal_invalid, invalid_id, ContextInfo, invalid_name, default_context, is_valid, is_same,
  find_from, found_or_default, get_context_info_by_string_id, is_odd_name, is_invalid_string_id,
  append, at,
}

abbrev pub by_name : List ContextInfo → List ℕ → ContextInfo × ℕ
by_name = get_context_info_by_string_id

unfoldable pub append_all : List ContextInfo → List ContextInfo → List ContextInfo
append_all contexts [] = contexts
append_all contexts (info ∷ infos) = append_all (append contexts info).0 infos

-- Contexts that are not valid have odd names.
is_kept : List ContextInfo → Bool
is_kept [] = true
is_kept (info ∷ infos) = (is_valid info || is_odd_name info.string_id_) && is_kept infos

kept_append :
    (infos : List ContextInfo) (info : ContextInfo)
    → is_kept infos ≡ true
    → (is_valid info || is_odd_name info.string_id_) ≡ true
    → is_kept (infos ++ info ∷ []) ≡ true
unfolding is_kept
kept_append [] info h k = ground arith
kept_append (x ∷ xs) info h k = let ih = kept_append xs info (ground (arith, h)) k in ground arith

append_kept :
    (infos : List ContextInfo) (info : ContextInfo)
    → is_kept infos ≡ true
    → is_kept (append infos info).0 ≡ true
unfolding append is_valid is_odd_name
append_kept infos info h = elim (Bool-cases (is_invalid_string_id infos info.string_id_)) [
  | inl b ↦ let k = kept_append infos default_context h (ground arith) in ground arith
  | inr b ↦
      let k =
        kept_append infos (record info { flags_ = info.flags_ % internal_invalid }) h
          (ground arith) in
      ground arith
]

all_kept :
    (infos more : List ContextInfo) → is_kept infos ≡ true → is_kept (append_all infos more) ≡ true
unfolding append_all
all_kept infos [] h = h
all_kept infos (info ∷ more) h = all_kept (append infos info).0 more (append_kept infos info h)

same_odd : (xs ys : List ℕ) → is_same xs ys ≡ true → is_odd_name xs ≡ is_odd_name ys
unfolding is_same is_odd_name
same_odd [] [] h = refl
same_odd [] (y ∷ ys) h = absurd (ground (arith, h))
same_odd (x ∷ xs) [] h = absurd (ground (arith, h))
same_odd (x ∷ xs) (y ∷ ys) h = ground arith

-- What is found under a name that is not odd is valid.
found_valid :
    (infos : List ContextInfo) (id : List ℕ) (i : ℕ)
    → is_kept infos ≡ true
    → is_odd_name id ≡ false
    → is_valid (found_or_default (find_from infos id i)).0 ≡ false
    → find_from infos id i ≡ none
unfolding is_kept found_or_default find_from
found_valid [] id i h o v = refl
found_valid (x ∷ xs) id i h o v = elim (Bool-cases (is_same x.string_id_ id)) [
  | inl s ↦ let e = same_odd x.string_id_ id s in absurd (ground (arith, h, v))
  | inr s ↦
      let ih = found_valid xs id (suc i) (ground (arith, h)) o (ground (arith, v)) in ground arith
]

find_behind :
    (infos : List ContextInfo) (info : ContextInfo) (id : List ℕ) (i : ℕ)
    → find_from infos id i ≡ none
    → find_from (infos ++ info ∷ []) id i
      ≡ (if is_same info.string_id_ id then some (info, i + length infos) else none)
unfolding find_from
find_behind [] info id i h = ground arith
find_behind (x ∷ xs) info id i h = elim (Bool-cases (is_same x.string_id_ id)) [
  | inl s ↦ absurd (ground (arith, h))
  | inr s ↦
      let ih = find_behind xs info id (suc i) (ground (arith, h)) in
      let e : suc i + length xs ≡ i + suc (length xs) = omega arith in
      subst
        (λ n.
          find_from ((x ∷ xs) ++ info ∷ []) id i
          ≡ (if is_same info.string_id_ id then some (info, n) else none))
        e (ground arith)
]

find_before :
    (infos : List ContextInfo) (info : ContextInfo) (id : List ℕ) (i : ℕ) (r : ContextInfo × ℕ)
    → find_from infos id i ≡ some r
    → find_from (infos ++ info ∷ []) id i ≡ some r
unfolding find_from
find_before [] info id i r h = absurd (ground (arith, h))
find_before (x ∷ xs) info id i r h = elim (Bool-cases (is_same x.string_id_ id)) [
  | inl s ↦ ground (arith, h)
  | inr s ↦ let ih = find_before xs info id (suc i) r (ground (arith, h)) in ground arith
]

at_behind :
    (infos : List ContextInfo) (info : ContextInfo) → at (infos ++ info ∷ []) (length infos) ≡ info
unfolding at
at_behind [] info = refl
at_behind (x ∷ xs) info = at_behind xs info

Option-cases : (a : Option (ContextInfo × ℕ)) → (a ≡ none) ⊎ ((r : ContextInfo × ℕ) × (a ≡ some r))
Option-cases none = inl refl
Option-cases (some r) = inr (r, refl)

-- Another name is found as before.
others_stay :
    (infos : List ContextInfo) (info : ContextInfo) (id : List ℕ)
    → is_same info.string_id_ id ≡ false
    → by_name (infos ++ info ∷ []) id ≡ by_name infos id
unfolding get_context_info_by_string_id
others_stay infos info id s = elim (Option-cases (find_from infos id 0)) [
  | inl e ↦
      let b = find_behind infos info id 0 e in
      let e' : find_from (infos ++ info ∷ []) id 0 ≡ find_from infos id 0 = ground arith in
      ap found_or_default e'
  | inr (r, e) ↦ let b = find_before infos info id 0 r e in ap found_or_default (b ∙ sym e)
]

is_same_self : (xs : List ℕ) → is_same xs xs ≡ true
unfolding is_same
is_same_self [] = refl
is_same_self (x ∷ xs) = let ih = is_same_self xs in ground arith

abbrev pub public : ContextInfo → ContextInfo
public info = record info { flags_ = info.flags_ % internal_invalid }

append_refused :
    (infos : List ContextInfo) (info : ContextInfo)
    → is_invalid_string_id infos info.string_id_ ≡ true
    → append infos info ≡ (infos ++ default_context ∷ [], invalid_id)
unfolding append
append_refused infos info b = simp b

append_taken :
    (infos : List ContextInfo) (info : ContextInfo)
    → is_invalid_string_id infos info.string_id_ ≡ false
    → length infos < invalid_id
    → append infos info ≡ (infos ++ public info ∷ [], length infos)
unfolding append
append_taken infos info b h =
    let e : length infos % u32_mod ≡ length infos = omega arith in simp (b, e)

-- What is appended is found under its name, and by its number.
finds_appended :
    (infos : List ContextInfo) (info : ContextInfo)
    → is_kept infos ≡ true
    → is_invalid_string_id infos info.string_id_ ≡ false
    → (by_name (infos ++ public info ∷ []) info.string_id_ ≡ (public info, length infos))
      × (at (infos ++ public info ∷ []) (length infos) ≡ public info)
unfolding get_context_info_by_string_id is_invalid_string_id found_or_default
finds_appended infos info k b =
    let e : find_from infos info.string_id_ 0 ≡ none =
      found_valid infos info.string_id_ 0 k (ground (arith, b)) (ground (arith, b)) in
    let found = find_behind infos (public info) info.string_id_ 0 e in
    let same = is_same_self info.string_id_ in
    let found' : find_from (infos ++ public info ∷ []) info.string_id_ 0
        ≡ some (public info, length infos) =
      ground arith in
    (ap found_or_default found', at_behind infos (public info))

invalid_is_odd : (name : List ℕ) → is_odd_name name ≡ false → is_same invalid_name name ≡ false
unfolding is_odd_name
invalid_is_odd name o = elim (Bool-cases (is_same invalid_name name)) [
  | inl s ↦ let e = same_odd invalid_name name s in absurd (ground (arith, o))
  | inr s ↦ s
]

same_names : (xs ys : List ℕ) → is_same xs ys ≡ true → xs ≡ ys
unfolding is_same
same_names [] [] h = refl
same_names [] (y ∷ ys) h = absurd (ground (arith, h))
same_names (x ∷ xs) [] h = absurd (ground (arith, h))
same_names (x ∷ xs) (y ∷ ys) h =
    let ih = same_names xs ys (ground (arith, h)) in let e : x ≡ y = ground (arith, h) in cc

-- Any name but an odd one is found after a context is appended as before, or it is the new one's.
finds_name :
    (infos : List ContextInfo) (info : ContextInfo) (name : List ℕ)
    → is_kept infos ≡ true
    → is_invalid_string_id infos info.string_id_ ≡ false
    → by_name (infos ++ public info ∷ []) name
      ≡ (if is_same info.string_id_ name then (public info, length infos) else by_name infos name)
finds_name infos info name k b = elim (Bool-cases (is_same info.string_id_ name)) [
  | inl s ↦
      let e = (finds_appended infos info k b).0 in
      ap (λ n. by_name (infos ++ public info ∷ []) n) (sym (same_names info.string_id_ name s))
      ∙ e
      ∙ sym (simp s)
  | inr s ↦ others_stay infos (public info) name s ∙ sym (simp s)
]

-- A context that is appended to a map of less than 2^32 - 1 contexts that were appended is found by
-- its name and by the number that is returned, without its internal flag, and other names that are
-- not empty and do not start with '#' are found as before; or its name is odd or found already, then
-- the invalid number is returned, and those names are found as before.
pub append_lem :
    (infos : List ContextInfo) (info : ContextInfo) (name : List ℕ)
    → length (append_all [] infos) < invalid_id
    → is_odd_name name ≡ false
    → let map = append_all [] infos in
      let map' = (append map info).0 in
      let id = (append map info).1 in
      ((is_invalid_string_id map info.string_id_ ≡ false)
        × (id ≡ length map)
        × (at map' id ≡ public info)
        × (by_name map' name
            ≡ (if is_same info.string_id_ name then (public info, id) else by_name map name)))
      ⊎ ((is_invalid_string_id map info.string_id_ ≡ true)
          × (id ≡ invalid_id)
          × (by_name map' name ≡ by_name map name))
unfolding is_kept
append_lem infos info name h o =
    let map = append_all [] infos in
    elim (Bool-cases (is_invalid_string_id map info.string_id_)) [
      | inl b ↦
          let e = append_refused map info b in
          inr (
            b,
            ap (λ p. p.1) e,
            ap (λ p. by_name p.0 name) e
                ∙ others_stay map default_context name (invalid_is_odd name o),
          )
      | inr b ↦
          let e = append_taken map info b h in
          let k = all_kept [] infos refl in
          inl (
            b,
            ap (λ p. p.1) e,
            ap (λ p. at p.0 p.1) e ∙ (finds_appended map info k b).1,
            subst
                (λ p.
                  by_name p.0 name
                  ≡ (if is_same info.string_id_ name then (public info, p.1) else by_name map name))
                (sym e) (finds_name map info name k b),
          )
    ]
