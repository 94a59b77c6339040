-- ===== src/Tests/ContextMap.antt =====
-- The map of contexts (src/context_map.cc) at a concrete input.
use drcpd.Common.{ℕ, ◌≡◌, ◌⊎◌, refl, true, false, none, List, [], ◌∷◌, arith, if◌then◌else◌}
use drcpd.ContextMap.{
  ContextInfo, is_odd_name, is_valid, set_flags, check_flags, is_same, is_invalid_string_id, append,
  at,
}
use drcpd.ContextMap.Flags.{check_flags-set_flags}
use drcpd.ContextMap.Laws.{append_lem, append_all, by_name, public}

abbrev context : List ℕ → ContextInfo
context name = record { flags_ = 1; string_id_ = name; description_ = 0; permissions_ = none }

abbrev usb : List ℕ
usb = b'u' ∷ b's' ∷ b'b' ∷ []

abbrev upnp : List ℕ
upnp = b'u' ∷ b'p' ∷ []

append_lem_example :
    let map = append_all [] (context usb ∷ context usb ∷ []) in
    let map' = (append map (context upnp)).0 in
    let id = (append map (context upnp)).1 in
    ((is_invalid_string_id map upnp ≡ false)
      × (id ≡ 2)
      × (at map' id ≡ public (context upnp))
      × (by_name map' usb
          ≡ (if is_same upnp usb then (public (context upnp), id) else by_name map usb)))
    ⊎ ((is_invalid_string_id map upnp ≡ true)
        × (id ≡ 4294967295)
        × (by_name map' usb ≡ by_name map usb))
unfolding append_all append is_odd_name
append_lem_example =
    append_lem (context usb ∷ context usb ∷ []) (context upnp) usb (omega arith) refl

check_flags-set_flags_example :
    (is_valid (set_flags (context usb) 2147483652) ≡ true)
    × (check_flags (set_flags (context usb) 2147483652) 6 ≡ true)
unfolding is_valid check_flags
check_flags-set_flags_example = check_flags-set_flags (context usb) 2147483652 6
