-- ===== src/Crawler/Bounds.antt =====
-- The lines that the crawler asks for before it reads one (src/directory_crawler.cc).
use Prim.Native.Nat.{min}
use drcpd.Common.{◌≡◌, ◌+◌, ◌≤◌, ◌<◌, Bool, true, false, arith}
use drcpd.Crawler.{Cursor, hint_range}

-- The lines asked for are lines of the list, as many as the
-- crawler looks ahead, or all if the list has fewer,
-- and the line at the cursor is among them; the cursor is in the list, whose lines fill 31 bits.
pub hint_range_covers :
    (c : Cursor) (is_forward : Bool)
    → c.nav_.cursor_ < c.items_
    → 0 < c.nav_.maximum_number_of_displayed_lines_
    → c.items_ ≤ 2147483648
    → c.nav_.maximum_number_of_displayed_lines_ ≤ 2147483648
    → ((hint_range c is_forward).0 ≤ c.nav_.cursor_)
      × (c.nav_.cursor_ < (hint_range c is_forward).0 + (hint_range c is_forward).1)
      × ((hint_range c is_forward).0 + (hint_range c is_forward).1 ≤ c.items_)
      × ((hint_range c is_forward).1 ≡ min c.nav_.maximum_number_of_displayed_lines_ c.items_)
unfolding hint_range
hint_range_covers c true h1 h2 h3 h4 = (ground arith, ground arith, ground arith, ground arith)
hint_range_covers c false h1 h2 h3 h4 = (ground arith, ground arith, ground arith, ground arith)
