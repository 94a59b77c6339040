-- ===== src/Lib.antt =====
-- Verification of drcpd, the DRCP daemon: the program that drives the user interface of a
-- streaming appliance. It browses lists that a list broker holds (over D-Bus), queues streams in
-- a stream player, and sends XML views of its state to the daemon dcpd.
--
-- Parts and files:
--   Common              numbers, tests, lists and 32-bit sums that all parts share
--   CacheSegment        src/cache_segment.hh: runs of list lines and their intersection
--   RamList             src/ramlist.cc: the items in memory
--   Viewport            src/dbuslist_viewport.hh, src/dbuslist_viewport.cc, and
--                       `update_viewport_cache` of src/dbuslist.cc: the window of cached items
--   SyncList            src/dbuslist.cc: `DBusList::get_item`, on top of the viewport
--   ListNav             src/listnav.hh: the cursor and the display of a list that is browsed,
--                       through a filter of its items
--   Search              src/search_algo.cc: the binary search for a text in a sorted list
--   Crawler             src/directory_crawler.hh, src/directory_crawler.cc,
--                       src/directory_crawler_find_next_op.cc, src/playlist_crawler.hh,
--                       src/playlist_crawler_ops.hh: finding the streams of a directory hierarchy
--   ContextMap          src/context_map.hh, src/context_map.cc: the contexts of lists, by number and
--                       by string ID, and their flags
--   CacheEnforcer       src/cacheenforcer.hh, src/cacheenforcer.cc: keeping a list in the broker's
--                       cache by repeated calls
--   Busy                src/busy.hh, src/busy.cc: the global busy state
--   Rnf                 src/rnfcall_state.hh, src/rnfcall.hh, src/rnfcall.cc: D-Bus calls by
--                       request, notification and fetch, with their aborts
--   Rnf.GetRange        src/rnfcall_get_range.hh: what a call for a range of a list is loading
--   Player.QueuedStreams  src/player_data.hh, src/player_data.cc: the streams sent to the player
--   Player.NowPlaying   src/player_data.hh, src/player_data.cc: the stream now playing
--   Player.RefCounts    src/player_data.cc: how often lists are referenced
--   Player.Data         src/player_data.hh, src/player_data.cc: the player's data, with its
--                       assertions in Player.Data.Asserted
--   Player.Skipper      src/player_control_skipper.hh, src/player_control_skipper.cc: skipping
--   Player.StoppedReason  src/player_stopped_reason.hh: the stream player's error identifiers
--   Player.AudioSource  src/audiosource.hh: audio sources and their selection
--   Dcp.Transaction     src/dcp_transaction.hh, src/dcp_transaction.cc: one transaction with dcpd
--   Dcp.Ascii           src/dcp_transaction.cc: `to_ascii`, the trace output
--   Dcp.Queue           src/dcp_transaction_queue.hh, src/dcp_transaction_queue.cc: the views
--                       that wait for a transaction
--   Tests               the theorems at concrete inputs
--
-- How they interact: a read of a list moves the viewport, whose segments tell which lines are
-- missing; these are fetched from the broker and put into the RAM list. An RNF call does such a
-- fetch without blocking, and holds a source of the busy state meanwhile. The crawler enters one
-- list after another by such calls, to find the next stream to play. The views show the outcome,
-- and the queue sends them to dcpd, one transaction at a time.
--
-- Correspondence: a class is a record with the class's fields, under their names; a member
-- function is a function of that name from the record to the new record, with the result
-- beside it. Exceptions, undefined behaviour and the end of the program are values or the lack
-- of a value, as the file says; a failed assertion is the end of the program. `unsigned int`
-- sums are taken modulo 2^32 (`add32`, `sub32`), and counters of type `unsigned short` stop at
-- 65535 as in the code. Each operation is one step; what other threads may do while an
-- operation has released its lock is a parameter of the step.
--
-- Bounds and fuel: `while(process());` of the queue recurses on fuel. One round is enough, since
-- a committed transaction is waiting for its answer and stops the loop. The search for
-- an unused stream ID recurses on one more step than there are streams, at most 22, which is
-- enough if no ID comes again within 21 steps. The search for the next visible or selectable item
-- takes at most as many steps as there are items up to the last one, which is enough for a filter
-- that keeps its promises; beyond, the code would leave the list. Dropping streams takes one round
-- for each of them. The search for a boundary takes at most four rounds more than the distance
-- between the ends of its partition, which is enough for the upper boundary in sorted items that
-- have a character at the depth. A run of the crawler takes at most two rounds more than its list
-- has items, which is enough if every item can be read. All other loops are recursion on the list
-- they run over. Line numbers and sizes are assumed not to wrap where a theorem says `Fits`, which
-- is that line plus count is a 32-bit number.
--
-- Parameters, for code outside these sources: the list broker (`fetch_window_sync`), the D-Bus
-- calls of an RNF call (`do_request`, `do_fetch`, `abort_cookie_fn_`), the views' serializer
-- (`write_whole_xml`), the construction of list items (`new_item_fn`), the header line of a
-- transaction (`snprintf`), the step from one stream ID to the next (`next_id`), the order of
-- playback speeds, and the start of a search for the next item to skip to. A stream ID of
-- another program is known by that, one of ours by a number. The texts of list items that are
-- searched (`text`) are parameters, too, in their casefolded form. The crawler's questions to the
-- list broker and to the D-Bus list are answered by a `World`.
--
-- Not modelled: log messages, locks, memory management, D-Bus glue, translations and XML output;
-- the URIs that the player's data hand to the stream player; not yet: the player's control, the
-- crawler's handle and its fetching of URIs, the view manager and the views, asynchronous list
-- reads.
pub mod Common
pub mod ListNav
pub mod Search
pub mod Crawler
pub mod ContextMap
pub mod CacheEnforcer
pub mod CacheSegment
pub mod RamList
pub mod Viewport
pub mod SyncList
pub mod Busy
pub mod Rnf
pub mod Player
pub mod Dcp
pub mod Tests
