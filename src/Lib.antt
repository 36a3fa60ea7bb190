-- ===== src/Lib.antt =====
-- YSpot: a file search service for Windows, and a shell that asks it. The service keeps an
-- index of the names on an NTFS volume in memory (crates/yspot-index), fills it from the file
-- table, follows the journal of the volume, and answers queries over a named pipe
-- (crates/yspot-indexd, crates/yspot-proto).
--
-- Prelude: shared names, lists and byte strings over the native numbers. Text: UTF-8 texts and
-- folding; the tables of Unicode are a parameter. Index: the volume index of
-- crates/yspot-index/src/index.rs. Index/Flags and Index/Types hold its data, Index/Columns
-- the accelerating columns, Index/Arena `intern`, Index/Table the entries with their map and
-- what `register_slot` and `unregister_slot` do to them, Index/Volume the whole state and the
-- handlers of events, from `add_entry` to `apply`. Index/Table/Fenced is the layout of the
-- folded arena that the matcher relies on; Index/Columns/Bits and Index/Columns/Gates are
-- about the class slices and the n-gram gates, Matching/Scan/Owner and Index/Volume/Owned
-- about the owner index; Index/Paths holds `path_of` and `depth_of`, Index/Depth the memoized
-- sweep of the cached depths and its repair by slices, Index/Compact compaction in place and
-- the end of a bulk load. Matching: crates/yspot-index/src/matching.rs. Matching/Tier and
-- Matching/Score hold the tiers and scores, Matching/Selector the `Selector` with its heap and
-- the page that is drained from it, Matching/Ranges the ranges of a hit, Matching/Fuzzy the
-- fuzzy tier's candidates, density and cap, Matching/Scan the loops over the columns,
-- Matching/Passes the passes and Matching/Search `search` itself. Usn: the journal records of
-- crates/yspot-index/src/mft.rs and usn.rs, Usn/Applied what they do to the index. Proto: the messages and frames of
-- crates/yspot-proto/src/lib.rs. Service: crates/yspot-indexd/src, the shared state (state.rs)
-- and a connection (session.rs) as steps of its two threads, with the pages and the answers
-- that it sends, and the repair of depths from the housekeeping thread (main.rs). Calc: the
-- shell's calculator, apps/shell/src-tauri/src/calc.rs: Calc/Tokens `tokenize`, Calc/Parser
-- the parser, Calc/Dates the calendar and Calc/Question the questions about dates. Examples:
-- the theorems at small inputs.
--
-- The journal's records become events (Usn), the events change the index (Index), a query read
-- from the pipe (Proto) goes through a connection (Service/Session) to the index, whose hits
-- the matcher grades (Matching).
--
-- Machine integers: file numbers, offsets and generations are numbers; where the source bounds
-- them, the bound is written out (`u32_max`, `u16_max`, `u64_max`), and a length that is
-- narrowed wraps. An `f32` that is not negative is its bits, and the arithmetic of `f32` a
-- parameter. A hash map is a function, a bit array its characteristic function. The answers of
-- `is_cancelled` and of the clock are given in the order in which they are asked for. Bounded
-- loops recurse on fuel: the length of a buffer, and one, bounds the walk over its records,
-- since a record takes bytes, the length of the arena bounds the owner index, since a block takes
-- bytes, and bounds the windows and the hits of a scan, since each moves on by a byte or more;
-- the tokens, and one, bound the calls of the parser, since each call takes one, and a
-- walk or a parse that runs out is told apart from one that ends. A walk of the sweep
-- passes each slot once, so the slots and one bound it, and a repair takes a slice for each
-- 65536 slots. The walks up the parents are cut at `path_depth_cap`, as in the source.
--
-- Not modelled: calls of Windows, SQLite, logging, reserved capacity, the memory figures and
-- the thresholds of compaction, the calculator's formats and units, the shell's windows and
-- its front end.
pub mod Prelude
pub mod Text
pub mod Index
pub mod Calc
pub mod Matching
pub mod Proto
pub mod Usn
pub mod Service
pub mod Examples
