-- ===== src/Lib.antt =====
-- cbftp is an FTP/FXP client that spreads files between sites. This library models the parts of it
-- that carry its own logic and states what makes them correct. Paths are those of the repository.
--
-- src/connstatetracker.cpp keeps what one connection of a site is doing: a lock for a file transfer,
-- the transfer itself, a listing, an open request and a delayed command (src/delayedcommand.cpp). The
-- site logic asks it before it uses a connection. ConnStateTracker.antt has the record with the
-- members of the class and the first methods, ConnStateTracker/Operations.antt the others and `step`,
-- one call of any method that changes the object. A failed `assert` is `none`. SiteLogicRequest.antt
-- is src/sitelogicrequest.cpp.
--
-- src/transferstatus.cpp keeps what the user is shown of one transfer; TransferStatus.antt and
-- TransferStatus/Operations.antt model it, with divisions by zero and failed assertions as `none` and
-- the 32-bit and 64-bit arithmetic written out.
--
-- src/skiplist.cpp decides which files and directories a site may take. SkipList.antt has the entries
-- and the scan, SkipList/Check.antt the methods over a store of lists, since a list falls back on
-- others and keeps a cache. The scan compares by the wildcard matcher of src/util.cpp, which is
-- Util/Wildcard.antt, directory by directory.
--
-- src/hourlyalltracking.{h,cpp} in HourlyAllTracking: a count per hour for a day, moved on hour by hour
-- in checkRotate, whose loop is given 24 rounds because it starts with less than 24 hours. The time of
-- the system is an argument. src/statistics.{h,cpp} in Statistics: six of these, two for each direction
-- of a transfer, with the counts of jobs and refreshes. Statistics keeps its objects by value, so there
-- is no store.
--
-- src/rawbuffer.{h,cpp} in RawBuffer: the log of a connection. A vector with its index is a Ring; the
-- methods that filter are in RawBuffer, those that write in RawBuffer/Operations, where the loop of
-- write is given a round for each byte since a round moves on by one at least. The matcher of the
-- filters is that of Util.Wildcard; std::regex, which may match anything, is a parameter; the calls of
-- RawBufferCallback and of the user interface are kept as a list and a count.
--
-- src/path.{h,cpp} in Path (the constructors, contains and the operators) and Path/Levels (the methods
-- that go over the slashes). A loop that searches from a position is given a round for each byte and
-- one more, since each search moves on by a byte at least, or takes one away.
--
-- src/http/parser.{h,cpp} in Http/Parser: headers are gathered in a buffer of 8192 bytes, and a body is
-- counted. What the subclasses' parse returns, which is picohttpparser's answer, is a parameter; the
-- theorem that needs it takes as a hypothesis that headers end among the new bytes wherever all earlier
-- calls on the buffer wanted more.
--
-- src/sizelocationtrack.{h,cpp} in SizeLocationTrack: the sizes that sites report, as an association
-- list, their counts in the order of the sizes (Tally), and the loop over these (Scanning).
--
-- src/file.{h,cpp} in File: a file and its setters. src/filelist.{h,cpp} in FileList: the files of a
-- directory with their counts. Every method that changes the list is a function, and a call of one is a
-- step (FileList/Calls). Pointers to files are names, and firstsimilar also tells whether its
-- file is still in the list; the map and the list of files are one list, since both hold the same
-- objects; the answer of SkipList::check is a parameter, as are the times. FileList/Invariant has the
-- counts, FileList/Tracked and FileList/Similar what firstsimilar points to.
--
-- src/scoreboard.{h,cpp} and src/scoreboardelement.{h,cpp} in ScoreBoard: the transfers that may be
-- started. Elements are objects at addresses, since the array, elementlocator and destinationlocator
-- point to them; ScoreBoard/Operations has the methods, ScoreBoard/Sort the radix sort with its arrays,
-- whose accesses out of bounds are `none`, and ScoreBoard/Shuffle the shuffling, with rand as a
-- parameter. ScoreBoard/Located has what the maps find, ScoreBoard/Ranked the two calls that
-- src/engine.cpp makes before it goes over the board.
--
-- src/core/tickpoke.{h,cpp} and src/core/tickpoketarget.{h,cpp} in TickPoke: targets that are called at
-- intervals, and the adjustment of the sleep. The loop that catches up is given a round for each
-- millisecond that it has to, since a round takes one at least.
--
-- src/core/datablockpool.{h,cpp} in DataBlockPool: blocks that are handed out and returned. malloc is a
-- parameter that gives an address for each call; the theorem takes as a hypothesis that these differ.
--
-- Conventions. Pointers are identities, null is `none`; a method that changes an object returns the new
-- one. Texts that are taken apart are lists of bytes without a zero byte, others are strings. `int`
-- counters that stay small (idle times, check counts) have no wrap-around. Members that a constructor
-- leaves uninitialised keep what an argument `junk` has.
--
-- Fuel. The second loop of the wildcard matcher has (|text| + 1) * (|pattern| + 1) rounds: it goes
-- back to the last star at most once for each byte of the text. The comparison of paths has one round
-- for each slash of the pattern. A check of a skip list asks three lists at most: its own, the one to
-- fall through to or its global one, and that one's global list.
--
-- Parameters. `malloc` and `rand` stand for those functions, `regex` for std::regex_match, and `alive`
-- for the objects that a weak pointer can still reach.
--
-- Not modelled: the terminal interface, sockets, TLS and threads, the FTP protocol driver, the site
-- logic, races and transfer jobs that drive the parts above, settings files and the REST interface,
-- and the copies of other projects under src/ext.
pub mod Common
pub mod ConnStateTracker
pub mod DataBlockPool
pub mod DelayedCommand
pub mod File
pub mod FileList
pub mod HourlyAllTracking
pub mod Http
pub mod Path
pub mod RawBuffer
pub mod ScoreBoard
pub mod SiteLogicRequest
pub mod SizeLocationTrack
pub mod SkipList
pub mod Statistics
pub mod TickPoke
pub mod TransferStatus
pub mod Util
