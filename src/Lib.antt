-- ===== src/Lib.antt =====
-- ReviveEmu: the legacy Steam client library for game servers (Steam/steamclient_legacy), and of
-- Steam/steam the identifiers and tickets that it shares and the reading of the game's content
-- files.
--
-- A game server loads the library and calls it from several threads. One state, `Runtime()`, is
-- kept behind one mutex; every call runs one or two critical sections on it. A connecting client
-- presents a ticket (Auth); the server's call reserves a session, checks the ticket outside the
-- mutex, then binds the ticket's identity to the session and queues the callbacks 205 and 201 in
-- one section (Sessions, Callbacks, GameServer). The server's own loop takes the callbacks one by
-- one, and the release of each moves its session on in the lifecycle (Lifecycle).
--
--   Base        lists, options, maps keyed by numbers, texts, reads of bytes and bit operations
--   SteamId     Steam/steam/Steam3ID.h, `CSteamID`: a record of its four fields
--   Auth        Steam/steamclient_legacy/auth: `ValidateClassicRevEmuTicket` is
--               `validate_classic`, `ParseAndValidateAuthTicket` is `parse_and_validate`,
--               `AuthTicketFingerprint` is `ticket_fingerprint`; a pointer is a function from
--               offsets to bytes, or `none` for NULL
--   Runtime     LegacySteamRuntime.h and .cpp: `RuntimeState` and its constants
--   Lifecycle   LegacySteamLifecycle.cpp: `TransitionClientLifecycleLocked` is `transition`,
--               `RemoveClientLifecycleLocked` is `remove_client`; Diagram has the states' edges
--   Sessions    LegacySteamAuth.cpp: `BeginSteam2AuthLocked` is `begin_steam2_auth`, and so on;
--               Table states the invariant of the session table, Moves the effect of each call
--   Callbacks   LegacySteamCallbacks.cpp: the bounded queue and its consumer
--   GameServer  LegacySteamInterfaces.cpp, `CSteamGameServer002`: Connect, Reserved and Outcome follow
--               `GSSendSteam2UserConnect`, Leave the two ways out, Invariant and History all
--               interleavings of critical sections, Drain the delivery of callbacks
--   MasterServer  LegacySteamInterfaces.cpp, `CSteamMasterServerUpdater001`: the two bounded tables
--   Cache       Steam/steam/CacheSystem: Layout is how a GCF file is read, Chain `BuildFileInfo`,
--               Stream the open files (`read_binary`, `read_text`, `seek_file`) and, against the bytes
--               that a file's sectors hold, its children Slice to Open, Mask `IsMatchingWithMask`,
--               Directory `BuildGlobalDirectoryTable`, `FindItem` and the calls that search, Names
--               `BuildDirectoryTable`, Mount `MountCache` and its like
--   FileSystem  Steam/steam/SteamFilesystem.h: Files opens (`SteamOpenFile2` is `steam_open_file2`),
--               Access reads, writes and closes, Extract copies a file to the disk, Search is
--               `SteamFindFirst` and its like; Session and Search/Whole put the calls together;
--               Depots is `ParseAppDependencies` and the mounting. `Os` is the C library
--   Blob        Steam/steam/BlobSystem: `CBlobNode::Populate` is `populate`, Print a writer of the
--               same format, Path `GetNodeByPath`, Records `CAppVersionRecord::Enumerate` and
--               `CAppFilesystemRecord::Enumerate`
--   Validation  Steam/steam/SteamUserIDValidation.h: tickets of the emulator and their handles
--
-- Each function by clauses takes the state and gives the state after it with its answer, so what
-- an early return leaves undone is seen in the result. `std::map` is the list of its entries in
-- the order of its keys. Numbers are natural, and the wrap of unsigned arithmetic is written out;
-- the build is for i386, where a `long` has 32 bits. In the library for game servers no function
-- needs fuel: every loop runs over a list or down a count. In Cache the two loops of
-- `BuildFileInfo` and those of the reads have fuel, and an `Outcome` tells apart a result, an
-- access outside an array and fuel that ran out. A read's fuel is one more than it asks for. Both
-- loops of `BuildFileInfo` can run for ever on a damaged file, so their fuel is the caller's, one
-- more than the blocks and the sectors of a sound chain; they write with no test of the place, and
-- with more sectors than the array has places the function is a fault, since what the program then
-- does is undefined. The walk over the directory has fuel one more than its items, and that of the
-- recursion over dependencies, one more than their chain. A copy to the disk has fuel for two
-- rounds more than the full buffers of the file. In Blob the fuel bounds the depth of keys and the
-- length of a block, and the count of a tree's keys and values, and some more, is enough. The pair
-- of sections of one connect is let apart in `History`, where any other section may come between
-- them; a run there has fewer than 2 ^ 64 - 1 reservations, since the counter of generations is
-- one 64-bit word.
--
-- Not modelled: logging and the ABI trace, which have no effect on the answers; the calls that
-- answer a constant; in Steam/steam the other records of the content description, the mounting by
-- a file of settings, the rest of its API, and the operating system behind them, which is a
-- parameter; copies of other projects (zlib, simpleini, strtools, MurmurHash).
pub mod Base
pub mod SteamId
pub mod Auth
pub mod Runtime
pub mod Lifecycle
pub mod Sessions
pub mod Callbacks
pub mod GameServer
pub mod MasterServer
pub mod Validation
pub mod Cache
pub mod Blob
pub mod FileSystem
