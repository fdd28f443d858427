-- ===== src/Lib.antt =====
-- A model of IACore, a C++ library of systems utilities, and what is proved of it. Paths are those of
-- the repository; `imp/` stands for Src/IACore/imp/cpp/ and `inc/` for Src/IACore/inc/IACore/.
--
-- The parts and how they interact. A process (IpcManager) divides a shared memory into two rings
-- (Ipc/Layout), writes a descriptor of it into the arguments of a child (Ipc/Descriptor, ProcessOps),
-- and both processes push packets into one ring and take packets from the other (RingBuffer,
-- Ipc/Drain). The output of a child is cut into lines (ProcessOps). A scheduler runs tasks on threads
-- (AsyncOps). Streams write to memory or a file and read it back (Stream). Vectors of four numbers are
-- those of the library Highway (Simd), and a framework runs the tests (Test). The rest are functions on
-- bytes and text (StringOps, Utils, Xml, Http, DataOps) and queries of the processor (Platform).
--
--   Base         shared names, lists, bit operations, results, decimal text; it models no part of
--                the program but the end of a C string (`c_str`), and `std::format("{}", n)` and
--                `std::from_chars` for a `u32`
--   RingBuffer   inc/ADT/RingBuffer.hpp: RingBufferView, `push`, `pop`, `create`, the wrapped copies
--   Ipc          imp/IPC.cpp, inc/IPC.hpp: IpcConnectionDescriptor (Ipc/Descriptor), the layout that
--                `spawn_node` writes (Ipc/Layout: `divide`), the loop of both `update` functions over
--                a ring (Ipc/Drain: `drain`), IpcNode (Ipc/Node: `connect`, `send_packet`; Ipc/Client:
--                `update`, `send_signal`), IpcManager (Ipc/Manager, and Ipc/Spawn: `spawn_node`)
--   ProcessOps   imp/ProcessOps.cpp: LineBuffer, the loop of `spawn_process_posix` that cuts the
--                argument text (`split_arguments`), its two sides (ProcessOps/Child for the parent,
--                ProcessOps/Redirect for the child), and ProcessHandle with `terminate_process`
--                (ProcessOps/Handle)
--   AsyncOps     imp/AsyncOps.cpp, inc/AsyncOps.hpp: the scheduler as a step relation (`Step`) over
--                the queues and counters, one step for one atomic operation or one locked section;
--                AsyncOps/Pool: the workers, the condition variable and `terminate_scheduler`;
--                AsyncOps/Waiter: a waiter that sleeps on the counter of its schedule
--   Stream       inc/StreamWriter.hpp, inc/StreamReader.hpp and their .cpp files
--   StringOps    imp/StringOps.cpp: base64
--   DataOps      imp/DataOps.cpp: CRC-32C in software and by the processor, xxHash, FNV-1a,
--                `detect_compression`, zlib and zstd (DataOps/Compression)
--   Utils        imp/Utils.cpp: hexadecimal text; inc/Utils.hpp: `hash_combine`, `compute_hash`
--                (Utils/Hash)
--   Xml          imp/XML.cpp: `escape_xml_string`; parsing and printing (Xml/Documents)
--   Json         inc/JSON.hpp: the functions of Json, JsonDocument
--   Http         imp/Http/Common.cpp, inc/Http/Common.hpp: percent-encoding, headers, status codes;
--                imp/Http/Client.cpp, inc/Http/Client.hpp: HttpClient (Http/Client)
--   FileOps      imp/FileOps.cpp, inc/FileOps.hpp: the table of mappings (FileOps/Mappings),
--                MemoryMappedRegion (FileOps/Region), whole files, streams over files and the flags
--                of `native_open_file` (FileOps/Files), `normalize_executable_path` (FileOps/Paths)
--   System       inc/CLI.hpp (System/Cli), the counts of initializations in imp/IACore.cpp and
--                inc/SocketOps.hpp (System/Counts), imp/SocketOps.cpp (System/Sockets),
--                inc/Environment.hpp, inc/DynamicLib.hpp, imp/Logger.cpp (System/Log)
--   Test         inc/IATest.hpp: the checks, `test_block`, `summarize`, `run_all`; `_test_approx` is in
--                Test/Approx
--   Platform     imp/Platform.cpp: `check_cpu` and the names of the platform
--   Version      inc/PCH.hpp: Version, `to_u64`
--   Simd         inc/SIMD.hpp: IntVec4 (Simd), FloatVec4 (Simd/Floats)
--
-- Conventions. Bytes and characters are numbers below 256; a `String`, a `Vec<u8>` and a `Span`
-- are lists of them. Machine arithmetic is written out: a sum of a `u32` is taken modulo 2 ^ 32,
-- of a `usize` or `u64` modulo 2 ^ 64, and an `i32` counter is kept modulo 2 ^ 32 with the test of
-- its sign; a law that needs it not to wrap around has the bound as a hypothesis. An argument of a
-- new process is a C string, which ends at its first zero byte (`c_str`). A `Result<T>` is
-- `Base.Results.Result` with an error type of the part; it is true in a condition when it holds a
-- value. Memory that two views share is a state that the operations take and return. A `memcpy`
-- outside of its memory is an error value of the model (`past_end`).
--
-- Bounds and fuel. The laws of a ring hold for capacities up to 2 ^ 32 - 65536, so that no sum of
-- an offset and a packet wraps. Decimal text is made with ten digits, enough for a `u32`. `drain`
-- makes a given number of rounds of its loop, `update` a given number of rounds for each ring, and
-- the laws hold for every number. `zlib_inflate` needs at most one round more than its output has
-- bytes. The loops of the hashes make as many rounds as the length holds blocks. All other
-- recursion is on the data.
--
-- Parameters. The C file functions are the record `CFiles` with the law that a complete `fwrite`
-- to a file that was just opened, and an `fclose` that succeeds, leave the file with these bytes;
-- the code ignores what `fclose` returns. What `map_file` maps is an argument. The checksum
-- instructions are the record `CrcUnit`, with the law that each byte of the data goes through the
-- division by the polynomial. What the clock, the sockets, the processes and the shared memory
-- answer in imp/IPC.cpp are the records `World`, `SpawnWorld` and `ConnectWorld`; a session is
-- named by a number that stands for its address. In FileOps the answers of the operating system
-- are the records `SharedWorld`, `FileWorld` and `RegionWorld`, and the C functions on files are
-- `CStdio`, with the same law, and those of the end of a file and of the bytes that `fread` gives.
-- A transfer of libcurl is the parameter `Curl`, without any law. What `pipe`, `fork`, `read` and
-- `waitpid` answer is `ChildWorld`; what the processor answers about itself is `X64`. The
-- operations of Highway are `IntOps` and `FloatOps`, the latter with the laws of its lanes, and
-- the floating-point numbers of `_test_approx` are `Floats`, with the laws of a NaN. The libraries
-- behind Xml and Json are `Pugi`, `Nlohmann`, `Simdjson` and `Glaze`. zlib and zstd are `Zlib` and
-- `Zstd`; the law of the former is that `inflate`, on data that are whole and not corrupt, fills
-- the room that it is given and tells when that was all.
--
-- Not modelled: the memory orders of the ring's atomics and pushes of several threads at once;
-- spurious wake-ups, `run_task`, and a scheduler that is started again; the calls of a manager
-- that a callback makes while `update` runs; the Windows branches; the clocks and the random
-- numbers of Utils; the parsers behind JSON and XML.
pub mod Base
pub mod StringOps
pub mod RingBuffer
pub mod Stream
pub mod AsyncOps
pub mod DataOps
pub mod FileOps
pub mod Utils
pub mod Xml
pub mod Http
pub mod ProcessOps
pub mod Ipc
pub mod System
pub mod Test
pub mod Platform
pub mod Simd
pub mod Json
pub mod Version
