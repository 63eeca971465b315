-- ===== src/Lib.antt =====
-- A verification of Warabi, a service that stores blobs (regions) for remote clients.
--
-- How the program works. A client holds a target handle and calls it (src/TargetHandle.cpp). A call
-- sends an RPC to a provider (src/ProviderImpl.hpp), with the data in the request when it is small and
-- with a description of exposed memory when it is large. The provider has one target, an
-- implementation of the backend interface (include/warabi/Backend.hpp): regions in memory
-- (src/MemoryBackend.cpp), in a persistent memory pool (src/PmemBackend.cpp), or in a file
-- (src/AbtIOBackend.cpp). A handler opens a region, which takes the target's lock, and moves the data
-- itself or lets a transfer manager do so by RDMA (src/DefaultTransferManager.cpp,
-- src/PipelineTransferManager.cpp). The result goes back through the archive of
-- include/warabi/Result.hpp; a client that does not wait gets a request (src/AsyncRequest.cpp).
--
-- Which file models what.
--   Prelude       shared names, lists over native numbers, machine integers (`wrap` is modulo 2 ^ 64)
--   Run           how a piece of code ends: a value, an exception, undefined behaviour, or waiting
--                 for ever; `Ends` says that it does not wait and what its value has
--   Bytes         memory as a list of bytes; a `load` or `store` out of bounds is undefined
--   Result        include/warabi/Result.hpp; Result/Wire its serialization
--   RegionId      include/warabi/RegionID.hpp, and the encodings of the three backends
--   Segments      the (offset, size) lists of a request and the memcpy loops over them
--   Network       Thallium's transport, a parameter, with what is used of its documentation as laws
--   Json, FileSystem, Remi    what the code uses of nlohmann::json, std::filesystem and REMI: parameters
--   Backend       include/warabi/Backend.hpp as a record of operations on a target's state
--   Factory       src/Backend.cpp and src/TransferManager.cpp: maps from a name to constructors
--   Memory        MemoryTarget; Memory/Region is MemoryRegion; Memory/Threads the calls of several
--                 threads on one target, in any order
--   RwLock        thallium::rwlock; FilePath the names of files that a migration sends
--   Pmem          PmemTarget; Pmem/Region is PmemRegion, Pmem/Migration PmemMigrationHandle. The
--                 mapping and its durable copy are two byte strings; PMDK is the record `Pmemobj`.
--                 Pmem/Setup is create, recover and validate; Pmem/Reversible makes it `Migratable`
--   AbtIo         AbtIOTarget; AbtIo/Region is AbtIORegion. The file is the record `AbtIo`.
--                 AbtIo/Setup is create, recover and validate; AbtIo/Migration the migration handle
--   DefaultTransfer, Pipeline    the two transfer managers; Pipeline/Plan is the loop that cuts a
--                 request into sets of pieces, Pipeline/Threads the order of the threads
--   Provider      the RPC handlers of ProviderImpl; Provider/Idle sequences of requests, and the lock
--                 discipline of a backend; Provider/Idle/Mutex is that of Memory. Provider/Spec is
--                 a service that has no lock, no transport and no ids: a list of regions.
--                 Provider/Setup is the constructor of ProviderImpl
--   Migration     the migration of a target: include/warabi/Migration.hpp as the record `Migratable`;
--                 Migration/Send and Migration/Fileset are migrateTarget, Migration/Receive the
--                 callbacks of the provider that receives
--   TargetHandle  the client's calls; AsyncRequest the requests of asynchronous ones;
--                 AsyncRequest/Lifetime the copies, moves and destruction of a request
--   CClient       src/c/client.cpp, each function with the arguments of the C function
--   BufferWrapper the ownership of a buffer's block
--   Examples      the theorems at concrete inputs, and the laws of the parameters for concrete ones
-- A method becomes a function of the state that it is called on, with the same name in snake case; it
-- returns the new state beside its result. Two overloads that differ in a bulk handle are told apart
-- by `_bulk`. A handle owns a lock until `close`, which is its destructor.
--
-- Bounds and fuel. `size_t` is a number with its wrap-around written out. The only loop on fuel is
-- `split` of Pipeline/Plan, the `while(remaining)` of the pipeline manager; it gets one unit of fuel
-- for each byte and one more, and each round takes at least one byte when buffers have any size. All
-- other recursion is structural.
--
-- Choices. A run that a lock would block is `stuck`: outside Memory/Threads one sequence of
-- requests is modelled, in which nothing else can release the lock. An exception ends the run
-- without a state. Each thread of the pipeline manager runs as a whole, in the order in which they
-- are made; Pipeline/Threads compares the orders. A default constructed region id and a `new
-- char[n]` have the contents that the parameter `Unset` gives. An exception inside migrateTarget
-- is a value (`Attempt`), since the handle of the migration is cancelled on some and not on others
-- before the target's state is seen again. The provider serves a request before the call of the
-- client returns, also when the call is asynchronous: what is modelled of asynchrony is when a failure
-- is seen and who waits, and the description of exposed memory lives until the transfer is over.
-- Memory is unbounded: an allocation does not fail.
--
-- Not modelled: the configuration of the pipeline's buffers, logging, the C functions that make and
-- free objects, and the Bedrock module. Thallium, Margo, PMDK, ABT-IO, REMI, the JSON library with its
-- schemas, and the file system are parameters.
pub mod Prelude
pub mod Run
pub mod Bytes
pub mod Result
pub mod RegionId
pub mod Segments
pub mod Network
pub mod Backend
pub mod Memory
pub mod RwLock
pub mod FilePath
pub mod Json
pub mod FileSystem
pub mod Factory
pub mod Remi
pub mod Migration
pub mod Pmem
pub mod AbtIo
pub mod DefaultTransfer
pub mod Pipeline
pub mod Provider
pub mod AsyncRequest
pub mod TargetHandle
pub mod CClient
pub mod BufferWrapper
pub mod Examples
