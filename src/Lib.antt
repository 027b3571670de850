-- ===== src/Lib.antt =====
-- UE4SS Lua Event Bridge: a mod for UE4SS that lets Lua scripts of an Unreal game observe Enhanced
-- Input actions and object lifetimes.
--
-- The program and its parts. A small loader DLL (bootstrap/) finds implementation DLLs, orders them by
-- version and starts the first one that works. The implementation (bridge/) keeps a session for each
-- Lua mod. Its Enhanced Input backend puts its own binding objects into the arrays of Unreal's input
-- components; Unreal calls them, on the game thread, and they queue an event under a mutex. The update
-- thread of UE4SS takes the queued events as a batch, and hands them to Lua in passes that a budget
-- limits. A registry tells each session which of the objects it observes were lost.
--
-- Which file models what:
--   Registry   bridge/include/LifecycleRegistry.hpp, every method of LifecycleRegistry
--   Alias      bridge/include/SessionAliasIndex.hpp
--   Queue      bridge/include/QueueCapacity.hpp (Queue/Capacity) and QueueBuffers.hpp (Queue/Buffers)
--   Dispatch   bridge/include/DispatchBacklog.hpp (Dispatch/Backlog), DispatchBudget.hpp
--              (Dispatch/Budget, Dispatch/Limits) and QueueDispatchSchedule.hpp (Dispatch/Schedule)
--   Probe      bridge/include/LifetimeProbe.hpp
--   Backend    bridge/include/EnhancedInputBackend.hpp and bridge/src/EnhancedInputBackend.cpp: the data
--              in Backend/State; FWeakObjectPtr of UE4SSABI.hpp, validate_component and the resolvers in
--              Backend/Engine; write_debug_trace in Backend/Trace; the fault functions in
--              Backend/Faults; NativeBinding::Execute in Backend/Execute; attach, detach and Clone in
--              Backend/Native; unsubscribing, deactivating and collecting in Backend/Unsubscribe;
--              open_target and close_target in Backend/Target; subscribe in Backend/Subscribe; the
--              consumer's calls and shutdown in Backend/Drain; inspect_target, with
--              bridge/include/BindingSnapshot.hpp, in Backend/Inspect
--   Loader     bootstrap/include/CandidateDiscovery.hpp (Loader/Version, Loader/Candidate), the parser
--              of bootstrap/include/LoaderConfig.hpp (Loader/Config), and of bootstrap/src/Bootstrap.cpp
--              load_config, read_metadata and discover (Loader/Discovery), start_mod and uninstall_mod
--              (Loader/Bootstrap)
--   Bridge     bridge/src/BridgeMod.cpp: decoding of arguments (Bridge/Decode), the loop-start callbacks
--              of the sessions (Bridge/LoopStart), the lifetime service with its Lua functions
--              (Bridge/Lifetime), the state of the mod and the guards of its functions (Bridge/State),
--              the functions on targets and bindings (Bridge/Handlers), all calls that Lua can make
--              (Bridge/Calls), on_lua_start and on_lua_stop (Bridge/Session), the deliveries to Lua
--              (Bridge/Deliver), on_update (Bridge/Update), and the start and the uninstallation of the
--              implementation (Bridge/Service). Bridge/Pipeline joins the producer of
--              Backend/Execute, the exchange of buffers and the backlog.
--   Base       what these share: Boolean tests, lists over native numbers, maps, decimal numerals with
--              std::to_string and std::from_chars
-- The functions keep the names of the code. State is passed explicitly. A call that holds a mutex from
-- its first read to its last write is one step; Execute and open_target read and lock apart, and what
-- other threads do in between is their argument `between`. What the code shares by std::shared_ptr
-- stands in a store under a number (Backend/State).
--
-- Numbers, bounds and fuel. A number is a native natural number; counters of 64 and 32 bits keep their
-- wrap-around, and an int32_t or int64_t is its pattern. The loop of a dispatch pass runs on fuel, the
-- size of the backlog, which is one round for each pending item and so enough. The printer of decimals
-- has fuel 20, the digits of a number of 64 bits. The loop of the configuration's parser runs on one
-- more turn than the text has characters, and each turn takes a character at least. The loop of
-- flush_delivery_faults runs on fuel that its caller chooses: it ends after the faults that are there,
-- unless the Lua handlers make further ones due. All other loops are by structure.
--
-- What is outside. Unreal's objects, allocator and binding arrays stand in the record Engine, Windows
-- and the implementations in the record Windows, the file system in Installation and DirectoryEntry,
-- the integers that Lua passes in the record Args, and the reads of memory in the records Memory and
-- TargetMemory. Lua code is a function to the list of calls that it makes and to how it ends, and so
-- can do all that the registered functions allow, and no more.
--
-- What is not modelled: the logs, pin_current_module, get_version and is_in_game_thread of
-- BridgeMod.cpp, which change no state of the mod, the lookup of the loader's own path, and the parts
-- of EnhancedInputABI.hpp and UE4SSABI.hpp that declare the layouts of Unreal and UE4SS. The Lua
-- module, the tools, the build files and the tests are not C++ of the program. Handlers of a failed
-- allocation are left out, except that of Execute, which is a function of its own, and the roll-back
-- of on_lua_start.
pub mod Base
pub mod Registry
pub mod Queue
pub mod Dispatch
pub mod Probe
pub mod Alias
pub mod Backend
pub mod Loader
pub mod Bridge
