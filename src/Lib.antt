-- ===== src/Lib.antt =====
-- Verification of the WCLAP bridge, which loads CLAP audio plugins compiled to WebAssembly
-- ("WCLAP"s) and gives them to a native CLAP host.
--
-- A host calls the C API of source/wclap-bridge.cpp, or loads the plugin of
-- plugin/source/wclap-bridge-plugin.cpp, which opens all WCLAPs that are installed and offers
-- their plugins in one factory. The API opens a WCLAP as a module
-- (source/_generic/wclap-module.h and wclap-module-base.h), in a 32-bit and a 64-bit version of
-- the same code. A module owns an instance group, and an instance of it for each thread
-- (source/wclap-instance-wasmtime/), where Wasmtime runs the WebAssembly code, and a factory
-- (source/_generic/wclap-plugin-factory.h) whose plugins (source/_generic/wclap-plugin.h)
-- translate calls, events, streams and extensions both ways.
--
-- The files. `Instance` is source/wclap-instance-wasmtime: `Values` has the conversions of
-- arguments and results and the trampoline of host functions; `Group` has InstanceGroup's
-- errors, globalInit, globalDeinit and wtWasiThreadSpawn; `Paths` has mapPath; `Scan` has
-- InstanceGroup::setup; `Impl` and `Setup` have InstanceImpl::setup, whose early returns are a
-- monad, and startInstance; `Memory` has wasmMemory, getArray and setArray; `Call` has wtCall,
-- call, callAt, wtMalloc, registerHostGeneric, runThread and continueChecker; `Epochs` has the
-- epoch thread; `Init` has initInner and wasiInit. `Bridge` is source/wclap-bridge.cpp, its
-- child `Strings` wclap_set_strings. `Collector` is
-- plugin/source/wclap-bridge-plugin.cpp. `Module` is source/_generic/wclap-module.h and
-- wclap-module-base.h: `Failure` has setError and getError, `Threads` the thread table with
-- wasiThreadSpawn, `Closing` the destructors that wait for the threads, `Register` has
-- registerHost and addHostFunctions, `Opening` the constructors and getFactory, `HostMethods`,
-- `HostCalls` and `PortTypes` the methods of the host that a WCLAP calls, `Routing`
-- source/wclap-module.h. `Plugin` is source/_generic/wclap-plugin.h and wclap-plugin-factory.h:
-- `Streams`, `Events`, `Factory`, `Webview`, `Gui`, `Sessions` with saving and loading,
-- `Process` with pluginProcess, and `Extensions` with hostTemplate_get_extension of
-- wclap-module.h. Child modules hold the proofs. The `Examples` apply each result to concrete
-- data. `Base` has names and lemmas that all parts share.
--
-- State is passed on explicitly: a function of the model takes the members that the C++
-- function reads and returns them as it leaves them, under the source's names in snake_case. A
-- mutex makes what it guards one step. `none`, or a constructor that says so, stands for what
-- C++ leaves undefined or for an abort. Numbers are natural numbers with the wrap-around of
-- their width written out. The only bounded loop is the one over a plugin's features, whose
-- bound of 1000 is the source's. The loop that writes a file to a stream has the file's size as
-- fuel, enough because each turn that goes on takes a byte. The loop that waits for threads
-- runs over a schedule of what they do. The others run over lists.
--
-- Code outside the repository is a parameter: Wasmtime (`Replies`, `Machine`, `Outside`), the
-- file system, the CLAP host, the window of the webview-gui submodule, the CLAP headers with
-- their identifiers and struct sizes, the version order of semver, and the WCLAP itself. The
-- memory arena of the wclap-cpp submodule is an interface with laws in `Plugin.Process`, whose
-- memory holds typed values at the places of arrays, and elsewhere is left out with what
-- allocates in it.
--
-- Not modelled: most methods of the single extensions, which copy structs field by field; the
-- functions of the C API that only forward to a module; logging; destructors that only free;
-- build files and the Rust declarations.
pub mod Base
pub mod Instance
pub mod Bridge
pub mod Collector
pub mod Module
pub mod Plugin
