-- ===== src/Lib.antt =====
-- Qbox: SystemC TLM-2.0 components of a virtual platform. This library models the components that
-- decide where a transaction goes and who may touch the memory behind it.
--
-- Parts:
--
-- Router: the router, systemc-components/router/include/router.h. Router/Target is target_info
--   (systemc-components/common/include/router_if.h). Router/AddressMap is the class addressMap: add
--   and split_and_resolve, find (search_map) and find_region; its children prove how the map that
--   add builds relates to the plain question who owns an address. Router/Cache is the cache in
--   front of the map, an interface with laws; Cache/Lru, Cache/RegionFifo and
--   Cache/RegionLru are LRUCache, RegionFIFOCache and RegionLRUCache of
--   systemc-components/router/include/addrmap_cache_examples.h. Router/Dmi is the record of the DMI
--   grants (m_dmi_info_map), Router/Transport the transactions.
-- Monitor: the exclusive monitor, systemc-components/exclusive_monitor/include/exclusive-monitor.h,
--   with its two maps of locks and the transactions through it.
-- Addrtr: the address translator, systemc-components/addrtr/include/addrtr.h: its window (map_window,
--   addr_fw, addr_bw, map_txn_addr) and the transactions through it.
-- Uart: the UARTs of systemc-components/uart. Uart/Pl011 is uart-pl011/include/uart-pl011.h, with
--   its receive FIFO as a queue; Uart/Ibex is uart-ibex/include/uart-ibex.h; Uart/Words is how both
--   read and write words at the data pointer.
-- Memory: the memory, systemc-components/gs_memory/include/gs_memory.h. The SubBlocks are a tree
--   (access); Memory/Tree proves it to be a map from addresses to blocks, Memory/Storage is read,
--   write, doreset and the elaboration, Memory/Transport the transactions and the reset, after
--   which the loader writes again.
-- DmiConverter: the DMI converter, systemc-components/dmi_converter/include/dmi_converter.h, with
--   its cache of grants and the loop of b_transport.
-- RegRouter: the register router, systemc-components/reg_router/include/reg_router.h, with its two
--   containers of targets, decode_address, do_callbacks and the transactions.
-- Smmu: the SMMUv3, systemc-components/smmuv3/include/smmuv3.h. Smmu/Plan and Smmu/Walk are
--   smmuv3_ptw64, the checks and the walk through the levels; Smmu/Access is dma_read and dma_write
--   with the DMI regions, which fill the interface of the walk; Smmu/Tables is find_ste; Smmu/Tlb is
--   the IOTLB (iotlb_insert, iotlb_lookup, iotlb_inv_*); Smmu/Request and Smmu/Translate are
--   smmuv3_translate, and Smmu/Tbu is the class smmuv3_tbu.
-- Tlm: the data of TLM-2.0 that the components share.
-- Base: 64-bit words (Base/Word), std::map as a list of entries in order (Base/OrdMap), and
--   ranges in order without overlap (Base/Intervals), on which the map, the record of grants and
--   the locks stand.
--
-- How they interact: a transaction enters the router, which finds its target in the address map,
-- stamps the path with the number of the initiator's socket and passes it on; the monitor behind it
-- reads that path to tell initiators apart. A DMI request goes the same way, and what the target
-- grants is cut down by each component on the way back. Calls back to the initiators
-- (invalidate_direct_mem_ptr) are values that an operation returns.
--
-- Conventions: a failed assertion, or an error that the code reports, is none; where fuel could run
-- out too, or the end of the simulation must be told apart, the result is an Outcome
-- (Base/Outcomes). The counters and sums of 64-bit words wrap as they do in the code. Some parts
-- run on fuel. The loop of handle_regular_store has one more than the number of locks, since each
-- round erases one. The access to the memory's tree has 33 levels, enough for a length of 64 bits,
-- and the loops of its read and write have the number of bytes, of which each turn takes one at
-- least. The walk of the SMMU has 4 descriptors, one for each level, and 2 calls, since stage 1
-- calls stage 2. The wait at a stalled fault has the fuel of the caller. The DMI converter takes its fuel from the caller, and twice the number of bytes is enough
-- where the target lends regions. A shared_ptr to a target is the target with a number that stands
-- for its identity.
--
-- Not modelled: SystemC itself (time, processes, sockets), logging, the reading of CCI parameters,
-- the mutexes around the caches and the lazy initialisation. What stands behind a component is a
-- parameter, and so are the memory's calls of the host and the writes that its loader makes. The
-- dim_strides of a target are taken not to be 0, where the code divides by zero. Of the SMMU,
-- read_cd, the queues, the registers and the interrupts are parameters or left out. The SMMU-500,
-- the bidirectional router, the loader and the bindings of QEMU and Lua are not part of the
-- library.

pub mod Addrtr
pub mod Base
pub mod DmiConverter
pub mod Memory
pub mod Monitor
pub mod RegRouter
pub mod Router
pub mod Smmu
pub mod Tlm
pub mod Uart
