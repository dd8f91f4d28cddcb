-- ===== src/Lib.antt =====
-- ALTO: peers, PIDs and distances of the client library (common/cpp), and the PIDs, costs and routes
-- that the server (common-server) keeps.
--
-- An ISP publishes which PID each IP prefix belongs to and how far PIDs are apart. The library
-- loads both from a portal server or a file, keeps the peers of an application by PID, and draws
-- peers for a client. The server keeps the PIDs of a network with the vertices and links that they
-- stand for, the costs between PIDs, and the routes. The parts and the files that model them:
--
-- - RandomAccessSet: common/cpp/src/include/p4p/detail/random_access_set.h, a vector of distinct
--   elements with a map from each to its index. Index has the invariant and swap, Contents has
--   find, push_back and pop_back, Erase has erase.
-- - MaxHeapWithDelete: common/cpp/src/include/p4p/detail/heap_with_delete.h, a heap over that set.
--   Order has the heap order, Up and Down the percolations, Insert and Remove the operations.
-- - SwarmState: common/cpp/src/lib/swarm_state.cpp, the statistics of a swarm by PID. Access has
--   getters and setters, Update has update.
-- - Pid and PidMatrixGeneric: common/cpp/src/include/p4p/pid.h and detail/pid_matrix_generic.h, a
--   PID with its order, and values for pairs of PIDs.
-- - DataSource, IspPidMap and IspPDistanceMap: common/cpp/src/lib/isp_pidmap.cpp and
--   isp_pdistancemap.cpp, what is loaded and from where. DataSource.Outcomes has the
--   answers and failures of the sources, IspPidMap.Contents what the trie holds, Loads the loading,
--   Lookups the indexes, IspPDistanceMap.Distances the distances.
-- - PerIspPeerDistribution: common/cpp/src/lib/perisp_peer_distribution.cpp, the peers of one ISP in
--   one RandomAccessSet for each PID, with a SwarmState. Placement has the invariant, Members adding,
--   Removal removing, Queries listing and drawing, Refresh the refilling from the manager.
-- - PeerDistributionManager: common/cpp/src/lib/peer_distribution_manager.cpp, one such view for each
--   ISP, and the home of each peer. Home has the choice of the home, Views adding and removing,
--   Updates the refreshing of a view.
-- - IpPrefix: common/cpp/src/lib/ip_addr.cpp and include/p4p/ip_addr.h, a prefix in its normal form.
--   Order has the comparisons, Bits the masking, Bytes whole buffers, Network the constructor from
--   bytes.
-- - PidPeerSelectionHelper: common/cpp/src/lib/pid_peer_selection_helper.cpp, the drawing of peers of
--   a view, none twice. Fresh and Draws have the loop that draws again, Entry the state of a PID,
--   Copying the strategy that copies the candidates, Selections both strategies from the constructor
--   on, Groups the overload for several PIDs.
-- - ClientPeerSelectionLocation: common/cpp/src/lib/client_peer_selection_location.cpp, the choice of
--   peers by their PIDs. Groups has the grouping, Taking one loop of the choice, Choice the whole.
-- - UpdateManager: common/cpp/src/lib/update_manager.cpp, the queue of update tasks, which is a
--   MaxHeapWithDelete. Keys has the comparators, Queue the times of the keys, Calls the calls of the
--   heap, Enqueue enqueueTask, Steps a turn of run, Planned what a task leaves planned, Schedule the
--   turns of run among calls of other threads.
-- - PidMatrix: common-server/src/include/p4pserver/pid_matrix.h, costs between PIDs that come and go.
--   Pid.Sets and Pid.SetLaws have std::set of PIDs, Positions the index of the PIDs, Copying the loops
--   of set_pids, Entries and Updates what get_by_pid answers, Members and Unions adding and removing,
--   Reachable the invariant.
-- - NetState: common-server/src/lib/net_state.cpp, a directed graph whose vertices have names. Names has
--   the map of names, Edges the edges, Reachable and Removal the invariant and the operations on
--   vertices, Aggregating aggregate_node, Merging its copied edges, Removing and Whole the rest of it.
-- - PidAggregation: common-server/src/lib/pid_aggregation.cpp, PIDs with a name and the vertices that
--   they gather, and named links. Names has the names, Records the PIDs, Vertices and Links what they
--   say, Reachable the invariant.
-- - PidRouting: common-server/src/lib/pid_routing.cpp, routes that are configured or computed from a
--   PidMatrix of weights. Nodes has the multimaps, Routes and Changes the routes, Restoring adding and
--   removing, Modes the mode, Pointers the entries from PIDs to routes, Reachable and Removal the
--   invariant and remove_pid, Computing get_routes, Traces the way back, Pinning the static
--   routes by elements of the set, Results what get_routes answers.
-- - SharedMutex: common/cpp/src/lib/mutex.cpp, the lock for Windows threads, which guards the classes
--   above. Totals counts the threads by where they stand, Exclusion has the counters' invariant.
--
-- The modules named Tests run the definitions on small inputs. Prelude holds what all share: tests
-- and lists over native numbers, signed integers, C integers (Words), outcomes (Run), comparators
-- (Order), maps (Dict) and containers with an
-- index (Keyed). A std::map is an association list under the equivalence of its
-- comparator. An access out of bounds is the outcome fault. A method's state goes in and comes out
-- explicitly; each method holds its lock throughout, so that calls do not interleave. SharedMutex is
-- the exception: there a step is one critical section or one wait of one thread, and a schedule is a
-- list of such steps. The exception of the update manager is an outcome of its own, and one turn of its
-- loop is given the clock and the answers of the ISPs as a Moment.
--
-- Bounds: an int is a signed integer and an unsigned int a number below 2^32, with the wrap of
-- each conversion written out, and an overflow of the int sum over several PIDs is a fault;
-- theorems that need it bound a count by 2^31. The percolations run on fuel, up from index i on
-- i + 1 and down on one more than the heap's size; the theorems on push, pop and erase give a
-- result, so the fuel is enough. The loop that draws a peer again runs on the list of the values
-- of rand() that it sees, and a theorem tells which lists end it. The loop of get_routes_weights
-- that goes back to the source runs on fuel, and its theorem asks that the predecessors lead
-- there within it. The lock's theorems are for fewer than 65536 threads, which is what the low
-- half of its counter holds.
--
-- Parameters, not models: the Patricia trie (a copy of the MRT one), the portal protocol, files, the
-- clock, rand(), the ISP that a view asks for its PIDs, floating point, and in PidRouting the network with its
-- shortest paths. A NaN of the server is the value none; a multimap keeps the nodes of one key in the
-- order of insertion; an iterator is a number that no later node gets again. Not modelled: prefixes
-- from and to text, the choice of peers by guidance, the copying of a PIDRouting, the rest of the
-- server, reading and writing of streams, printing, parsing, REST and JSON. The theorem on the
-- schedule does not cover removeSelectionManager.
pub mod Prelude
pub mod RandomAccessSet
pub mod MaxHeapWithDelete
pub mod SwarmState
pub mod UpdateManager
pub mod ClientPeerSelectionLocation
pub mod PidPeerSelectionHelper
pub mod SharedMutex
pub mod Pid
pub mod PidAggregation
pub mod PidMatrix
pub mod PidMatrixGeneric
pub mod PidRouting
pub mod NetState
pub mod DataSource
pub mod IpPrefix
pub mod IspPidMap
pub mod IspPDistanceMap
pub mod PerIspPeerDistribution
pub mod PeerDistributionManager
