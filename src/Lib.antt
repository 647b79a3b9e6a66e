-- ===== src/Lib.antt =====
-- Forebay lends the idle storage of compute nodes and takes it back when the node needs it. This
-- library models the parts of it that keep the books, and proves what they promise.
--
-- The parts, and the files that model them:
--
-- Prelude.antt and its modules: names of the standard library passed on, Boolean tests on
-- numbers, lists over native numbers, integers (Prelude/Int), int64 with its wrap-around
-- (Prelude/Int64) and byte strings (Prelude/Text).
--
-- Pool.antt, internal/pool/pool.go: the accounting of one device. `free`, `validate`, `can_lend`,
-- `lend`, `give_back` and `reclaimable` are Free, Validate, CanLend, Lend, Return and
-- Reclaimable. Sizes are int64 and every addition and subtraction of the source wraps here too.
--
-- Lease.antt, internal/lease/lease.go: the leases of one node. Lease/Types has the data,
-- Lease/Table the map from identifiers to leases, Lease/Order the reclaim order, Lease/Churn the
-- history of reclaims and the cooldown, Lease/Manager the methods of Manager and Lease/Restore
-- the replay of the journal. Each exported method of the source holds the mutex from start to
-- end, so a method is one function from a manager to the next one and the results. The manager
-- calls the accounting of Pool.antt for every loan, and a journal for every change: a record of
-- `save` and `load` over a disk of any type, which any theorem about the manager takes as it
-- comes.
--
-- Lease/Journal.antt, internal/lease/journal.go: the file journal, which is one such record. The
-- JSON encoder and the text form of a duration belong to the Go library, so they are a
-- parameter, `Codec`, and Lease/Journal/Json says what of their documentation is used. A disk is
-- the journal file, the temporary files that were not removed, whether reading the journal
-- fails, and for each save to come which of its steps fail and what a failed write, flush or
-- close leaves in the temporary file; a save past the end of that list has no fault.
--
-- Tier.antt, internal/fasttier: the cache of immutable blocks on the capacity that leases lend.
-- Tier/Types has the data of block.go, cache.go and slab.go, Tier/Admission the record of first
-- reads, Tier/Slab the extent divided into slots and Tier/Cache the methods of Cache. A slab is
-- a heap object that placements point to, so it has a number and stands in a heap; revoking a
-- lease changes the slab on the heap, which a reader that still points to it then sees. Read
-- lets go of the mutex while it reads, so it is `begin_read`, `fetch` on whatever the heap then
-- is, and `finish_read`; `read` is the three in a row. Tier/Readers has a cache with any number
-- of calls of Read under way and the steps of all callers in any order; Tier/Safety and its
-- modules have the invariant of these steps. Failures of the device are arguments. The clock and
-- the generation of the cache wrap at 2^64 as in the source.
--
-- Wire.antt, internal/protowire/protowire.go: the protocol buffer fields of the storage
-- interface. `append_varint`, `append_string`, `append_message`, `append_string_map`, `next` and
-- `string_map` are the functions of those names. The loop of `appendUvarint` has fuel for ten
-- bytes, which hold any 64-bit value, and the loop of `StringMap` the length of the entry.
--
-- Intent.antt, internal/intent: what a user declares, the floor that an administrator sets and
-- the resolution against a backend, which is the test for the capabilities that it supports.
--
-- Residence.antt, internal/residence: the regions that a dataset version may be in. White space
-- is that of Unicode, read from UTF-8. Residence/Blank has it as code points too.
--
-- Checkpoint.antt, internal/checkpoint/checkpoint.go: the acknowledgements and the test of a
-- reservation, which is asked of what `guaranteed_free` of Lease/Manager answers.
--
-- Agent.antt, internal/agent: the borrowed pool of a node. Agent/Names has which identifiers can
-- be names of files, Agent/Files the pool as its files in order with the answers of the
-- operating system, Agent/Extent the methods Grant, Release and ReclaimCapacity over the lease
-- manager, Agent/Reconcile the method reconcile, Agent/Layout Config.Validate, Agent/Residual
-- the scan of a fresh extent, Agent/Pressure one pass of the watch with its heartbeat,
-- Agent/Open the function Open, and Agent/Run sequences of calls. Whether a call of the system
-- fails is an input for each name, `Os`, so a theorem that takes any `Os` covers every failure.
-- The loop of `scanZeros` has fuel for one turn more than the extent has bytes. The
-- floating-point rate of the watch is a parameter, `Rates`.
--
-- Prefetch.antt, internal/prefetch: the detector that predicts what a reader asks for next.
-- `observe`, `score`, `track` and `record_read` are Observe, score, track and record; the
-- comparison of a floating-point share is a parameter in the configuration. The next blocks are
-- one stride after the other, which is the multiple of the source modulo 2^64.
--
-- Lineage.antt, internal/lineage: the graph of what produced what. `add`, `link`,
-- `ancestor_edges` and `ancestry` are Add, Link, ancestorEdges and Ancestry; the traversal has
-- as much fuel as the graph has nodes, since each is pushed once.
--
-- Driver.antt, driver/driver.go and driver/backend.go: what a driver of durable storage declares
-- and the backend that holds it to that. A driver is a record of methods over a world of any
-- type, so a theorem about the backend takes any driver.
--
-- Dataserver.antt, internal/dataserver/dataserver.go and ahead.go: the read path, which joins
-- the parts. Dataserver/Types has its data. `read_range`, `block_at`, `tail_by_size`, `predict`
-- and `fetch_one` are ReadRange, blockAt, tailBySize, predict and fetchOne. It asks the detector
-- of Prefetch.antt, a backend of Driver.antt and a tier, which is the record `Tier` of
-- Tier/Contract: the theorems take any tier that fills `Serves`, and Tier/Contract/Sequential
-- fills it with the cache of Tier/Cache under one caller. The loop over blocks has three turns
-- of fuel more than the length holds blocks, since a range of that length touches at most two
-- blocks more and the end takes a turn. Dataserver/Ahead has sequences of reads and of turns of
-- the worker that fetches predictions. Dataserver/Protocol, protocol.go: the frames of requests,
-- listings and replies. The loop over the records of a listing has the length of the bytes as
-- fuel, since each record takes at least one.
--
-- Dataset.antt, internal/dataset: the references that a user names, the addresses of their bytes
-- and the two views. `parse_object_key` and `parse_file_path` are ParseObjectKey and
-- ParseFilePath; `clean` and `path_join` are what they use of Go's path package.
--
-- How the code is read: a map keyed by identifiers is an association list that holds each key
-- once; where the source sorts a map's values the sort is written as an insertion sort of the
-- same total order. Times and durations are integers; the saturation that the source applies
-- where a time would overflow is written where the source has it. The product of the capacity
-- with the floating-point guaranteed share is a function in the configuration. The text of a
-- wrapped error is not kept, its kind is. Class values are integers, so a class that is none of
-- the three is a value too. The loops of the source run over lists, so all functions are
-- structural but the loops of Wire.antt, Agent/Residual, Lineage.antt and Dataserver.antt named
-- above and `decimal_from`, the digits of a number, whose fuel starts above the number and loses
-- one per digit.
--
-- Not modelled: the connections of the network services, the clients of the cluster's
-- interfaces, the drivers for files and S3, the scoreboard and the other measurements, and the
-- commands, which wire these together.
pub mod Prelude
pub mod Pool
pub mod Lease
pub mod Wire
pub mod Tier
pub mod Intent
pub mod Residence
pub mod Checkpoint
pub mod Agent
pub mod Prefetch
pub mod Lineage
pub mod Driver
pub mod Dataserver
pub mod Dataset
