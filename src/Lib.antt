-- ===== src/Lib.antt =====
-- A model of the Arcology state engine: how a transaction sees the state while it runs, and how the
-- transitions of a block reach the execution storage.
--
-- The parts and their files:
-- common/constants.go, path_types.go: `Paths`. A path is the list of its bytes; `get_parent_path`,
--   `get_segment_at`, `parse_account_addr` and `should_persist_to_eth` are GetParentPath,
--   GetSegmentAt, ParseAccountAddr and ShouldPersistToEth.
-- common/platform.go: `Platform`, the table of the built-in paths and the tests on them.
-- common/path_builder.go, utils.go: `Builder`, with the hexadecimal decoder of Go written out;
--   `Builder.Defaults` is CreateDefaultPaths.
-- state/cache: `ExecStore`, the local view of the state. `Read`, `Write`, `PathOps`, `Indexes`,
--   `Backend`, `Insert`, `Export`, `Service` and `Writer` hold the operations of execution_state_store.go,
--   state_cache_path.go, state_cache_wildcard.go, state_cache_filter.go, execution_store_indexer.go
--   and execution_store_writer.go; `Lookups`, `Resolve`, `Reads`, `Writes`, `Sizes` and `Filters` the
--   theorems. `Reachable` has the operations as the steps of a state machine, and `Keyed`,
--   `KeyedWrites`, `Elements` and `Calls` show for each of them that it keeps the invariant. `view`
--   is what a read of a path is to find. An operation returns the new store, and `none` where the
--   code panics.
-- state/committer/delta_sequence.go: `Delta`, with the insertion sort that SliceStable runs on up
--   to 20 elements.
-- state/committer/committer.go, indexer.go: `Committer`, with the indexer of common-lib and the
--   writers as parameters. A writer is a pointer, which stands in the list of all writers and in that
--   of the synchronous or of the asynchronous ones. `Committer.Merged` is about the groups of one path, and
--   `Committer.Stored` sets the writer of the live storage behind the committer.
-- storage/execstorage/livebackend and livecache: `LiveStorage` and `LiveCache`, the indexers and
--   writers. Transitions are pointers (`Ref`) into a heap of cells, since their paths are withdrawn
--   through other pointers between the import and the commit. `LiveStorage.Block` runs the writer over
--   blocks of generations, and `LiveCache.Coherent` both writers side by side.
-- storage/ethstorage: `EthStorage`. `Backend` is EthShardTrieDB; `Account` is eth_account.go, with
--   UpdateAccountStorageTrie in `Account.Update` and the theorems on it in `Account.Written`; `World`
--   is EthWorldState, with persistToEthStore in `World.Persist`; `Writer` is EthIndexer and
--   EthStorageWriter, and `Writer.Found` joins them to the reads of the world state. Accounts are
--   pointers, which the cache, the indexers and the callers share. The trie, the databases, the
--   hash and the RLP encoding of accounts are the record `EthLib`.
-- storage/codec: `Codec`, with the codecs of the types in `Codec` and `Codec.Values`, RlpCodec in
--   `Codec.Dispatch`, and arcocodec and StorageCodec in `Codec.Arco`.
-- storage/ethstorage/ethtrie_*.go and op: `Proofs`, the proofs of accounts, the cache of proof
--   providers and the verifier of op; `Soundness`, `Validated` and `CacheBound` have the theorems.
-- storage/proxy/state_proxy.go: `Proxy`, the filters, the writers and the codecs.
-- storage/proxy/remote/server.go: `Remote`, the server that hands out values of a read-only store.
-- `Libs`: what is taken of common-lib. Cells, stores, caches and slices are parameters, their
--   documented behaviour is stated as records of laws, and a plain instance shows that the laws can
--   hold. `ExecLib` of `ExecStore` is such a record for the local view.
-- `Prelude`: lists, strings, maps and integers over the native numbers; `Tests`: the theorems at
--   concrete inputs.
--
-- The parts interact so: a transaction reads and writes the local view, whose cells are exported as
-- transitions; `Committer` imports them, also into the writers, withdraws those of transactions that
-- are not on the whitelist, and merges those of one path by `Delta`; the writers take the survivors
-- in the two phases of Precommit and write them at Commit.
--
-- The writer of the Ethereum storage groups the survivors by account, updates the storage tries and
-- the world trie at Precommit, and commits the tries at Commit.
--
-- The loop of persistToEthStore that drops old roots runs on fuel, one more than the number of roots,
-- which is enough since each turn drops one. Every other loop is over a list. Sizes in bytes
-- and numbers of transactions are not bounded here; the codecs keep the wrap-around of 64 and 256
-- bits.
--
-- `RemoveIf` and `MoveIf` of common-lib change a slice in place. Where the code goes on with another
-- header of the same array, the model asks the library what the array then holds (`SliceLib`), of
-- which it knows only that a `RemoveIf` that removes nothing changes nothing.
--
-- Not modelled: the trie and its proofs themselves, which are go-ethereum's; the parallel runs of
-- loops, which here go through their lists in order; the lock of the world trie, whose `ThreadSafeGet`
-- is the same read as its `Get` here; the constructors of the proxies and the
-- network client, which is commented out (storage/proxy); GetFromTrie; the memory
-- pool, printing and checksums.
pub mod Prelude
pub mod Proofs
pub mod Proxy
pub mod Remote
pub mod Paths
pub mod Platform
pub mod Builder
pub mod Libs
pub mod LiveStorage
pub mod LiveCache
pub mod Delta
pub mod Committer
pub mod Codec
pub mod EthStorage
pub mod ExecStore
pub mod Tests
