-- ===== src/Lib.antt =====
-- A verification library for duplicacy, a backup program that splits files into chunks, keeps each
-- chunk once in a storage under the hash of its content, and shares the storage between computers
-- without locks.
--
-- A snapshot lists entries, one for each file, directory or link. A backup collects the entries in
-- an entry list, in memory or on disk, while the chunks of the modified files are uploaded; the
-- places of these files are filled in when the list is read out. Prune flags snapshots, finds the
-- chunks that no other snapshot references, and makes them fossils; a later run removes the fossils
-- once it is sure that no backup that was running at the time may need them.
--
-- The files:
--   Prelude       shared names, Boolean tests, lists and tables over the native numbers, signed
--                 integers, Go's 64-bit integers that wrap around, and strings as bytes
--   Entry         src/duplicacy_entry.go, the record of an entry
--   Entry/Order   ComparePaths; Order/Key describes it by a sort key, Order/Total has its laws
--   Entry/Check   check, and what checkEntry of the entry list shares with it
--   Entry/Codec   EncodeMsgpack and DecodeMsgpack
--   EntryList     src/duplicacy_entrylist.go, the record, and AddUploadedChunk and its kin
--   EntryList/Fill        fillAndSendEntry
--   EntryList/Disk        AddEntry, createOnDiskFile and ReadEntries, in memory and on disk
--   EntryList/Incomplete  SaveIncompleteSnapshot, loadIncompleteSnapshot, CheckChunks
--   Backup        src/duplicacy_backupmanager.go, the tables of chunks; Backup/Ranges has what an entry
--                 names in a table
--   Backup/Preserve   the chunks of a file that has not changed
--   Backup/Merge      the loop of Backup over the local listing and the one of the last snapshot
--   Backup/Metadata   the entries as UploadSnapshot writes them, and ListRemoteFiles of
--                     src/duplicacy_snapshot.go reads them
--   Backup/Upload     the files to be uploaded, one after the other through the chunk maker, and
--                     uploadChunkFunc with the cache of chunks
--   ChunkMaker    src/duplicacy_chunkmaker.go, the record, the rolling hash and the parts of AddData;
--                 ChunkMaker/Window and ChunkMaker/Store have what the circular buffer holds
--   ChunkMaker/Create     CreateFileChunkMaker and CreateMetaDataChunkMaker
--   ChunkMaker/AddData    a round of AddData after the reads, and AddData without a reader
--   ChunkMaker/Reader     AddData with a reader, where the minimum and the maximum size differ
--   ChunkMaker/Fixed      AddData for chunks of one size, and as a whole
--   Prune         src/duplicacy_snapshotmanager.go, snapshots and the tasks of a prune
--   Prune/Expand        expandSnapshots, sequenceKey and GetSnapshotChunks
--   Prune/Retention     the selection of snapshots in PruneSnapshots
--   Prune/Unreferenced  pruneSnapshotsNonExhaustive
--   Prune/Exhaustive    pruneSnapshotsExhaustive
--   Prune/Collection    FossilCollection and IsDeletable
--   Prune/Collections   how PruneSnapshots handles the collections of earlier runs
--   Prune/Operator      Run of src/duplicacy_chunkoperator.go on the tasks of a prune, with
--                       FindChunk of src/duplicacy_storage.go
--   Samples       concrete data, and the theorems at these data
--
-- Each Go function is a function by clauses under its name in snake case; a handler's parts that
-- have a name of their own stand beside it. Errors are values: `none`, or a type with one
-- constructor for each message; an index out of range is a value of its own. A method that changes
-- its receiver returns the new record. A Go map is a list of pairs with distinct keys in the order
-- in which it is walked, and theorems hold for each order; int and int64 are integers of 64 bits,
-- with the wrap-around written out where the code adds. Loops are structural recursion; the loop
-- over chunk indices counts down the rounds that its bounds give, and the digits of a number n take
-- n + 1 rounds, which is more than it has digits. The loops of AddData take fuel, of which the bytes
-- of the file and the buffer and a few more are enough, since each round takes a byte.
--
-- Parameters stand for what is not in the repository: the msgpack library (packing can be undone),
-- SHA-256, the random token, the readers of files (a read without an error makes progress), the
-- local time zone behind getDaysBetween, and the download of a sequence of chunks. File operations
-- are taken to succeed, but for the move of a file that is missing or goes to a directory that is
-- missing, and the reads of a file that is backed up; a read that fails is one of a cloud file,
-- since another one ends the program. Sizes and places in the chunk maker are natural numbers, and
-- an error of its creation is `none`; its loop over the powers of two is the one of the source for
-- an average below 2^62. Ids of chunks have two bytes for each level of nesting and the paths of
-- fossils start with chunks/: for others the source slices out of range, where the model takes what
-- there is. ListRemoteFiles starts from the entries that UploadSnapshot wrote, and their bytes are
-- those of Entry/Codec.
--
-- Not modelled: the other storages, the encryption and compression of chunks, the JSON forms, the
-- one chunk that makers share which only hash, the chunk operator's threads, and all output.
pub mod Prelude
pub mod Entry
pub mod EntryList
pub mod Backup
pub mod ChunkMaker
pub mod Prune
mod Samples
