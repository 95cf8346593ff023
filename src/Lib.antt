-- ===== src/Lib.antt =====
-- MediaGit: the core of the version control, `crates/mediagit-versioning`, and the tree of a new
-- commit, from `crates/mediagit-cli`.
--
-- The program stores objects (file contents, trees, commits) under the SHA-256 of their content.
-- Deltas and packs keep them small. A commit is made from the staging area and the tree of its
-- parent. A merge looks for the best common ancestor of two commits, compares the three trees
-- path by path, and builds the merged tree or reports the conflicts. Branches, tags and HEAD are
-- files that name commits or other references; a revision is resolved through them and the
-- commit graph, and a checkout turns the working directory of one commit into that of another.
--
-- The files, and the code that they model:
--   Prelude         library names, tests on numbers, lemmas on lists and options
--   Result          `Result` with `?`, early returns, slicing, and panics as values
--   Bytes           little-endian fields, equality and membership of byte strings
--   BTreeMap        `BTreeMap` as an association list in the order of its keys, over `Ord`
--   Object          crates/mediagit-versioning/src/object.rs and oid.rs
--   Delta           crates/mediagit-versioning/src/delta.rs: `Delta`, `DeltaEncoder`,
--                   `DeltaDecoder`; the variable-length integers are in Delta/Varint
--   Pack            crates/mediagit-versioning/src/pack.rs: the header; the index in Pack/Index,
--                   `PackWriter` in Pack/Writer, `PackReader` in Pack/Reader. Pack/RoundTrip
--                   composes a writer, `finalize`, `PackReader::new` and a read;
--                   Pack/Selection has `should_pack_object` and `smart_add_object`
--   Tree            crates/mediagit-versioning/src/tree.rs: `FileMode`, `TreeEntry`, `Tree`
--   Conflict        crates/mediagit-versioning/src/conflict.rs: `detect_conflicts`,
--                   `can_auto_merge`, `conflict_stats`
--   Merge           crates/mediagit-versioning/src/merge.rs: the merged trees of the three
--                   strategies and `three_way_merge`; Merge/Engine has `merge` on commits
--   Lca             crates/mediagit-versioning/src/lca.rs: searches in the commit graph
--   Index           crates/mediagit-versioning/src/index.rs: the staging area. Index/Snapshot is
--                   the tree of a commit, crates/mediagit-cli/src/commands/commit.rs
--   Diff            crates/mediagit-versioning/src/diff.rs: `diff_trees`, `are_trees_equal`
--   Streaming       crates/mediagit-versioning/src/streaming_pack.rs and streaming_index.rs: packs
--                   written and read one object at a time, which share the format of Pack
--   Refs            crates/mediagit-versioning/src/refs.rs: references and their text; their
--                   database in Refs/Database, over the calls on files of Refs/Disk and the
--                   texts of Refs/Hex (oid.rs). Refs/Memory has an instance of both
--   Branch          crates/mediagit-versioning/src/branch.rs: `BranchManager` over Refs
--   Revision        crates/mediagit-versioning/src/revision.rs: `resolve_revision`
--   Transaction     crates/mediagit-versioning/src/transaction.rs: `PackTransaction`, over the files
--                   of Refs/Disk and the storage of Transaction/Storage
--   Checkout        crates/mediagit-versioning/src/checkout.rs: `checkout_diff`, over the calls on
--                   files of Checkout/Disk, with an instance in Checkout/Memory; Checkout/Cleaning
--                   and Checkout/Ends are about the removal of empty directories
--
-- Functions keep the names of the source; where two impl blocks share a name, the type's name
-- stands before it, as in `header_to_bytes`. State that a method changes is passed in and returned.
-- The module `mediagit_core.Index` is the staging area, and `mediagit_core.Pack.Index` that of a pack.
--
-- Parameters, for code that is not in the repository or only moves bytes: the functions of the
-- `zstd` crate (the record `Zstd`, with what its documentation promises), `sha256`, of which only
-- the length of a checksum is used, `read` for `Commit::read`, `read_tree` for `Tree::read`, `write`
-- for `Tree::write`, `text` for `to_string_lossy`, `extension_of` for the extension of a file name,
-- `parse_usize` for reading a number, `abbreviated` for abbreviated identifiers, the order of
-- paths, and `order` for that of a `HashMap`. The disk is a state with the calls that the code
-- makes, and laws on what a call that succeeds does (the records `FileSystem` and `WorkTree`; a
-- call on one path is known to leave the others only in a working directory without links);
-- `Texts` has the `hex` crate, `trim` and the test for UTF-8. The streams of a streaming pack are
-- what was written to them.
-- The set of paths of three trees is a `HashSet`, whose order is not fixed: detection and merge
-- take any list with the paths of the trees (`Enumerates`), such as that of Conflict/AllPaths.
--
-- Numbers: bytes are natural numbers. A cast to `u32` is the remainder modulo 2^32, and the reader's
-- sums of `usize`s are taken modulo 2^64, as in a release build. A range or a position outside of
-- the data gives `panic`.
--
-- Bounds on loops: `encode_varint` takes five rounds, the groups of a `u32`. A read takes eleven
-- levels of deltas, where the source stops too. The graph searches take fuel, and run out of it
-- with `none`; two more than the number of parent links in the history is enough, and the theorems
-- ask for that much. In the merge of two commits, running out is the error `out_of_fuel`.
--
-- Bounds on the references: a name is followed ten times, where the source stops too. The files
-- of a tree are collected on fuel, the depth of its directories, and a deeper tree is the error
-- `too_deep`; the removal of empty directories has fuel for its passes and for their depth, with
-- the same error, and more than the number of directories and their depth is enough. The theorems
-- on a checkout are about one that succeeds, and so did not run out.
-- The loop over a streaming pack takes one round more than the pack has objects.
--
-- Not modelled: the storage backends and the object database with its cache, chunking and
-- similarity search, the recovery of transactions, the reflog, the listing of references, the
-- full checkout with `clean_working_directory`, `three_way_diff`, and the crates for the server,
-- the protocol, media formats, compression, configuration, security and metrics. Of pack.rs, the
-- statistics are left out, and of lca.rs the distances (`find_merge_base_detailed`). The state of
-- the disk after an error is not described.
pub mod Prelude
pub mod BTreeMap
pub mod Result
pub mod Bytes
pub mod Object
pub mod Delta
pub mod Pack
pub mod Tree
pub mod Conflict
pub mod Merge
pub mod Lca
pub mod Index
pub mod Diff
pub mod Streaming
pub mod Refs
pub mod Branch
pub mod Revision
pub mod Checkout
pub mod Transaction
