-- ===== src/Lib.antt =====
-- A model of cryptpilot: the fs-verity digest (verity-core), the read-only file system that checks all
-- reads against it (verity-fuse), the metadata and commands around both (cryptpilot-verity), the
-- encrypted volumes (cryptpilot-core, cryptpilot-crypt) and the boot from an encrypted and measured disk
-- (cryptpilot-fde), with proofs.
--
-- The program. `cryptpilot-verity format` measures every file of a directory: `FsVerityDigest` feeds
-- the bytes of a file into a Merkle tree and gives a descriptor (root hash, size, block size, salt)
-- and the hashes of the first level. Both are stored as metadata, with the hash of each descriptor.
-- `cryptpilot-verity open` reads the metadata, checks it against itself (`verify_self`), builds a
-- verifier with an inode number for every file and for every directory above a file, and mounts a
-- file system over the directory, which is not trusted. Every block that is read is hashed and
-- compared with the hash in the tree.
--
-- `cryptpilot-crypt init` formats the device of a volume as LUKS2 with a label that says that the work
-- is not finished, makes a file system through a temporary mapping and sets the final label;
-- `cryptpilot-crypt open` maps the device. In the initrd, the first stage of cryptpilot-fde maps the
-- rootfs through dm-crypt and dm-verity, with the root hash of the measured metadata, and sets up the
-- delta volume that takes the changes; the second stage mounts it over /sysroot.
--
-- Files and code.
--   Prelude: tests into Bool, lists and their lemmas, blocks of a list, powers of two, association
--     lists. Numbers are natural numbers; a wrap of a machine integer is written out.
--   VerityCore/Config: verity-core/src/config.rs.
--   VerityCore/Hash: the trait `InnerHash` of verity-core/src/digest.rs. The crate digest is a record
--     of a state and its operations, its documented laws are the record HashLaws: only the bytes fed
--     count, the output has a fixed size, which is a power of two. Below: Zeroes (padding), Salt (the
--     salted state).
--   VerityCore/Block: `FsVerityConfig` and `FixedSizeBlock` of verity-core/src/digest.rs.
--   VerityCore/Digest: `FsVerityDigest` of verity-core/src/digest.rs. Below it: Invariant (what the
--     levels hold, and the Merkle tree as an independent definition), Climb and Chunk (the loop over
--     the levels), Capacity (no more than eight levels), Tracks (whole updates), Finish (the flush),
--     Root (facts of the Merkle tree), Correct (the whole measurement).
--   VerityCore/Merkle, VerityCore/Tree: verity-core/src/tree.rs. Below: Padding, Rebuild, Verify.
--   VerityCore/Descriptor: verity-core/src/descriptor.rs. Below: Layout (the 256 bytes).
--   VerityFuse/Outcome: results with the error numbers that the kernel gets.
--   VerityFuse/FileInfo: verity-fuse/src/file_verifier/file_verity_info.rs. Below: SelfCheck.
--   VerityFuse/Paths: what is used of the crate relative_path, with its documented laws.
--   VerityFuse/Verifier: verity-fuse/src/file_verifier/verity_verifier.rs. Below: Register, Parents and
--     Files (one entry, the directories above a file, all files), and Blocks (the check of a block).
--   VerityFuse/Source: what is used of the system and of the crate lru, with their documented laws. The
--     directory below the mount is not trusted: every call may give anything.
--   VerityFuse/Cache: verity-fuse/src/file_handle_cache.rs. Below: Pread, Handles.
--   VerityFuse/Filesystem: `VerityFS` of verity-fuse/src/filesystem.rs with `read`, `open` and
--     `readlink`. Below: Attributes (lookup, getattr, readdir; with Listing and Sizes), Range (which
--     blocks a read visits), Slice (which bytes of them), Sound, Start and Opening (what a call keeps, and the cache of blocks), Read,
--     Request and Authentic (what a read answers), Session (sequences of requests).
--   CryptpilotVerity/Answer: results with the errors of the program.
--   CryptpilotVerity/Metadata: cryptpilot-verity/src/metadata/mod.rs and the fields of the tables of
--     metadata_generated.rs. The crates flatbuffers, canon_json and hex are the record Formats.
--     Below: RoundTrip.
--   CryptpilotVerity/Commands: format.rs, verify.rs and open.rs of cryptpilot-verity/src/cmd. What a
--     command reads of the system is an argument. Below: Check, Format.
--   CryptpilotCore/Types, System, Program: the data of cryptpilot-core/src/types.rs and config/encrypt.rs,
--     the calls of the system, and programs: trees of calls, where each reply may be anything of its
--     type. Below Program: Safety, Uses and Gets (a monitor that watches all runs of a program, and
--     rules for it), Faults, and Runs (runs in one environment).
--   CryptpilotCore/Cmd, Luks2, Blkid, Mkfs, Provider: cryptpilot-core/src/fs/{cmd, kernel_module, luks2,
--     blkid, mkfs}.rs, fs/block and provider. Below: Answers (what a result says), Calls (which calls
--     an operation makes), Header (the LUKS2 header), Fields (the output of blkid), Pages (the pages
--     that mkfs touched).
--   CryptpilotCrypt/Config, Show, Init, Open, Close, Check, AutoOpen: cryptpilot-crypt/src/config and
--     cryptpilot-crypt/src/cmd. Below: Config/Names (the names are unique), Init/Order (the order of the
--     steps), Init/Closed (the temporary mapping), Open/Keeps (what an open leaves alone), Show/Status,
--     Check/Keeping (with and without --keep-checking), AutoOpen/Each and AutoOpen/Unfailing.
--   CryptpilotFde/Config: cryptpilot-fde/src/config/fde.rs. CryptpilotFde/BootService: metadata.rs and
--     the stages before_sysroot.rs and after_sysroot.rs of cryptpilot-fde/src/cmd/boot_service.
--     Snapshot has the dm-snapshot devices. Below the stages: Guard, Calls, Verified, Delta and Whole,
--     and Table (what a line of /etc/mtab says), Mounts and Overlay.
--   The modules Tests and VerityFuse/Toy: runs with a small hash, and each theorem at a concrete input.
--
-- State and errors. A method that takes `&mut self` is a function from the old value to the new one.
-- A panic (a failed `assert!`, an index out of range) is `none`. `usize` and `u64` have 64 bits; the
-- arithmetic that can wrap is taken modulo 2^64. A slice is a list of numbers.
-- The operations of cryptpilot-core, cryptpilot-crypt and cryptpilot-fde keep no state of their own:
-- they are programs over the calls of the system. A program ends with a value, an error (`?`, `bail!`)
-- or a panic; `attempt` is a `match` on a result, `with_drop` the drop of a guard. A library call such
-- as a format by cryptsetup is one call, which may fail. Nothing is assumed of the replies, so the
-- theorems hold for every behaviour of the system, of concurrent programs and of the disk.
--
-- Bounds and fuel. A tree has at most eight levels, so a measurement may count block_size * factor ^ 7
-- bytes, where factor is the number of digests in a block; the theorems on it have this bound as a
-- condition. The loop over the parents of a path runs on fuel: the number of components of the path
-- and one more, which is enough because a parent has one component less. The loop
-- over `pread` runs on fuel: one round for each byte asked for and for each interrupt that is left,
-- which is enough because a round reads a byte, ends, or is interrupted.
--
-- Not modelled: the constructors `new_dyn*` of verity-core, which only choose the hash; logging; the
-- mount, the walk over a directory, the commands dump and close and the command line of
-- cryptpilot-verity; the requests of the key providers kms, kbs and oidc, the reading of a block trace
-- and the set up of a loop device, which are one call of the system each; the shell script that grows
-- the partition of the volume group, which is a parameter; the words of the table of volumes; of
-- cryptpilot-fde the disk and boot loader, the configuration sources and the host commands; verity-go,
-- scripts and packages.
pub mod Prelude
pub mod VerityCore
pub mod VerityFuse
pub mod CryptpilotVerity
pub mod CryptpilotCore
pub mod CryptpilotCrypt
pub mod CryptpilotFde
