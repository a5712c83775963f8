-- ===== src/Tests.antt =====
-- Runs of the model on small inputs.
mod Stacks
mod Hashes
mod Caches
mod Formats
mod Blocks
mod Images
mod Inode
mod Opening
mod Directory
mod Xattr
mod Traverse
mod File
mod Identifiers
mod Inodes
