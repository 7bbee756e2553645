-- ===== src/Examples.antt =====
-- The theorems at concrete inputs, and runs of the code on them.
mod Hashes
mod Trees
mod Wire
mod Tables
mod Packages
mod Settings
mod Paths
mod Files
mod Line
mod Serving
mod Shell
mod Running
