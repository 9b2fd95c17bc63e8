-- ===== src/Nodes.antt =====
-- How the nodes of the running groups are collected and named
-- (graphql/service/config/mutation_utils.go).
pub mod Names
pub mod Search
pub mod Sorting
pub mod Entries
pub mod Unique
pub mod Dedup
pub mod Total
