-- ===== src/Services.antt =====
-- The GraphQL services that write the database (graphql/service/*).
pub mod Selecting
pub mod Selected
pub mod Configs
pub mod Dnss
pub mod Routings
pub mod Groups
pub mod Nodes
pub mod Subscriptions
pub mod Schedulers
