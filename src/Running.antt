-- ===== src/Running.antt =====
-- Running the selected configuration, and telling whether it has been modified since.
pub mod Groups
pub mod Save
pub mod Run
pub mod Filled
pub mod Outbounds
pub mod Sections
pub mod Modified
pub mod Keys
pub mod Fresh
pub mod Agree
pub mod Unmodified
pub mod Live
