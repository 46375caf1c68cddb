-- ===== src/Users.antt =====
-- What a client keeps in the account: addresses and cards, one of each the default.
pub mod Defaults
pub mod Addresses
pub mod ContactChange
pub mod Include
pub mod Cards
pub mod Documents
pub mod ActiveRole
pub mod Favorites
pub mod Portfolio
