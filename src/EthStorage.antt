-- ===== src/EthStorage.antt =====
-- storage/ethstorage: the Ethereum accounts, the world state that holds them and the writer that
-- brings a block's transitions into it.
pub mod Backend
pub mod Account
pub mod World
pub mod Writer
pub mod Shards
