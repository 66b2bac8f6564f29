-- ===== src/Libs.antt =====
-- What the program takes of arcology's common-lib: helpers on slices, cells behind pointers, stores.
-- These are parameters of the model. Each module has the operations as a record, the documented
-- behaviour that the code relies on as a second record of laws, and a value that meets the laws.
pub mod SliceLib
pub mod Cells
pub mod Stores
pub mod Search
pub mod MapLib
pub mod EthLib
pub mod ProofLib
