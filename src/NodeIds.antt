-- ===== src/NodeIds.antt =====
-- core/nodeids: short ids for the nodes of the dataset.
pub mod Sequence
pub mod NodesMap
pub mod Manager
pub mod Examples
