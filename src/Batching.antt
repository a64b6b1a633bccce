-- ===== src/Batching.antt =====
-- linuxBatchingConn, the batching connection of batching_conn_linux.go.
pub mod Pack
pub mod Link
pub mod Upgrade
