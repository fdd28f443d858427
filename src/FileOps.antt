-- ===== src/FileOps.antt =====
-- Src/IACore/imp/cpp/FileOps.cpp and Src/IACore/inc/IACore/FileOps.hpp, on a Unix system.
pub mod Mappings
pub mod Region
pub mod Files
pub mod Paths
