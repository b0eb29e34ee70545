-- ===== src/Aecram.antt =====
-- The auxiliary embedded controller: the driver aecram/driver/driver.c with aecram/include/aecram.h, and the
-- utility src/aecram_util.cpp.
pub mod Port
pub mod Driver
pub mod Threads
pub mod Module
pub mod Util
