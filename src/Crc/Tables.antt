-- ===== src/Crc/Tables.antt =====
-- The constant tables of the checksum routines.
mod Utils
mod Nand
mod Dif
unfoldable pub use Utils.{g_crc32_table}
unfoldable pub use Nand.{crc32_table}
unfoldable pub use Dif.{crc16_t10pi_table}
