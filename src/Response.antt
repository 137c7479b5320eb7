-- ===== src/Response.antt =====
-- The response side of the driver (drivers/scsi/qla2xxx/qla_isr.c).
pub mod Packet
pub mod Handle
pub mod Sense
pub mod Status
pub mod Entry
pub mod Process
