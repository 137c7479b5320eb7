-- ===== src/Request.antt =====
-- The request side of the driver (drivers/scsi/qla2xxx/qla_iocb.c).
pub mod Queue
pub mod Calc
pub mod Handles
pub mod Ring
pub mod Segments
pub mod Build
pub mod Blocks
pub mod Room
pub mod Alloc
pub mod Packet
pub mod Start
