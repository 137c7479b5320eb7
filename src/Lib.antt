-- ===== src/Lib.antt =====
-- The request and response paths of the qla2xxx driver (drivers/scsi/qla2xxx), the Fibre Channel
-- driver of QLogic adapters under SCST.
--
-- The parts. The mid layer gives a command to qla2x00_start_scsi or qla24xx_start_scsi. They find a
-- slot for it in `outstanding_cmds`, room on the request ring, and build its entries (IOCBs), which
-- the chip reads up to the index that it is told. The chip answers on the response ring, which
-- qla2x00_process_response_queue and qla24xx_process_response_queue drain: a status entry names a
-- slot, whose SRB is completed by `sp->done` with a result for the mid layer, at once or when the
-- rest of its sense data has come. A failure may mark the port lost or ask for a reset. Apart from
-- this path, a firmware dump is written by a walk over a template, into a buffer whose size an
-- earlier walk without one has calculated.
--
-- Virtual ports share the adapter: each has an id of a map, and may have queues of its own. The
-- functions of an ISP83xx share registers, under a lock: the function that owns a reset drives the
-- device from one state to the next, and the others wait for it.
--
-- The files, and the code that they model:
--   Base: Boolean tests, lists, words, memories, bitmaps, options, multiples.
--   Request/Queue: struct req_que (qla_def.h). Request/Ring: continuation entries (qla_iocb.c).
--   Request/Calc: qla2x00_calc_iocbs_32, _64, qla24xx_calc_dsd_lists (qla_iocb.c), qla24xx_calc_iocbs
--     (qla_inline.h).
--   Request/Handles: the search for a handle. Request/Room: the count of free entries.
--   Request/Segments: the loops under "Load data segments", and what the chip reads back.
--   Request/Build: qla2x00_get_cmd_direction, qla2x00_build_scsi_iocbs_32, _64,
--     qla24xx_build_scsi_iocbs.
--   Request/Blocks: qla24xx_get_one_block_sg and the loop over it (qla_iocb.c).
--   Request/Alloc: qla2x00_alloc_iocbs, qla2x00_start_iocbs, qla2x00_marker, qla82xx_start_iocbs.
--   Request/Start: qla2x00_start_scsi, qla24xx_start_scsi. Request/Packet: the words of their packets.
--   Adapter: srb_t, fc_port_t, scsi_qla_host_t, as far as they are used (qla_def.h).
--   Adapter/Lost: qla2x00_mark_device_lost (qla_os.c), qla2x00_set_fcport_state (qla_inline.h).
--   Response/Packet: struct rsp_que and the entries (qla_def.h, qla_fw.h).
--   Response/Handle: qla2x00_process_completed_request, qla2x00_get_sp_from_handle,
--     qla24xx_tm_iocb_entry, qla24xx_abort_iocb_entry, qla2x00_error_entry (qla_isr.c).
--   Response/Sense: qla2x00_handle_sense, qla2x00_status_cont_entry.
--   Response/Status, Response/Entry: qla2x00_status_entry. Response/Process: the two loops.
--   Vport: virtual ports, scsi_qla_host and the fields of struct qla_hw_data for them (qla_def.h).
--   Vport/Ids: qla24xx_allocate_vp_id, qla24xx_deallocate_vp_id (qla_mid.c). Vport/Control:
--     qla24xx_control_vp, qla24xx_modify_vp_config (qla_mbx.c), qla24xx_disable_vp, qla24xx_enable_vp,
--     qla24xx_configure_vp, qla2x00_vp_abort_isp (qla_mid.c).
--   Vport/Create: the check of a new port and qla24xx_create_vhost (qla_mid.c). Vport/Port:
--     qla24xx_vport_create, qla24xx_vport_delete (qla_attr.c).
--   Vport/Book, Vport/Owners: the book of ids, and who owns which id. Vport/Reach: the steps.
--   Vport/Queues: creation and deletion of queues (qla_mid.c, qla_init.c).
--   Idc: the registers that the functions of an ISP83xx share (qla_def.h, qla_nx.h), their accesses
--     (qla_mbx.c), acknowledgement, presence and audit (qla_init.c, qla_os.c).
--   Idc/Owner: qla83xx_reset_ownership (qla_init.c). Idc/Reset: qla83xx_need_reset_handler,
--     qla83xx_device_bootstrap (qla_os.c). Idc/Handler: qla83xx_idc_state_handler (qla_os.c).
--   Idc/Lock: qla83xx_idc_lock, qla83xx_idc_unlock and the recovery of the lock (qla_os.c).
--   Idc/Core: qla83xx_nic_core_reset (qla_init.c) and the works on events (qla_os.c).
--   Login: the map of loop ids (qla_inline.h, qla_init.c), qla2x00_fabric_login,
--     qla2x00_local_device_login (qla_init.c).
--   Template: firmware dumps of ISP27xx by a template (qla_tmpl.c, qla_tmpl.h): Template/Entry and the
--     handlers of entries in Template/Registers, Template/Queues and Template/Areas; Template/Calls the
--     list of the handlers; Template/Layout the fields of the header and of entries in memory; and in
--     Template/Walk qla27xx_walk_template and the functions that call it.
--   Examples: data, runs and concrete instances.
-- The child modules, and in Template the modules Sound, Adds, Cost, Handlers, Grow, Bounds and Find,
-- hold the proofs.
--
-- The model. Functions take the state and return it. A pointer to an SRB, a port or a queue is an index
-- into a table of the adapter. A ring is a function from the number of an entry and of a 32-bit word;
-- a command's packet is the entry at `ring_ptr`. Numbers are natural numbers, and the wraps of
-- `uint16_t` and `uint32_t` are written out. The register or shadow index that the chip advances is an
-- argument, one for each place where it is read. The loops over the response ring run on fuel, the
-- length of the ring: each round marks an entry as processed, so that no more rounds are possible
-- before the loop's test fails.
--
-- For ISP83xx, the other functions are an argument, `Peers`: whenever the lock is given up, they change
-- the registers, in any way, and a sleep may end late. What is done under the lock is one step. The
-- time in which a register is read again because it has the bad value is left out. The wait for the
-- acknowledgements and the recovery of the lock have as many rounds as their timeouts need; the state
-- machine and the wait for another function's reset, which the others can keep from ending, are given
-- a number of rounds. In an interrupt, the wait for the lock does not sleep, and the recovery of the lock
-- may need more rounds than it is given.
--
-- The loop of fabric logins is given a number of rounds too, since a switch can name one loop id after
-- another for a port; without such answers it ends when the ids are used up.
--
-- Templates and a dump's buffer are functions from the number of a byte, and the walk is structural in
-- the count of entries. The walk reads the next entry from the memory that it works on: from the
-- template when a size is calculated, from the copy in the buffer when a dump is made. A handler gets
-- the fields of its entry; what it stores into them is put into the memory after what it inserts into
-- the dump, which is the same as in its own order when the entry lies before the dump's end. The check
-- of a template says nothing about its entries; Template/Sound states which templates keep them inside,
-- and Template/Adds that the two RAM dumps of qla_dbg.c store only into their area.
--
-- What comes from outside is an argument: the chip in a walk, as `Device`; int_to_scsilun of the
-- kernel; and, as `Others`, HZ and the handlers for bidirectional and DIF status and for the entries of
-- mailbox, CT, ELS, login and report-id commands. The kernel's dma_map_sg and scsi_populate_tag_msg
-- appear as fields of the command.
--
-- Not modelled: locks other than that of Idc (each function is one step), register access, logs, and
-- the rest of the driver: initialisation and the scans for ports, mailbox commands, generic services,
-- flash, P3P and ISPFX00 specifics, register dumps and the interfaces for tools.
pub mod Examples
pub mod Base
pub mod Request
pub mod Adapter
pub mod Response
pub mod Template
pub mod Vport
pub mod Idc
pub mod Login
