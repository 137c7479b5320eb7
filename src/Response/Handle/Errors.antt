-- ===== src/Response/Handle/Errors.antt =====
-- Error entries and task management of Response/Handle, for an SRB that is in the slot of its handle.
use scst_qla2xxx.Base.{
  ℕ, ◌<◌, ◌≡◌, refl, true, none, some, ◌∷◌, arith, not, ◌&&◌, ◌||◌, ltb, ◌==◌, if◌then◌else◌,
}
use scst_qla2xxx.Base.Words.{lsw, msw, has}
use scst_qla2xxx.Adapter.{Adapter, done, set_srb, free_slot}
use scst_qla2xxx.Response.Packet.{Pkt}
use scst_qla2xxx.Response.Handle.{
  did_bus_busy, did_error, take_slot, get_sp_from_handle, tmf_result, tm_iocb_entry, error_entry,
}

-- The slot of the handle in the queue `que` holds the SRB, which has the handle's number.
pub record InSlot (ha : Adapter) (que : ℕ) (pkt : Pkt) (sp : ℕ) : Type 0 where
  pub below : lsw pkt.handle < (ha.req_q_map que).num_outstanding_cmds
  pub slot : (ha.req_q_map que).outstanding_cmds (lsw pkt.handle) ≡ some sp
  pub same_handle : (ha.srbs sp).handle ≡ lsw pkt.handle

get_sp_from_handle-found :
    (ha : Adapter) (que : ℕ) (pkt : Pkt) (sp : ℕ)
    → InSlot ha que pkt sp
    → get_sp_from_handle ha que pkt ≡ (free_slot ha que (lsw pkt.handle), some sp)
unfolding get_sp_from_handle take_slot
get_sp_from_handle-found ha que pkt sp i = ground (arith, i.below, i.slot, i.same_handle)

free_slot_lem :
    (ha : Adapter) (que index : ℕ)
    → (((free_slot ha que index).req_q_map que).outstanding_cmds index ≡ none)
      × ((free_slot ha que index).completions ≡ ha.completions)
unfolding free_slot
free_slot_lem ha que index = (ground arith, refl)

-- An error entry that names a queue that is there and the slot of an SRB that has the slot's
-- number as its handle frees the slot and completes the SRB once, as busy if the entry's status
-- says so and as an error otherwise.
pub error_entry_completes :
    (ha : Adapter) (pkt : Pkt) (sp : ℕ)
    → msw pkt.handle < ha.max_req_queues
    → ha.req_q_present (msw pkt.handle) ≡ true
    → InSlot ha (msw pkt.handle) pkt sp
    → let ha' = error_entry ha pkt in
      (ha'.completions
        ≡ (sp, if has pkt.entry_status 2 then did_bus_busy else did_error) ∷ ha.completions)
      × ((ha'.req_q_map (msw pkt.handle)).outstanding_cmds (lsw pkt.handle) ≡ none)
unfolding error_entry done
error_entry_completes ha pkt sp q p i =
    let found = get_sp_from_handle-found ha (msw pkt.handle) pkt sp i in
    let freed = free_slot_lem ha (msw pkt.handle) (lsw pkt.handle) in ground (arith, found, freed)

-- For an SRB in the slot of its handle, the entry of a task management command frees the slot and
-- completes the SRB once; its result is success exactly if the entry has no error status, the
-- completion status is 0, and response information is missing, shorter than four bytes, or 0 in
-- its fourth byte.
pub tm_iocb_entry_completes :
    (ha : Adapter) (que : ℕ) (pkt : Pkt) (sp : ℕ)
    → InSlot ha que pkt sp
    → let ha' = tm_iocb_entry ha que pkt in
      (ha'.completions ≡ (sp, 0) ∷ ha.completions)
      × ((ha'.req_q_map que).outstanding_cmds (lsw pkt.handle) ≡ none)
      × ((ha'.srbs sp).tmf_data ≡ (
          if pkt.entry_status == 0
            && (pkt.comp_status == 0
                && (not (has pkt.scsi_status 0x100)
                    || (ltb pkt.rsp_data_len 4 || pkt.data_24xx 3 == 0)))
          then 0
          else 0x102))
unfolding tm_iocb_entry tmf_result done set_srb
tm_iocb_entry_completes ha que pkt sp i =
    let found = get_sp_from_handle-found ha que pkt sp i in
    let freed = free_slot_lem ha que (lsw pkt.handle) in ground (arith, found, freed)
