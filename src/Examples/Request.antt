-- ===== src/Examples/Request.antt =====
-- The theorems about requests at concrete inputs.
use scst_qla2xxx.Base.{
  ℕ, ◌<◌, ◌≤◌, ◌≡◌, ◌==◌, if◌then◌else◌, refl, inl, true, false, none, some, arith,
}
use scst_qla2xxx.Request.Queue.{adjust_ring_index}
use scst_qla2xxx.Request.Calc.{calc_iocbs_32, calc_iocbs_64, calc_iocbs_24xx}
use scst_qla2xxx.Request.Handles.{HasSlots, find_handle, find_handle-free, find_handle-none}
use scst_qla2xxx.Request.Ring.{IsRing, prep_cont_type1_iocb}
use scst_qla2xxx.Request.Segments.{type1, load_segments, fw_segments, conts, more_room, put_dsd}
use scst_qla2xxx.Request.Segments.Count.{cursor}
use scst_qla2xxx.Request.Segments.ReadBack.{fw_segments-load_segments}
use scst_qla2xxx.Request.Build.{build_scsi_iocbs_64, build_scsi_iocbs_24xx}
use scst_qla2xxx.Request.Build.Segs.{Built, build_scsi_iocbs_24xx-Built, build_scsi_iocbs_64-Built}
use scst_qla2xxx.Base.{List, [], ◌∷◌}
use scst_qla2xxx.Request.Segments.{Sg}
use scst_qla2xxx.Request.Blocks.{
  take_piece, move_on, piece_of, get_one_block_sg, more_pieces, data_pieces, first_sgx,
}
use scst_qla2xxx.Request.Blocks.Bytes.{AllFilled, bytes, total}
use scst_qla2xxx.Request.Blocks.Cover.{AllBounded, data_pieces_lem}
use scst_qla2xxx.Request.Room.{make_room}
use scst_qla2xxx.Request.Room.Safe.{Fits}
use scst_qla2xxx.Request.Alloc.{alloc_iocbs, start_req, marker}
use scst_qla2xxx.Request.Alloc.Leak.{alloc_iocbs_slot, marker_fills}
use scst_qla2xxx.Request.Start.{
  reserve, queue_command, take_entries, send_marker, start_locked, start_scsi, flavour_2x00,
  flavour_24xx,
}
use scst_qla2xxx.Request.Start.Safe.{Started, Refused}
use scst_qla2xxx.Request.Start.Commands.{
  start_scsi_24xx-Started, start_scsi_24xx-Refused, start_scsi_64-Started,
}
use scst_qla2xxx.Adapter.{set_req, set_srb}
use scst_qla2xxx.Examples.{queue, busy_queue, sg, command, adapter, busy_adapter, port}

queue-IsRing : IsRing queue
queue-IsRing = ground arith

queue-Fits : Fits queue 5 1
queue-Fits = ground arith

-- Seven of the eight entries wait, from entry 7 on.
queue-Fits_full : Fits queue 7 7
queue-Fits_full = ground arith

queue-HasSlots : HasSlots queue
queue-HasSlots = ground arith

busy_queue-HasSlots : HasSlots busy_queue
busy_queue-HasSlots = ground arith

abbrev lun_bytes : ℕ → ℕ → ℕ
lun_bytes lun j = if j == 1 then lun else 0

found : find_handle queue ≡ some 3
unfolding find_handle
found = refl

none_found : find_handle busy_queue ≡ none
unfolding find_handle
none_found = refl

-- The two entries of the write are the last of the ring and the chip is told 0.
started_index :
    (((start_scsi (flavour_24xx lun_bytes adapter port 0) adapter 0 5 5 1 command).0.req_q_map
      0).ring_index)
    ≡ 0
unfolding start_scsi send_marker start_locked reserve find_handle make_room flavour_24xx
    calc_iocbs_24xx queue_command take_entries build_scsi_iocbs_24xx load_segments more_room put_dsd
    set_req set_srb start_req adjust_ring_index prep_cont_type1_iocb
started_index = refl

starts : (start_scsi (flavour_24xx lun_bytes adapter port 0) adapter 0 5 5 1 command).1 ≡ true
unfolding start_scsi send_marker start_locked reserve find_handle make_room flavour_24xx
    calc_iocbs_24xx
starts = refl

starts_64 : (start_scsi (flavour_2x00 true adapter port) adapter 0 5 5 1 command).1 ≡ true
unfolding start_scsi send_marker start_locked reserve find_handle make_room flavour_2x00
    calc_iocbs_64
starts_64 = refl

starts_32 : (start_scsi (flavour_2x00 false adapter port) adapter 0 5 5 1 command).1 ≡ true
unfolding start_scsi send_marker start_locked reserve find_handle make_room flavour_2x00
    calc_iocbs_32
starts_32 = refl

refuses :
    (start_scsi (flavour_24xx lun_bytes busy_adapter port 0) busy_adapter 0 5 5 1 command).1 ≡ false
unfolding start_scsi send_marker start_locked reserve find_handle
refuses = refl

two_entries : calc_iocbs_24xx 3 ≤ 8
unfolding calc_iocbs_24xx
two_entries = omega arith

two_entries_64 : calc_iocbs_64 3 ≤ 8
unfolding calc_iocbs_64
two_entries_64 = omega arith

one_more : conts (type1 false) 1 3 < 8
unfolding conts
one_more = omega arith

start_scsi_24xx-Started_example :
    Started
      (type1 false)
      13
      1
      (calc_iocbs_24xx 3)
      5
      1
      1
      queue
      ((start_scsi (flavour_24xx lun_bytes adapter port 0) adapter 0 5 5 1 command).0.req_q_map 0)
      command
start_scsi_24xx-Started_example =
    start_scsi_24xx-Started lun_bytes adapter port 0 0 5 5 1 1 command queue-Fits queue-HasSlots
      refl (inl refl) (omega arith) (ground arith) starts

start_scsi_24xx-Refused_example : Refused 5 1 busy_queue (
    (start_scsi
        (flavour_24xx lun_bytes busy_adapter port 0)
        busy_adapter
        0
        5
        5
        1
        command).0.req_q_map
      0)
start_scsi_24xx-Refused_example =
    start_scsi_24xx-Refused lun_bytes busy_adapter port 0 0 5 5 1 1 command (ground arith)
      busy_queue-HasSlots refl refuses

start_scsi_64-Started_example :
    Started
      (type1 false)
      10
      2
      (calc_iocbs_64 3)
      5
      1
      1
      queue
      ((start_scsi (flavour_2x00 true adapter port) adapter 0 5 5 1 command).0.req_q_map 0)
      command
start_scsi_64-Started_example =
    start_scsi_64-Started adapter port 5 5 1 1 command queue-Fits queue-HasSlots refl (inl refl)
      (omega arith) (ground arith) starts_64

build_scsi_iocbs_24xx-Built_example :
    Built
      (type1 false)
      13
      1
      (calc_iocbs_24xx 3)
      queue
      (build_scsi_iocbs_24xx false adapter.qla_stats queue command).1
      command
build_scsi_iocbs_24xx-Built_example =
    build_scsi_iocbs_24xx-Built adapter.qla_stats queue command false queue-IsRing refl
      (omega arith) two_entries (ground arith)

build_scsi_iocbs_64-Built_example :
    Built
      (type1 false)
      10
      2
      (calc_iocbs_64 3)
      queue
      (build_scsi_iocbs_64 false adapter.qla_stats queue command).1
      command
build_scsi_iocbs_64-Built_example =
    build_scsi_iocbs_64-Built adapter.qla_stats queue command false queue-IsRing refl (omega arith)
      two_entries_64 (ground arith)

fw_segments-load_segments_example :
    fw_segments
      (type1 false)
      (load_segments (type1 false) (cursor queue 13 1) command.mapped).ring
      8
      6
      13
      1
      3
    ≡ command.mapped
fw_segments-load_segments_example =
    fw_segments-load_segments (type1 false) queue 13 1 command.mapped queue-IsRing one_more
      (ground arith)

find_handle-free_example : (0 < 3) × (3 < 4) × (queue.outstanding_cmds 3 ≡ none)
find_handle-free_example = find_handle-free queue queue-HasSlots found

find_handle-none_example : (sp : ℕ) × (busy_queue.outstanding_cmds 2 ≡ some sp)
find_handle-none_example =
    find_handle-none busy_queue 2 busy_queue-HasSlots none_found (omega arith) (omega arith)

-- The SRB 1 asks for 20 entries of a ring of 8.
not_allocated : (alloc_iocbs adapter 5 (some 1)).1 ≡ none
unfolding alloc_iocbs find_handle make_room
not_allocated = refl

alloc_iocbs_slot_example :
    ((alloc_iocbs adapter 5 (some 1)).0.req_q_map 0).outstanding_cmds 3 ≡ some 1
alloc_iocbs_slot_example = alloc_iocbs_slot adapter 5 1 3 found

marks : (marker adapter 7 0 0 2).1 ≡ true
unfolding marker alloc_iocbs make_room
marks = refl

marker_fills_example :
    (((marker adapter 7 0 0 2).0.req_q_map 0).ring_index ≡ 7)
    × ((make_room ((marker adapter 7 0 0 2).0.req_q_map 0) 1 7).0.cnt
        ≡ ((marker adapter 7 0 0 2).0.req_q_map 0).length)
marker_fills_example = marker_fills adapter 7 7 1 queue-Fits_full refl marks (omega arith)

-- Two intervals of 8 bytes, over three elements.
abbrev intervals : List Sg
intervals = sg 100 6 ∷ sg 200 9 ∷ sg 300 1 ∷ []

intervals-AllFilled : AllFilled intervals
unfolding AllFilled
intervals-AllFilled = (omega arith, (omega arith, (omega arith, tt)))

data_pieces_lem_example :
    (ps : List Sg) × (data_pieces 8 6 (first_sgx (total intervals) intervals) ≡ some ps)
    × (bytes ps ≡ bytes intervals)
    × AllBounded 8 ps
unfolding total
data_pieces_lem_example =
    data_pieces_lem 8 2 intervals (omega arith) intervals-AllFilled (omega arith) (omega arith)

-- The second element is cut in two.
cuts :
    data_pieces 8 6 (first_sgx 16 intervals) ≡ some (sg 100 6 ∷ sg 200 2 ∷ sg 202 7 ∷ sg 300 1 ∷ [])
unfolding data_pieces more_pieces get_one_block_sg piece_of take_piece move_on first_sgx
cuts = refl
