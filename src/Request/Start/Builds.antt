-- ===== src/Request/Start/Builds.antt =====
-- The builders in the place where Request/Start calls them: on a packet that was just filled, for
-- commands with data and without.
use scst_qla2xxx.Base.{
  ℕ, zero, suc, ◌+◌, ◌-◌, ◌<◌, ◌≤◌, ◌≡◌, refl, sym, ap, ◌∙◌, ◌⊎◌, inl, inr, Bool, true, false, [],
  ◌∷◌, map, arith, if◌then◌else◌, Bool-cases,
}
use mathlib.Core.Path.{ap₂, subst}
use scst_qla2xxx.Base.Lists.{length}
use scst_qla2xxx.Request.Queue.{Ring, store, ReqQue, adjust_ring_index}
use scst_qla2xxx.Request.Calc.{calc_iocbs_32, calc_iocbs_64, calc_iocbs_24xx}
use scst_qla2xxx.Request.Ring.{IsRing, advance, get_words, store_ne}
use scst_qla2xxx.Request.Segments.{
  Cont, type0, type1, cont_word, cont_dsds, dsd_size, read_segments, dsd_value, fw_segments,
}
use scst_qla2xxx.Request.Segments.Count.{Keeps}
use scst_qla2xxx.Request.Segments.ReadBack.{AllFit}
use scst_qla2xxx.Request.Segments.Outside.{Outside-first}
use scst_qla2xxx.Request.Build.{
  set_word, no_data, build_scsi_iocbs_32, build_scsi_iocbs_64, build_scsi_iocbs_24xx,
}
use scst_qla2xxx.Request.Build.Segs.{
  OnlyAt, set_word-OnlyAt, Built, build_scsi_iocbs_24xx-Built, build_scsi_iocbs_64-Built,
  build_scsi_iocbs_32-Built,
}
use scst_qla2xxx.Request.Alloc.{start_req}
use scst_qla2xxx.Adapter.{ScsiCmnd, Stats, Adapter, FcPort}
use scst_qla2xxx.Request.Start.{
  dsds, Flavour, take_entries, queue_command, flavour_2x00, flavour_24xx,
}

-- The first word of an entry holds no descriptor.
get_words-store :
    (m : Ring) (e v e' w n : ℕ) → 0 < w → get_words (store m e 0 v) e' w n ≡ get_words m e' w n
unfolding get_words
get_words-store m e v e' w zero h = refl
get_words-store m e v e' w (suc n) h =
    ap₂ ◌∷◌ (store_ne m e 0 v e' w (inr (omega arith)))
      (get_words-store m e v e' (w + 1) n (omega arith))

read_segments-store :
    (c : Cont) (m : Ring) (e v len e' w avail n : ℕ)
    → 0 < w
    → read_segments c (store m e 0 v) len e' w avail n ≡ read_segments c m len e' w avail n
unfolding read_segments
read_segments-store c m e v len e' w avail zero h = refl
read_segments-store c m e v len e' w zero (suc n) h =
    let pos : 0 < cont_word c = ground arith in
    ap₂ ◌∷◌ (get_words-store m e v (advance len e' 1) (cont_word c) (dsd_size c) pos) (
      read_segments-store c m e v len (advance len e' 1) (cont_word c + dsd_size c)
        (cont_dsds c - 1) n (omega arith))
read_segments-store c m e v len e' w (suc avail) (suc n) h =
    ap₂ ◌∷◌ (get_words-store m e v e' w (dsd_size c) h)
      (read_segments-store c m e v len e' (w + dsd_size c) avail n (omega arith))

start_req-ring : (req : ReqQue) → (start_req false 0 req).ring ≡ req.ring
unfolding start_req adjust_ring_index
start_req-ring req = ground arith

-- What the chip reads of the command that was queued.
pub queue_command_reads :
    (f : Flavour) (c : Cont) (w avail : ℕ) (st : Stats) (req : ReqQue) (handle sp : ℕ)
    (cmd : ScsiCmnd)
    → 0 < w
    → let taken = take_entries f req handle sp cmd in
      let cmd' = record cmd { mapped = dsds cmd } in
      Built c w avail (f.calc (length (dsds cmd))) taken (f.build st taken cmd').1 cmd'
      → fw_segments c
          (queue_command f st req handle sp cmd).1.ring
          req.length
          req.ring_ptr
          w
          avail
          (length (dsds cmd))
        ≡ dsds cmd
unfolding queue_command fw_segments take_entries
queue_command_reads f c w avail st req handle sp cmd h b = rw start_req-ring (
    ap (map (dsd_value c))
      (read_segments-store c _ req.ring_ptr _ req.length req.ring_ptr w avail _ h)
    ∙ b.reads)

-- A command without data.
no_data-Built :
    (c : Cont) (w avail calc : ℕ) (req now : ReqQue) (cmd : ScsiCmnd)
    → IsRing req
    → Keeps req now
    → now.ring_index ≡ req.ring_index
    → now.ring_ptr ≡ req.ring_ptr
    → OnlyAt req.ring_ptr req.ring now.ring
    → calc ≡ 1
    → cmd.mapped ≡ []
    → Built c w avail calc req now cmd
unfolding fw_segments read_segments
no_data-Built c w avail calc req now cmd v k i p only one e = record {
  ring = ground arith;
  keeps = k;
  some_entry = omega (arith, one);
  others = λ entry x o. only entry x (Outside-first req calc entry v (omega (arith, one)) o);
  index = ap₂ (λ j n. advance req.length j n) i (sym one);
  reads =
      subst (λ xs. fw_segments c now.ring req.length req.ring_ptr w avail (length xs) ≡ xs) (sym e)
        refl;
}

-- What a flavour's builder does for every command, with data or without.
abbrev pub BuildsAll : Flavour → Cont → ℕ → ℕ → Type 0
BuildsAll f c w avail =
    (st : Stats) (req : ReqQue) (cmd : ScsiCmnd)
    → IsRing req
    → (no_data cmd ≡ false) ⊎ (cmd.mapped ≡ [])
    → length cmd.mapped < 65536
    → f.calc (length cmd.mapped) ≤ req.length
    → AllFit c cmd.mapped
    → Built c w avail (f.calc (length cmd.mapped)) req (f.build st req cmd).1 cmd

-- The packet that is built for a command without data.
build_scsi_iocbs_24xx-no_data :
    (b : Bool) (st : Stats) (req : ReqQue) (cmd : ScsiCmnd)
    → IsRing req
    → no_data cmd ≡ true
    → cmd.mapped ≡ []
    → Built
        (type1 b)
        13
        1
        (calc_iocbs_24xx (length cmd.mapped))
        req
        (build_scsi_iocbs_24xx b st req cmd).1
        cmd
unfolding build_scsi_iocbs_24xx calc_iocbs_24xx
build_scsi_iocbs_24xx-no_data b st req cmd v dataless e = rw dataless (
    no_data-Built (type1 b) 13 1 _ req _ cmd v (ground arith) refl refl
      (λ e x ne.
        set_word-OnlyAt (set_word req 0 0x18) 11 0 e x ne ∙ set_word-OnlyAt req 0 0x18 e x ne)
      (ap (λ xs. calc_iocbs_24xx (length xs)) e) e)

build_scsi_iocbs_64-no_data :
    (b : Bool) (st : Stats) (req : ReqQue) (cmd : ScsiCmnd)
    → IsRing req
    → no_data cmd ≡ true
    → cmd.mapped ≡ []
    → Built
        (type1 b)
        10
        2
        (calc_iocbs_64 (length cmd.mapped))
        req
        (build_scsi_iocbs_64 b st req cmd).1
        cmd
unfolding build_scsi_iocbs_64 calc_iocbs_64
build_scsi_iocbs_64-no_data b st req cmd v dataless e = rw dataless (
    no_data-Built (type1 b) 10 2 _ req _ cmd v (ground arith) refl refl
      (λ e x ne.
        set_word-OnlyAt (set_word req 0 0x19) 9 0 e x ne ∙ set_word-OnlyAt req 0 0x19 e x ne)
      (ap (λ xs. calc_iocbs_64 (length xs)) e) e)

build_scsi_iocbs_32-no_data :
    (st : Stats) (req : ReqQue) (cmd : ScsiCmnd)
    → IsRing req
    → no_data cmd ≡ true
    → cmd.mapped ≡ []
    → Built type0 10 3
        (calc_iocbs_32 (length cmd.mapped))
        req
        (build_scsi_iocbs_32 st req cmd).1
        cmd
unfolding build_scsi_iocbs_32 calc_iocbs_32
build_scsi_iocbs_32-no_data st req cmd v dataless e = rw dataless (
    no_data-Built type0 10 3 _ req _ cmd v (ground arith) refl refl
      (λ e x ne.
        set_word-OnlyAt (set_word req 0 0x11) 9 0 e x ne ∙ set_word-OnlyAt req 0 0x11 e x ne)
      (ap (λ xs. calc_iocbs_32 (length xs)) e) e)

empty_scatter :
    (cmd : ScsiCmnd)
    → no_data cmd ≡ true
    → (no_data cmd ≡ false) ⊎ (cmd.mapped ≡ [])
    → cmd.mapped ≡ []
empty_scatter cmd dataless (inl e) = ground arith
empty_scatter cmd dataless (inr e) = e

pub flavour_24xx-BuildsAll :
    (lun : ℕ → ℕ → ℕ) (ha : Adapter) (port : FcPort) (id : ℕ)
    → BuildsAll (flavour_24xx lun ha port id) (type1 ha.chip.qlafx00) 13 1
unfolding flavour_24xx
flavour_24xx-BuildsAll lun ha port id st req cmd v data_or small room fit =
    elim (Bool-cases (no_data cmd)) [
      | inr some_data ↦
          build_scsi_iocbs_24xx-Built st req cmd ha.chip.qlafx00 v some_data small room fit
      | inl dataless ↦
          build_scsi_iocbs_24xx-no_data ha.chip.qlafx00 st req cmd v dataless
            (empty_scatter cmd dataless data_or)
    ]

pub flavour_2x00-BuildsAll :
    (a64 : Bool) (ha : Adapter) (port : FcPort)
    → BuildsAll
        (flavour_2x00 a64 ha port)
        (if a64 then type1 ha.chip.qlafx00 else type0)
        10
        (if a64 then 2 else 3)
unfolding flavour_2x00
flavour_2x00-BuildsAll true ha port st req cmd v data_or small room fit =
    elim (Bool-cases (no_data cmd)) [
      | inr some_data ↦
          build_scsi_iocbs_64-Built st req cmd ha.chip.qlafx00 v some_data small room fit
      | inl dataless ↦
          build_scsi_iocbs_64-no_data ha.chip.qlafx00 st req cmd v dataless
            (empty_scatter cmd dataless data_or)
    ]
flavour_2x00-BuildsAll false ha port st req cmd v data_or small room fit =
    elim (Bool-cases (no_data cmd)) [
      | inr some_data ↦ build_scsi_iocbs_32-Built st req cmd v some_data small room fit
      | inl dataless ↦
          build_scsi_iocbs_32-no_data st req cmd v dataless (empty_scatter cmd dataless data_or)
    ]
