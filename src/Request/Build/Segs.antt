-- ===== src/Request/Build/Segs.antt =====
-- The builders of Request/Build (drivers/scsi/qla2xxx/qla_iocb.c) beside the counts of
-- Request/Calc and what the chip reads.
use scst_qla2xxx.Base.{ℕ, ◌+◌, ◌<◌, ◌≤◌, ◌≡◌, ◌≢◌, sym, inl, Bool, false, arith, ap, ◌∙◌, refl}
use mathlib.Core.Path.{ap₂, subst₂}
use scst_qla2xxx.Base.Lists.{length}
use scst_qla2xxx.Request.Queue.{Ring, ReqQue}
use scst_qla2xxx.Request.Calc.{calc_iocbs_32, calc_iocbs_64, calc_iocbs_24xx}
use scst_qla2xxx.Request.Ring.{IsRing, advance, advance-advance, store_ne}
use scst_qla2xxx.Request.Segments.{Cont, type0, type1, Cursor, conts, load_segments, fw_segments}
use scst_qla2xxx.Request.Segments.Count.{
  Keeps, Keeps-trans, load_segments-Loaded, conts-calc_iocbs_32, conts-calc_iocbs_64,
  conts-calc_iocbs_24xx,
}
use scst_qla2xxx.Request.Segments.Outside.{KeepsOthers, Outside-first, load_segments-KeepsOthers}
use scst_qla2xxx.Request.Segments.ReadBack.{AllFit, fw_segments-load_segments}
use scst_qla2xxx.Base.Words.{set_lo16}
use scst_qla2xxx.Adapter.{Direction, ScsiCmnd, Stats}
use scst_qla2xxx.Request.Build.{
  build_scsi_iocbs_32, build_scsi_iocbs_64, build_scsi_iocbs_24xx, no_data, set_direction, set_word,
  pkt_word,
}

-- What each builder does for a command with data: `n` segments take `calc` entries, the command's
-- own and the continuations, every word of the ring's other entries and the fields of the queue but the
-- index and the pointer are as they were, and the chip reads back exactly the mapped scatter list from
-- word `w` of the command's entry on.
pub record Built (c : Cont) (w avail calc : ℕ) (req req' : ReqQue) (cmd : ScsiCmnd) : Type 0 where
  pub ring : IsRing req'
  pub keeps : Keeps req req'
  pub some_entry : 0 < calc
  pub others : KeepsOthers req.length req.ring_index calc req.ring req'.ring
  pub index : advance req.length req'.ring_index 1 ≡ advance req.length req.ring_index calc
  pub reads :
      fw_segments c req'.ring req.length req.ring_ptr w avail (length cmd.mapped) ≡ cmd.mapped

-- Only the entry at the pointer differs.
abbrev pub OnlyAt : ℕ → Ring → Ring → Type 0
OnlyAt ptr m m' = (e x : ℕ) → ptr ≢ e → m' e x ≡ m e x

same-IsRing :
    {req now : ReqQue}
    → IsRing req
    → Keeps req now
    → now.ring_index ≡ req.ring_index
    → now.ring_ptr ≡ req.ring_ptr
    → IsRing now
same-IsRing v k i p = ground arith

-- The loop from a queue that agrees with `req` but for the words of the ring.
load-Built :
    (c : Cont) (w avail calc : ℕ) (req now : ReqQue) (cmd : ScsiCmnd)
    → IsRing req
    → Keeps req now
    → now.ring_index ≡ req.ring_index
    → now.ring_ptr ≡ req.ring_ptr
    → OnlyAt req.ring_ptr req.ring now.ring
    → 1 + conts c avail (length cmd.mapped) ≡ calc
    → calc ≤ req.length
    → AllFit c cmd.mapped
    → Built c w avail calc req
        (load_segments c (record { req = now; word = w; avail_dsds = avail }) cmd.mapped)
        cmd
load-Built c w avail calc req now cmd v k i p only count room fit =
    let v' : IsRing now = same-IsRing v k i p in
    let s : Cursor = record { req = now; word = w; avail_dsds = avail } in
    let l = load_segments-Loaded c s cmd.mapped v' in
    let n = conts c avail (length cmd.mapped) in
    record {
      ring = l.ring;
      keeps = Keeps-trans k l.keeps;
      some_entry = omega (arith, count);
      others = λ e x o.
          load_segments-KeepsOthers c now w avail cmd.mapped v'
            (omega (arith, count, room, k.keeps_length)) e x
            (record {
              inside = omega (arith, o.inside, k.keeps_length);
              not_taken = λ j lt q.
                  o.not_taken j (omega (arith, count, lt))
                    (ap₂ (λ len at. advance len at j) (sym k.keeps_length) (sym i) ∙ q);
            })
          ∙ only e x (Outside-first req calc e v (omega (arith, count)) o);
      index =
          ap (λ j. advance req.length j 1)
            (l.index ∙ ap₂ (λ len j. advance len j n) k.keeps_length i)
          ∙ advance-advance req.length req.ring_index n 1
          ∙ ap (advance req.length req.ring_index) (omega arith);
      reads =
          subst₂
            (λ len ptr.
              fw_segments c (load_segments c s cmd.mapped).ring len ptr w avail (length cmd.mapped)
              ≡ cmd.mapped)
            k.keeps_length p
            (fw_segments-load_segments c now w avail cmd.mapped v' (omega (arith, k.keeps_length))
              fit);
    }

-- Stores into the command's packet leave the rest of the queue.
set_word-Keeps : (req : ReqQue) (w x : ℕ) → Keeps req (set_word req w x)
set_word-Keeps req w x = ground arith

pub set_word-OnlyAt :
    (req : ReqQue) (w x : ℕ) → OnlyAt req.ring_ptr req.ring (set_word req w x).ring
set_word-OnlyAt req w x e y ne = store_ne req.ring req.ring_ptr w x e y (inl ne)

set_direction-OnlyAt :
    (req : ReqQue) (d : Direction) → OnlyAt req.ring_ptr req.ring (set_direction req d).ring
unfolding set_direction
set_direction-OnlyAt req d e y ne = ground (
  arith,
  store_ne req.ring req.ring_ptr 6 (set_lo16 (pkt_word req 6) 1) e y (inl ne),
  store_ne req.ring req.ring_ptr 6 (set_lo16 (pkt_word req 6) 2) e y (inl ne),
)

set_direction-Keeps :
    (req : ReqQue) (d : Direction)
    → Keeps req (set_direction req d)
      × ((set_direction req d).ring_index ≡ req.ring_index)
      × ((set_direction req d).ring_ptr ≡ req.ring_ptr)
unfolding set_direction
set_direction-Keeps req d = ground arith

module _ (st : Stats) (req : ReqQue) (cmd : ScsiCmnd) where
  -- A Command Type 7 with data, of fewer than 65536 segments whose addresses have 64 bits and
  -- lengths 32, that is built on a sound ring with as many entries as qla24xx_calc_iocbs counts,
  -- and no more than the ring has, takes exactly that many entries, keeps every word of every
  -- other entry of the ring and the other fields of the queue, and the chip reads its scatter
  -- list back.
  pub build_scsi_iocbs_24xx-Built :
      (is_qlafx00 : Bool)
      → IsRing req
      → no_data cmd ≡ false
      → length cmd.mapped < 65536
      → calc_iocbs_24xx (length cmd.mapped) ≤ req.length
      → AllFit (type1 is_qlafx00) cmd.mapped
      → Built
          (type1 is_qlafx00)
          13
          1
          (calc_iocbs_24xx (length cmd.mapped))
          req
          (build_scsi_iocbs_24xx is_qlafx00 st req cmd).1
          cmd
  unfolding build_scsi_iocbs_24xx
  build_scsi_iocbs_24xx-Built b v some_data small room fit =
      let typed = set_word req 0 0x18 in
      let (k, i, p) = set_direction-Keeps typed cmd.direction in
      rw some_data (
        load-Built (type1 b) 13 1 _ req (set_direction typed cmd.direction) cmd v
          (Keeps-trans (set_word-Keeps req 0 0x18) k) i p
          (λ e x ne.
            set_direction-OnlyAt typed cmd.direction e x ne ∙ set_word-OnlyAt req 0 0x18 e x ne)
          (conts-calc_iocbs_24xx b (length cmd.mapped) small) room fit)

  -- The same as build_scsi_iocbs_24xx-Built of Command Type 3 and qla2x00_calc_iocbs_64: exactly
  -- as many entries as counted, every word of every other entry of the ring and the other fields
  -- of the queue kept, and the scatter list read back.
  pub build_scsi_iocbs_64-Built :
      (is_qlafx00 : Bool)
      → IsRing req
      → no_data cmd ≡ false
      → length cmd.mapped < 65536
      → calc_iocbs_64 (length cmd.mapped) ≤ req.length
      → AllFit (type1 is_qlafx00) cmd.mapped
      → Built
          (type1 is_qlafx00)
          10
          2
          (calc_iocbs_64 (length cmd.mapped))
          req
          (build_scsi_iocbs_64 is_qlafx00 st req cmd).1
          cmd
  unfolding build_scsi_iocbs_64
  build_scsi_iocbs_64-Built b v some_data small room fit = rw some_data (
      load-Built (type1 b) 10 2 _ req _ cmd v (ground arith) refl refl
        (λ e x ne.
          set_word-OnlyAt (set_word req 0 0x19) 3 _ e x ne ∙ set_word-OnlyAt req 0 0x19 e x ne)
        (conts-calc_iocbs_64 b (length cmd.mapped) small) room fit)

  -- The same as build_scsi_iocbs_24xx-Built of Command Type 2 and qla2x00_calc_iocbs_32, for
  -- addresses of 32 bits: exactly as many entries as counted, the rest of the queue kept, and the
  -- scatter list read back.
  pub build_scsi_iocbs_32-Built :
      IsRing req
      → no_data cmd ≡ false
      → length cmd.mapped < 65536
      → calc_iocbs_32 (length cmd.mapped) ≤ req.length
      → AllFit type0 cmd.mapped
      → Built type0 10 3
          (calc_iocbs_32 (length cmd.mapped))
          req
          (build_scsi_iocbs_32 st req cmd).1
          cmd
  unfolding build_scsi_iocbs_32
  build_scsi_iocbs_32-Built v some_data small room fit = rw some_data (
      load-Built type0 10 3 _ req _ cmd v (ground arith) refl refl
        (λ e x ne.
          set_word-OnlyAt (set_word req 0 0x11) 3 _ e x ne ∙ set_word-OnlyAt req 0 0x11 e x ne)
        (conts-calc_iocbs_32 (length cmd.mapped) small) room fit)
