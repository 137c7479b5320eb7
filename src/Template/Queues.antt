-- ===== src/Template/Queues.antt =====
-- The entries that dump queues and their shadow indices: qla27xx_fwdt_entry_t263 and t274 of
-- drivers/scsi/qla2xxx/qla_tmpl.c.
use scst_qla2xxx.Base.{
  ℕ, zero, suc, ◌+◌, ◌*◌, Bool, true, false, Option, none, some, ◌||◌, ◌==◌, if◌then◌else◌,
}
use scst_qla2xxx.Template.{Que, Hw, Dump, insertbuf, insert16, insert32}
use scst_qla2xxx.Template.Entry.{Entry, skip, request_entry_cnt_24xx, response_entry_cnt_mq}

unfoldable pub shadow_of : Option Que → ℕ
shadow_of none = 0
shadow_of (some q) = elim q.shadow [ none ↦ 0 | some word ↦ word ]

is_present : Option Que → Bool
is_present none = false
is_present (some q) = true

module _ {D : Type 0} where
  -- One queue of the map: its number, its length, and its ring of 64-byte entries. The count of
  -- queues goes with the dump.
  unfoldable pub dump_que : Bool → Option Que → (dflt i : ℕ) → ℕ × Dump D → ℕ × Dump D
  unfolding insert16 insertbuf
  dump_que buf none dflt i (n, d) =
      if buf
      then (n, d)
      else (n + 1, insertbuf buf none (dflt * 64) (insert16 buf dflt (insert16 buf i d)))
  dump_que buf (some q) dflt i (n, d) = (
    n + 1,
    insertbuf buf (some q.ring) (q.length * 64) (insert16 buf q.length (insert16 buf i d)),
  )

  unfoldable pub dump_queues : Bool → (ℕ → Option Que) → (dflt i left : ℕ) → ℕ × Dump D → ℕ × Dump D
  unfolding dump_que
  dump_queues buf que_map dflt i zero r = r
  dump_queues buf que_map dflt i (suc left) r =
      dump_queues buf que_map dflt (i + 1) left (dump_que buf (que_map i) dflt i r)

  counted : Bool → Entry → ℕ × Dump D → Entry × Dump D
  counted buf ent (n, d) = (if buf then record ent { num_queues = n } else ent, d)

  -- T263_QUEUE_TYPE_REQ is 1, T263_QUEUE_TYPE_RSP 2.
  unfoldable pub entry_t263 : Bool → Hw → Entry → Dump D → Entry × Dump D
  unfolding skip dump_queues counted
  entry_t263 buf hw ent d =
      if ent.queue_type == 1
      then counted buf ent
          (dump_queues buf hw.req_q_map request_entry_cnt_24xx 0 hw.max_req_queues (0, d))
      else if ent.queue_type == 2
      then counted buf ent
          (dump_queues buf hw.rsp_q_map response_entry_cnt_mq 0 hw.max_rsp_queues (0, d))
      else counted buf (skip buf ent) (0, d)

  unfoldable pub dump_shadow : Bool → Option Que → (i : ℕ) → ℕ × Dump D → ℕ × Dump D
  unfolding is_present
  dump_shadow buf q i (n, d) =
      if is_present q || (if buf then false else true)
      then (n + 1, insert32 buf (shadow_of q) (insert16 buf 1 (insert16 buf i d)))
      else (n, d)

  unfoldable pub dump_shadows : Bool → (ℕ → Option Que) → (i left : ℕ) → ℕ × Dump D → ℕ × Dump D
  unfolding dump_shadow
  dump_shadows buf que_map i zero r = r
  dump_shadows buf que_map i (suc left) r =
      dump_shadows buf que_map (i + 1) left (dump_shadow buf (que_map i) i r)

  -- Without any queue the entry is skipped.
  shadowed : Bool → Entry → ℕ × Dump D → Entry × Dump D
  unfolding skip counted
  shadowed buf ent (n, d) =
      let (ent', d') = counted buf ent (n, d) in (if n == 0 then skip buf ent' else ent', d')

  -- T274_QUEUE_TYPE_REQ_SHAD is 1, T274_QUEUE_TYPE_RSP_SHAD 2.
  unfoldable pub entry_t274 : Bool → Hw → Entry → Dump D → Entry × Dump D
  unfolding skip dump_shadows shadowed
  entry_t274 buf hw ent d =
      if ent.queue_type == 1
      then shadowed buf ent (dump_shadows buf hw.req_q_map 0 hw.max_req_queues (0, d))
      else if ent.queue_type == 2
      then shadowed buf ent (dump_shadows buf hw.rsp_q_map 0 hw.max_rsp_queues (0, d))
      else shadowed buf (skip buf ent) (0, d)
