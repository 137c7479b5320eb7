-- ===== src/Template/Cost.antt =====
-- How many bytes each entry of a template adds, with a buffer and without, described apart from
-- the handlers.
use scst_qla2xxx.Base.{
  ℕ, zero, suc, ◌+◌, ◌-◌, ◌*◌, ◌≤◌, Bool, true, false, Option, none, some, arith, ◌==◌, ltb, ◌||◌,
  if◌then◌else◌,
}
use scst_qla2xxx.Template.{Que, Hw}
use scst_qla2xxx.Template.Entry.{Entry}
use scst_qla2xxx.Template.Calls.{
  Call, t256, t258, t260, t262, t263, t264, t268, t269, t270, t272, t273, t274, t275,
}

-- A queue that is there: four bytes and its ring. For one that is not, the sizing walk allows for the
-- default length.
abbrev pub que_cost : Bool → ℕ → Option Que → ℕ
que_cost buf dflt (some q) = 4 + q.length * 64
que_cost true dflt none = 0
que_cost false dflt none = 4 + dflt * 64

abbrev pub shadow_cost : Bool → Option Que → ℕ
shadow_cost buf (some q) = 8
shadow_cost true none = 0
shadow_cost false none = 8

-- Over the queues from `i` on, of which `left` are left.
abbrev pub sum_from : (ℕ → ℕ) → (i left : ℕ) → ℕ
sum_from f i zero = 0
sum_from f i (suc left) = f i + sum_from f (i + 1) left

abbrev pub range_cost : Option (ℕ × ℕ) → ℕ
range_cost none = 0
range_cost (some (start, last)) =
    if ltb last start || (last == 0) then 0 else (last - start + 1) * 4

abbrev pub trace_cost : Option (ℕ → ℕ) → ℕ → ℕ
trace_cost none size = 0
trace_cost (some bytes) size = size

abbrev pub cost : Bool → Hw → Entry → Call → ℕ
cost buf hw ent t256 = 8 * ent.reg_count
cost buf hw ent t258 = 8 * ent.reg_count
cost buf hw ent t260 = 8
cost buf hw ent t262 = range_cost (
    if ent.ram_area == 1
    then some (ent.start_addr, ent.end_addr)
    else if ent.ram_area == 2
    then some (ent.start_addr, hw.fw_memory_size)
    else if ent.ram_area == 3
    then some (hw.fw_shared_ram_start, hw.fw_shared_ram_end)
    else none)
cost buf hw ent t263 =
    if ent.queue_type == 1
    then sum_from (λ i. que_cost buf 2048 (hw.req_q_map i)) 0 hw.max_req_queues
    else if ent.queue_type == 2
    then sum_from (λ i. que_cost buf 128 (hw.rsp_q_map i)) 0 hw.max_rsp_queues
    else 0
cost buf hw ent t264 = trace_cost hw.fce 65536
cost buf hw ent t268 = if ent.buf_type == 1 then trace_cost hw.eft 65536 else 0
cost buf hw ent t269 = 20
cost buf hw ent t270 = 8 * ent.count
cost buf hw ent t272 = ent.count * 4
cost buf hw ent t273 = 8 * ent.count
cost buf hw ent t274 =
    if ent.queue_type == 1
    then sum_from (λ i. shadow_cost buf (hw.req_q_map i)) 0 hw.max_req_queues
    else if ent.queue_type == 2
    then sum_from (λ i. shadow_cost buf (hw.rsp_q_map i)) 0 hw.max_rsp_queues
    else 0
cost buf hw ent t275 =
    if ent.length == 0 || ltb ent.entry_size (20 + ent.length) then 0 else ent.length
cost buf hw ent _ = 0

sum_from-le :
    (f g : ℕ → ℕ) → ((i : ℕ) → f i ≤ g i) → (i left : ℕ) → sum_from f i left ≤ sum_from g i left
sum_from-le f g h i zero = omega arith
sum_from-le f g h i (suc left) = omega (arith, h i, sum_from-le f g h (i + 1) left)

que_cost-le : (dflt : ℕ) (q : Option Que) → que_cost true dflt q ≤ que_cost false dflt q
que_cost-le dflt none = omega arith
que_cost-le dflt (some q) = omega arith

shadow_cost-le : (q : Option Que) → shadow_cost true q ≤ shadow_cost false q
shadow_cost-le none = omega arith
shadow_cost-le (some q) = omega arith

-- The sizing walk allows for at least what is dumped.
pub cost-le : (hw : Hw) (ent : Entry) (call : Call) → cost true hw ent call ≤ cost false hw ent call
cost-le hw ent t263 = ground (
  arith,
  sum_from-le (λ i. que_cost true 2048 (hw.req_q_map i)) (λ i. que_cost false 2048 (hw.req_q_map i))
      (λ i. que_cost-le 2048 (hw.req_q_map i)) 0 hw.max_req_queues,
  sum_from-le (λ i. que_cost true 128 (hw.rsp_q_map i)) (λ i. que_cost false 128 (hw.rsp_q_map i))
      (λ i. que_cost-le 128 (hw.rsp_q_map i)) 0 hw.max_rsp_queues,
)
cost-le hw ent t274 = ground (
  arith,
  sum_from-le (λ i. shadow_cost true (hw.req_q_map i)) (λ i. shadow_cost false (hw.req_q_map i))
      (λ i. shadow_cost-le (hw.req_q_map i)) 0 hw.max_req_queues,
  sum_from-le (λ i. shadow_cost true (hw.rsp_q_map i)) (λ i. shadow_cost false (hw.rsp_q_map i))
      (λ i. shadow_cost-le (hw.rsp_q_map i)) 0 hw.max_rsp_queues,
)
cost-le hw ent _ = omega arith
