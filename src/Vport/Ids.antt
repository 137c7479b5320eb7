-- ===== src/Vport/Ids.antt =====
-- The ids of virtual ports: qla24xx_allocate_vp_id and qla24xx_deallocate_vp_id
-- (drivers/scsi/qla2xxx/qla_mid.c).
use scst_qla2xxx.Base.{ℕ, ◌+◌, true, false, List, [], ◌∷◌, ◌++◌, ltb, ◌==◌, if◌then◌else◌}
use scst_qla2xxx.Base.Mem.{update}
use scst_qla2xxx.Base.Bitmap.{first_zero}
use scst_qla2xxx.Base.Words.{u16}
use scst_qla2xxx.Vport.{Hosts, set_vha}

-- The id is free, and in range.
unfoldable pub take_vp_id : Hosts → ℕ → ℕ → Hosts
unfolding set_vha
take_vp_id hw h vp_id = record (set_vha hw h (record (hw.hosts h) { vp_idx = u16 vp_id })) {
  vp_idx_map = update hw.vp_idx_map vp_id true;
  num_vhosts = u16 (hw.num_vhosts + 1);
  vp_list = hw.vp_list ++ (h ∷ []);
}

-- The result is the id, which is beyond the maximum when there is none.
unfoldable pub allocate_vp_id : Hosts → ℕ → Hosts × ℕ
unfolding take_vp_id
allocate_vp_id hw h =
    let vp_id = first_zero hw.vp_idx_map (hw.max_npiv_vports + 1) 0 in
    if ltb hw.max_npiv_vports vp_id then (hw, vp_id) else (take_vp_id hw h vp_id, vp_id)

-- list_del
unfoldable pub remove : ℕ → List ℕ → List ℕ
remove h [] = []
remove h (x ∷ xs) = let rest = remove h xs in if x == h then xs else x ∷ rest

-- Once no one uses the host. The counter is 16 bits wide.
unfoldable pub deallocate_vp_id : Hosts → ℕ → Hosts
unfolding remove
deallocate_vp_id hw h = record hw {
  vp_list = remove h hw.vp_list;
  num_vhosts = u16 (hw.num_vhosts + 65535);
  vp_idx_map = update hw.vp_idx_map (hw.hosts h).vp_idx false;
}
