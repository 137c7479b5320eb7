-- ===== src/Template/Calls.antt =====
-- The handlers of entries by their types: ql27xx_fwdt_entry_call_list and qla27xx_find_entry of
-- drivers/scsi/qla2xxx/qla_tmpl.c.
use scst_qla2xxx.Base.{ℕ, Bool, true, false, List, [], ◌∷◌, ltb, ◌==◌, if◌then◌else◌}

-- The pointers to the handlers.
pub data Call : Type 0 where
  t0 t255 t256 t257 t258 t259 t260 t261 t262 t263 t264 t265 t266 t267 t268 t269 : Call
  t270 t271 t272 t273 t274 t275 other : Call

-- ql27xx_fwdt_entry_call_list without its last line, whose type is the largest `uint`.
unfoldable pub call_list : List (ℕ × Call)
call_list =
    (0, t0)
    ∷ (255, t255)
    ∷ (256, t256)
    ∷ (257, t257)
    ∷ (258, t258)
    ∷ (259, t259)
    ∷ (260, t260)
    ∷ (261, t261)
    ∷ (262, t262)
    ∷ (263, t263)
    ∷ (264, t264)
    ∷ (265, t265)
    ∷ (266, t266)
    ∷ (267, t267)
    ∷ (268, t268)
    ∷ (269, t269)
    ∷ (270, t270)
    ∷ (271, t271)
    ∷ (272, t272)
    ∷ (273, t273)
    ∷ (274, t274)
    ∷ (275, t275)
    ∷ []

-- `while (list->type < type) list++;`, and the comparison after it. The last line's handler is the
-- one for other types too.
unfoldable pub find_call : List (ℕ × Call) → ℕ → Call
find_call [] type_of = other
find_call ((t, call) ∷ list) type_of =
    let rest = find_call list type_of in
    if ltb t type_of then rest else if t == type_of then call else other

unfoldable pub find_entry : ℕ → Call
unfolding call_list find_call
find_entry type_of = find_call call_list type_of

-- Only the entry at the end says that the walk is over.
abbrev pub terminates : Call → Bool
terminates t255 = true
terminates _ = false
