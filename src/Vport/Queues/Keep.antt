-- ===== src/Vport/Queues/Keep.antt =====
-- The maps of queue ids and of queues agree, whether a creation succeeds or fails (Vport/Queues).
use scst_qla2xxx.Base.{
  ℕ, ◌<◌, ◌≡◌, ◌≢◌, ◌∙◌, ◌⊎◌, inl, inr, refl, ap, sym, true, false, none, some, not, ◌||◌, leb,
  bit_or, ◌==◌, arith, Bool-cases, ℕ_discrete,
}
use scst_qla2xxx.Base.Bitmap.{first_zero, first_zero-le, first_zero-clear}
use scst_qla2xxx.Base.Words.{u16}
use scst_qla2xxx.Base.Mem.{update, update_self, update_ne}
use scst_qla2xxx.Vport.Queues.{
  Queues, NewReq, ReqIo, ReqArgs, free_req_que, add_req, init_req, new_req, create_req_que,
  delete_req_que, alloc_outstanding_cmds,
}

-- Queue 0 has its id, and a queue without an id is not there.
pub record IsConsistent (q : Queues) : Type 0 where
  pub base_used : q.req_qid_map 0 ≡ true
  pub absent : (j : ℕ) → q.req_qid_map j ≡ false → q.req_q_map j ≡ none
  pub word : q.max_req_queues < 65536

pub record SameMaps (a b : Queues) : Type 0 where
  pub same_bits : (j : ℕ) → b.req_qid_map j ≡ a.req_qid_map j
  pub same_ques : (j : ℕ) → b.req_q_map j ≡ a.req_q_map j

pub record AddedReq (a b : Queues) (id : ℕ) : Type 0 where
  pub positive : 0 < id
  pub in_range : id < a.max_req_queues
  pub was_free : a.req_qid_map id ≡ false
  pub now_used : b.req_qid_map id ≡ true
  pub que : NewReq
  pub at_id : b.req_q_map id ≡ some que
  pub has_id : que.id ≡ id
  pub other_bits : (j : ℕ) → id ≢ j → b.req_qid_map j ≡ a.req_qid_map j
  pub other_ques : (j : ℕ) → id ≢ j → b.req_q_map j ≡ a.req_q_map j

-- The maps after a queue was freed that has an id.
record Freed (a b : Queues) (id : ℕ) : Type 0 where
  freed_bits : (j : ℕ) → b.req_qid_map j ≡ update a.req_qid_map id false j
  freed_ques : (j : ℕ) → b.req_q_map j ≡ update a.req_q_map id none j

free_req_que-Freed : (q : Queues) (req : NewReq) → 0 < req.id → Freed q (free_req_que q req) req.id
unfolding free_req_que
free_req_que-Freed q req pos = record {
  freed_bits = λ j. ground arith;
  freed_ques = λ j. ground arith;
}

-- What an addition and the removal leave.
Freed-Same :
    (a b c : Queues) (id : ℕ)
    → AddedReq a b id
    → a.req_q_map id ≡ none
    → Freed b c id
    → SameMaps a c
Freed-Same a b c id d gone f = record {
  same_bits = λ j. elim (ℕ_discrete id j) [
    | yes e ↦ f.freed_bits j ∙ ground (arith, ap a.req_qid_map e, d.was_free)
    | no ne ↦ f.freed_bits j ∙ update_ne b.req_qid_map false ne ∙ d.other_bits j ne
  ];
  same_ques = λ j. elim (ℕ_discrete id j) [
    | yes e ↦ f.freed_ques j ∙ ground (arith, ap a.req_q_map e, gone)
    | no ne ↦ f.freed_ques j ∙ update_ne b.req_q_map none ne ∙ d.other_ques j ne
  ];
}

module _ (q : Queues) (req : NewReq) (pos : 0 < req.id) (lt : req.id < q.max_req_queues)
    (free : q.req_qid_map req.id ≡ false) where
  add_req-Added : AddedReq q (add_req q req) req.id
  unfolding add_req
  add_req-Added = record {
    positive = pos;
    in_range = lt;
    was_free = free;
    now_used = update_self q.req_qid_map req.id true;
    que = req;
    at_id = update_self q.req_q_map req.id (some req);
    has_id = refl;
    other_bits = λ j ne. update_ne q.req_qid_map true ne;
    other_ques = λ j ne. update_ne q.req_q_map (some req) ne;
  }

  -- The id is cleared twice on this path.
  twice-Freed :
      Freed
        (add_req q req)
        (free_req_que
          (record (add_req q req) { req_qid_map = update (add_req q req).req_qid_map req.id false })
          req)
        req.id
  unfolding free_req_que add_req
  twice-Freed = record { freed_bits = λ j. ground arith; freed_ques = λ j. ground arith }

  -- A free id goes to the queue, or stays free.
  init_req_lem :
      (io : ReqIo)
      → q.req_q_map req.id ≡ none
      → (((init_req io q req).1 ≡ 0) × SameMaps q ((init_req io q req).0))
        ⊎ AddedReq q ((init_req io q req).0) ((init_req io q req).1)
  unfolding init_req
  init_req_lem io gone = elim (Bool-cases (io.init req == 0)) [
    | inl e ↦ rw e (inr add_req-Added)
    | inr e ↦
        rw e (inl (refl, Freed-Same q (add_req q req) _ req.id add_req-Added gone twice-Freed))
  ]

not_base : (q : Queues) (id : ℕ) → IsConsistent q → q.req_qid_map id ≡ false → 0 < id
not_base q id c e = elim (ℕ_discrete id 0) [
  | yes z ↦ absurd (ground (arith, ap q.req_qid_map z, c.base_used))
  | no z ↦ omega arith
]

SameMaps-refl : (q : Queues) → SameMaps q q
SameMaps-refl q = record { same_bits = λ j. refl; same_ques = λ j. refl }

-- With consistent maps of queues, qla25xx_create_req_que either gives 0 and leaves both maps as
-- they were, wherever it fails, or gives an id other than 0 and in range, that was free, and
-- enters the new queue under it and nothing else.
pub create_req_que_lem :
    (io : ReqIo) (q : Queues) (args : ReqArgs)
    → IsConsistent q
    → (((create_req_que io q args).1 ≡ 0) × SameMaps q ((create_req_que io q args).0))
      ⊎ AddedReq q ((create_req_que io q args).0) ((create_req_que io q args).1)
unfolding create_req_que new_req
create_req_que_lem io q args c =
    let id = first_zero q.req_qid_map q.max_req_queues 0 in
    let num = (alloc_outstanding_cmds io.slots).0 in
    let w = c.word in
    let le = (first_zero-le q.req_qid_map q.max_req_queues 0).1 in
    let word : u16 id ≡ id = omega arith in
    let req = new_req args (u16 id) num in
    let same : SameMaps q q = SameMaps-refl q in
    elim (Bool-cases
      (not io.have_req || not io.have_ring || not (alloc_outstanding_cmds io.slots).1)) [
        | inl e ↦ rw e (inl (refl, same))
        | inr e ↦ elim (Bool-cases (leb q.max_req_queues (u16 id))) [
          | inl full ↦ rw (e, full) (inl (refl, same))
          | inr room ↦
              let lt : id < q.max_req_queues = ground arith in
              let free : q.req_qid_map id ≡ false =
                first_zero-clear q.req_qid_map q.max_req_queues 0 (omega arith) in
              let at : q.req_qid_map (u16 id) ≡ false = ap q.req_qid_map word ∙ free in
              rw (e, room)
                (init_req_lem q req (not_base q (u16 id) c at) (omega arith) at io
                  (c.absent (u16 id) at))
        ]
      ]

delete_req_que-Freed :
    (init : NewReq → ℕ) (q : Queues) (req : NewReq)
    → 0 < req.id
    → (delete_req_que init q req).1 ≡ 0
    → Freed q ((delete_req_que init q req).0) req.id
unfolding delete_req_que
delete_req_que-Freed init q req pos ok =
    let going = record req { options = bit_or req.options 1 } in
    elim (Bool-cases (init going == 0)) [
      | inl e ↦ rw e (free_req_que-Freed q going pos)
      | inr e ↦ absurd (ground arith)
    ]

Freed-at : {a b : Queues} {i j : ℕ} → Freed a b i → i ≡ j → Freed a b j
Freed-at f e = rw (sym e) f

-- With consistent maps, a request queue that was created and that the chip agrees to delete
-- leaves both maps as they were before its creation.
pub delete_req_que-create_req_que :
    (io : ReqIo) (q : Queues) (args : ReqArgs) (init : NewReq → ℕ) (req : NewReq)
    → IsConsistent q
    → 0 < (create_req_que io q args).1
    → (create_req_que io q args).0.req_q_map (create_req_que io q args).1 ≡ some req
    → (delete_req_que init ((create_req_que io q args).0) req).1 ≡ 0
    → SameMaps q ((delete_req_que init ((create_req_que io q args).0) req).0)
delete_req_que-create_req_que io q args init req c pos at ok =
    elim (create_req_que_lem io q args c) [
      | inl (e, s) ↦ absurd (omega (arith, e))
      | inr d ↦
          let id = (create_req_que io q args).1 in
          let same : req ≡ d.que =
            ap (λ o. elim o [ none ↦ req | some r ↦ r ]) (sym at ∙ d.at_id) in
          let has_id : req.id ≡ id = ap (λ r. r.id) same ∙ d.has_id in
          let b = (create_req_que io q args).0 in
          Freed-Same q b _ id d (c.absent id d.was_free)
            (Freed-at (delete_req_que-Freed init b req (omega arith) ok) has_id)
    ]
