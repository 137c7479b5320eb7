-- ===== src/Template/Adds.antt =====
-- What the insertions of Template, Template/Registers and Template/Areas add to a dump.
use scst_qla2xxx.Base.{
  ℕ, zero, suc, ◌+◌, ◌-◌, ◌*◌, ◌%◌, ◌^◌, ◌<◌, ◌≤◌, ◌≡◌, refl, ◌∙◌, ◌⊎◌, Bool, true, false, Option,
  none, some, arith, bit_or, ◌==◌, if◌then◌else◌,
}
use mathlib.Core.Path.{subst}
use scst_qla2xxx.Base.Words.{u16, u32}
use scst_qla2xxx.Response.Sense.{copy_bytes}
use scst_qla2xxx.Template.{
  Device, Dump, le_byte, insertbuf, insert16, insert32, readn, read_reg, write_reg, iobase_addr,
  read_words, read_window,
}
use scst_qla2xxx.Template.Registers.{read_remote, read_pci}
use scst_qla2xxx.Template.Areas.{fill}

-- `n` bytes at the end, and none before or behind them.
pub record Adds {D : Type 0} (n : ℕ) (d d' : Dump D) : Type 0 where
  pub grows : d'.len ≡ d.len + n
  pub frame : (j : ℕ) → (j < d.len) ⊎ (d.len + n ≤ j) → d'.mem j ≡ d.mem j

-- A function that is to store `dwords` words from `at` on leaves the rest of the memory.
abbrev pub WritesOnly : {D : Type 0} → (D → ℕ → (ℕ → ℕ) → ℕ → ℕ) → ℕ → Type 0
WritesOnly {D} store dwords =
    (c : D) (at : ℕ) (m : ℕ → ℕ) (j : ℕ) → (j < at) ⊎ (at + dwords * 4 ≤ j) → store c at m j ≡ m j

-- The two functions of the chip that dump memory do so.
pub record StaysInside {D : Type 0} (dev : Device D) : Type 0 where
  pub ram : (start dwords : ℕ) → WritesOnly (λ c at m. (dev.dump_ram c start dwords at m).1) dwords
  pub mpi_ram :
      (start dwords : ℕ) → WritesOnly (λ c at m. (dev.dump_mpi_ram c start dwords at m).1) dwords

module _ {D : Type 0} where
  pub Adds-refl : (d : Dump D) → Adds 0 d d
  Adds-refl d = record { grows = omega arith; frame = λ j h. refl }

  pub Adds-trans : {m n : ℕ} {a b c : Dump D} → Adds m a b → Adds n b c → Adds (m + n) a c
  Adds-trans {m} {n} {a} {b} {c} p q = record {
    grows = omega (arith, p.grows, q.grows);
    frame = λ j h. q.frame j (later a b m n j p.grows h) ∙ p.frame j (sooner a m n j h);
  }
    where
      later :
          (a b : Dump D) (m n j : ℕ)
          → b.len ≡ a.len + m
          → (j < a.len) ⊎ (a.len + (m + n) ≤ j)
          → (j < b.len) ⊎ (b.len + n ≤ j)
      later a b m n j e h = ground arith

      sooner :
          (a : Dump D) (m n j : ℕ)
          → (j < a.len) ⊎ (a.len + (m + n) ≤ j)
          → (j < a.len) ⊎ (a.len + m ≤ j)
      sooner a m n j h = ground arith

  pub Adds-cast : {m n : ℕ} {a b : Dump D} → m ≡ n → Adds m a b → Adds n a b
  Adds-cast {a = a} {b = b} e p = subst (λ k. Adds k a b) e p

  pub insertbuf-Adds :
      (buf : Bool) (bytes : Option (ℕ → ℕ)) (n : ℕ) (d : Dump D)
      → Adds n d (insertbuf buf bytes n d)
  unfolding insertbuf copy_bytes
  insertbuf-Adds buf none n d = record { grows = refl; frame = λ j h. refl }
  insertbuf-Adds buf (some bytes) n d = record { grows = refl; frame = λ j h. ground arith }

  pub insert16-Adds : (buf : Bool) (v : ℕ) (d : Dump D) → Adds 2 d (insert16 buf v d)
  unfolding insert16
  insert16-Adds buf v d = insertbuf-Adds buf (some (le_byte (u16 v))) 2 d

  pub insert32-Adds : (buf : Bool) (v : ℕ) (d : Dump D) → Adds 4 d (insert32 buf v d)
  unfolding insert32
  insert32-Adds buf v d = insertbuf-Adds buf (some (le_byte (u32 v))) 4 d

  -- A change of the chip alone.
  pub chip-Adds : (d : Dump D) (c : D) → Adds 0 d (record d { chip = c })
  chip-Adds d c = record { grows = omega arith; frame = λ j h. refl }

module _ {D : Type 0} (dev : Device D) where
  pub readn-Adds :
      (buf : Bool) (width offset : ℕ) (d : Dump D) → Adds 4 d (readn dev buf width offset d)
  unfolding readn
  readn-Adds true width offset d =
      let w = if width == 1 then 1 else if width == 2 then 2 else 4 in
      let r = dev.read_reg d.chip w offset in
      Adds-trans (chip-Adds d r.0) (insert32-Adds true (r.1 % 256 ^ w) (record d { chip = r.0 }))
  readn-Adds false width offset d =
      insert32-Adds false (256 ^ (if width == 1 then 1 else if width == 2 then 2 else 4) - 1) d

  pub write_reg-Adds :
      (buf : Bool) (offset v : ℕ) (d : Dump D) → Adds 0 d (write_reg dev buf offset v d)
  unfolding write_reg
  write_reg-Adds true offset v d = chip-Adds d _
  write_reg-Adds false offset v d = Adds-refl d

  read_words-Adds :
      (buf : Bool) (width window addr count : ℕ) (d : Dump D)
      → Adds (8 * count) d (read_words dev buf width window addr count d)
  unfolding read_words
  read_words-Adds buf width window addr zero d = Adds-refl d
  read_words-Adds buf width window addr (suc count) d = Adds-cast (omega arith) (
      Adds-trans (insert32-Adds buf addr d) (
        Adds-trans (readn-Adds buf width window (insert32 buf addr d))
          (read_words-Adds buf width (window + width) (addr + 1) count _)))

  pub read_window-Adds :
      (buf : Bool) (addr offset count width : ℕ) (d : Dump D)
      → Adds (8 * count) d (read_window dev buf addr offset count width d)
  unfolding read_window
  read_window-Adds buf addr offset count width d = Adds-cast (omega arith) (
      Adds-trans (write_reg-Adds buf (iobase_addr dev) addr d)
        (read_words-Adds buf width offset addr count _))

  pub read_remote-Adds :
      (buf : Bool) (addr dwords : ℕ) (d : Dump D)
      → Adds (8 * dwords) d (read_remote dev buf addr dwords d)
  unfolding read_remote read_reg
  read_remote-Adds buf addr zero d = Adds-refl d
  read_remote-Adds buf addr (suc dwords) d = Adds-cast (omega arith) (
      Adds-trans (write_reg-Adds buf 0xc0 (bit_or addr 0x80000000) d) (
        Adds-trans (insert32-Adds buf addr _)
          (Adds-trans (readn-Adds buf 4 0xc4 _) (read_remote-Adds buf (addr + 4) dwords _))))

  pub read_pci-Adds :
      (buf : Bool) (addr dwords : ℕ) (d : Dump D)
      → Adds (8 * dwords) d (read_pci dev buf addr dwords d)
  unfolding read_pci
  read_pci-Adds buf addr zero d = Adds-refl d
  read_pci-Adds buf addr (suc dwords) d = Adds-cast (omega arith) (
      Adds-trans (chip-Adds d _) (
        Adds-trans (insert32-Adds buf addr _)
          (Adds-trans (insert32-Adds buf _ _) (read_pci-Adds buf (addr + 4) dwords _))))

  pub fill-Adds :
      (buf : Bool) (dump : D → ℕ → (ℕ → ℕ) → D × (ℕ → ℕ)) (dwords : ℕ) (d : Dump D)
      → WritesOnly (λ c at m. (dump c at m).1) dwords
      → Adds (dwords * 4) d (fill dev buf dump dwords d)
  unfolding fill
  fill-Adds true dump dwords d only = record {
    grows = refl;
    frame = λ j h. only d.chip d.len d.mem j h;
  }
  fill-Adds false dump dwords d only = record { grows = refl; frame = λ j h. refl }
