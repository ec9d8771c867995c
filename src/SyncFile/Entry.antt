-- ===== src/SyncFile/Entry.antt =====
-- The records of a sync file, read as `sync_file::next` reads them.
pub mod Layout
use Prim.Native.Nat.{bit_and}
use rvnsyncpoint.Base.{ℕ, zero, suc, ◌+◌, ◌-◌, ◌%◌, ◌^◌, not, ◌==◌, if◌then◌else◌}
use rvnsyncpoint.Stream.{Read, read_u8, read_u16, read_u32, read_u64, ◌>>=◌, ◌>>◌, pure}
use rvnsyncpoint.SyncPoint.{SyncPoint, SyncPointV2}
use rvnsyncpoint.SyncPoint.Types.{interrupt}

-- `enum type_flags`
abbrev pub irq_mask : ℕ
irq_mask = 0xff

abbrev pub is_irq : ℕ
is_irq = 0x100

-- What a record holds beside the point: its `type` and its `data_offset`.
pub record Entry (A : Type 0) : Type 0 where
  pub point : A
  pub type : ℕ
  pub data_offset : ℕ

-- A record of 80 bytes. `old_sp` is the local variable with what its memory held before.
unfoldable pub read_v2 : SyncPointV2 → Read (Entry SyncPointV2)
read_v2 old_sp = do
  tsc ← read_u64
  type ← read_u16
  cs ← read_u16
  eax ← read_u32
  ebx ← read_u32
  ecx ← read_u32
  edx ← read_u32
  esi ← read_u32
  edi ← read_u32
  ebp ← read_u32
  esp ← read_u32
  eip ← read_u32
  eflags ← read_u32
  cr0 ← read_u32
  cr2 ← read_u32
  cr3 ← read_u32
  cr4 ← read_u32
  data_offset ← read_u32
  fpu_sw ← read_u16
  fpu_cw ← read_u16
  fpu_tags ← read_u8
  fault_error_code ← read_u16
  padding ← read_u8
  pure (record {
    point = record old_sp {
      tsc = tsc;
      cs = cs;
      eax = eax;
      ebx = ebx;
      ecx = ecx;
      edx = edx;
      esi = esi;
      edi = edi;
      ebp = ebp;
      esp = esp;
      eip = eip;
      eflags = eflags;
      cr0 = cr0;
      cr2 = cr2;
      cr3 = cr3;
      cr4 = cr4;
      fpu_sw = fpu_sw;
      fpu_cw = fpu_cw;
      fpu_tags = fpu_tags;
      fault_error_code = fault_error_code;
    };
    type = type;
    data_offset = data_offset;
  })

-- The loop over the padding bytes.
unfoldable pub skip : ℕ → Read (Unit {0})
skip zero f = (tt, f)
skip (suc n) f = skip n (read_u8 f).1

-- `record_size_ - 201`, an unsigned 32-bit number.
abbrev pub padding_size : ℕ → ℕ
padding_size record_size = (record_size + 2 ^ 32 - 201) % 2 ^ 32

-- A record of `record_size` bytes, read into the members of the current point.
unfoldable pub read_v3 : ℕ → SyncPoint → Read (Entry SyncPoint)
unfolding skip
read_v3 record_size current = do
  tsc ← read_u64
  type ← read_u16
  cs ← read_u16
  rax ← read_u64
  rbx ← read_u64
  rcx ← read_u64
  rdx ← read_u64
  rsi ← read_u64
  rdi ← read_u64
  rbp ← read_u64
  rsp ← read_u64
  r8 ← read_u64
  r9 ← read_u64
  r10 ← read_u64
  r11 ← read_u64
  r12 ← read_u64
  r13 ← read_u64
  r14 ← read_u64
  r15 ← read_u64
  rip ← read_u64
  rflags ← read_u64
  cr0 ← read_u64
  cr2 ← read_u64
  cr3 ← read_u64
  cr4 ← read_u64
  data_offset ← read_u32
  fpu_sw ← read_u16
  fpu_cw ← read_u16
  fpu_tags ← read_u8
  fault_error_code ← read_u32
  skip (padding_size record_size)
  pure (record {
    point = record current {
      tsc = tsc;
      cs = cs;
      rax = rax;
      rbx = rbx;
      rcx = rcx;
      rdx = rdx;
      rsi = rsi;
      rdi = rdi;
      rbp = rbp;
      rsp = rsp;
      r8 = r8;
      r9 = r9;
      r10 = r10;
      r11 = r11;
      r12 = r12;
      r13 = r13;
      r14 = r14;
      r15 = r15;
      rip = rip;
      rflags = rflags;
      cr0 = cr0;
      cr2 = cr2;
      cr3 = cr3;
      cr4 = cr4;
      fpu_sw = fpu_sw;
      fpu_cw = fpu_cw;
      fpu_tags = fpu_tags;
      fault_error_code = fault_error_code;
    };
    type = type;
    data_offset = data_offset;
  })

unfoldable pub set_type : ℕ → SyncPoint → SyncPoint
set_type type p =
    if not (bit_and type is_irq == 0)
    then record p { type = interrupt; interrupt_vector = bit_and type irq_mask }
    else record p { type = bit_and type irq_mask }
