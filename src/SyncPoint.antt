-- ===== src/SyncPoint.antt =====
-- Synchronisation points, from include/sync_point.h and src/sync_point.cpp. A register is a number;
-- its width is that of the field that it is read from.
pub mod Types
pub mod Equality
pub mod Print
use rvnsyncpoint.Base.{ℕ, Bool, not, ◌&&◌, List, [], ◌==◌}
use Types.{vmenter, interrupt}

-- A block of dumped memory.
pub record SyncPointData : Type 0 where
  pub type : ℕ
  pub offset : ℕ
  pub bytes : List ℕ

abbrev pub data_end : ℕ
data_end = 0

abbrev pub memory_logical : ℕ
memory_logical = 1

abbrev pub memory_physical : ℕ
memory_physical = 2

-- The 32-bit point of the file versions below 3.
pub record SyncPointV2 : Type 0 where
  pub eax : ℕ
  pub ebx : ℕ
  pub ecx : ℕ
  pub edx : ℕ
  pub esi : ℕ
  pub edi : ℕ
  pub ebp : ℕ
  pub esp : ℕ
  pub eip : ℕ
  pub eflags : ℕ
  pub tsc : ℕ
  pub cr0 : ℕ
  pub cr2 : ℕ
  pub cr3 : ℕ
  pub cr4 : ℕ
  pub fpu_sw : ℕ
  pub fpu_cw : ℕ
  pub fpu_tags : ℕ
  pub cs : ℕ
  pub interrupt_vector : ℕ
  pub fault_error_code : ℕ
  pub type : ℕ

-- A point, as `sync_point_v3`; `blocks` is its `data`.
pub record SyncPoint : Type 0 where
  pub rax : ℕ
  pub rbx : ℕ
  pub rcx : ℕ
  pub rdx : ℕ
  pub rsi : ℕ
  pub rdi : ℕ
  pub rbp : ℕ
  pub rsp : ℕ
  pub r8 : ℕ
  pub r9 : ℕ
  pub r10 : ℕ
  pub r11 : ℕ
  pub r12 : ℕ
  pub r13 : ℕ
  pub r14 : ℕ
  pub r15 : ℕ
  pub rip : ℕ
  pub rflags : ℕ
  pub tsc : ℕ
  pub cr0 : ℕ
  pub cr2 : ℕ
  pub cr3 : ℕ
  pub cr4 : ℕ
  pub fpu_sw : ℕ
  pub fpu_cw : ℕ
  pub fpu_tags : ℕ
  pub cs : ℕ
  pub interrupt_vector : ℕ
  pub fault_error_code : ℕ
  pub type : ℕ
  pub blocks : List SyncPointData

-- The default constructor.
unfoldable pub sync_point : SyncPoint
sync_point = record {
  rax = 0;
  rbx = 0;
  rcx = 0;
  rdx = 0;
  rsi = 0;
  rdi = 0;
  rbp = 0;
  rsp = 0;
  r8 = 0;
  r9 = 0;
  r10 = 0;
  r11 = 0;
  r12 = 0;
  r13 = 0;
  r14 = 0;
  r15 = 0;
  rip = 0;
  rflags = 0;
  tsc = 0;
  cr0 = 0;
  cr2 = 0;
  cr3 = 0;
  cr4 = 0;
  fpu_sw = 0;
  fpu_cw = 0;
  fpu_tags = 0;
  cs = 0;
  interrupt_vector = 0;
  fault_error_code = 0;
  type = vmenter;
  blocks = [];
}

-- The constructor from a 32-bit point.
unfoldable pub from_v2 : SyncPointV2 → SyncPoint
from_v2 sp = record {
  rax = sp.eax;
  rbx = sp.ebx;
  rcx = sp.ecx;
  rdx = sp.edx;
  rsi = sp.esi;
  rdi = sp.edi;
  rbp = sp.ebp;
  rsp = sp.esp;
  r8 = 0;
  r9 = 0;
  r10 = 0;
  r11 = 0;
  r12 = 0;
  r13 = 0;
  r14 = 0;
  r15 = 0;
  rip = sp.eip;
  rflags = sp.eflags;
  tsc = sp.tsc;
  cr0 = sp.cr0;
  cr2 = sp.cr2;
  cr3 = sp.cr3;
  cr4 = sp.cr4;
  fpu_sw = sp.fpu_sw;
  fpu_cw = sp.fpu_cw;
  fpu_tags = sp.fpu_tags;
  cs = sp.cs;
  interrupt_vector = sp.interrupt_vector;
  fault_error_code = sp.fault_error_code;
  type = sp.type;
  blocks = [];
}

unfoldable pub is_interrupt : SyncPoint → Bool
is_interrupt p = p.type == interrupt

unfoldable pub is_vmenter : SyncPoint → Bool
is_vmenter p = p.type == vmenter

unfoldable pub is_vmexit : SyncPoint → Bool
unfolding is_interrupt is_vmenter
is_vmexit p = not (is_interrupt p) && not (is_vmenter p)

unfoldable pub valid : SyncPoint → Bool
valid p = not (p.tsc == 0)

-- `operator==`; it does not look at the floating point registers nor at the blocks.
unfoldable pub same_point : SyncPoint → SyncPoint → Bool
same_point lhs rhs =
    lhs.rax == rhs.rax
    && lhs.rbx == rhs.rbx
    && lhs.rcx == rhs.rcx
    && lhs.rdx == rhs.rdx
    && lhs.rsi == rhs.rsi
    && lhs.rdi == rhs.rdi
    && lhs.rbp == rhs.rbp
    && lhs.rsp == rhs.rsp
    && lhs.r8 == rhs.r8
    && lhs.r9 == rhs.r9
    && lhs.r10 == rhs.r10
    && lhs.r11 == rhs.r11
    && lhs.r12 == rhs.r12
    && lhs.r13 == rhs.r13
    && lhs.r14 == rhs.r14
    && lhs.r15 == rhs.r15
    && lhs.rip == rhs.rip
    && lhs.rflags == rhs.rflags
    && lhs.tsc == rhs.tsc
    && lhs.cr0 == rhs.cr0
    && lhs.cr2 == rhs.cr2
    && lhs.cr3 == rhs.cr3
    && lhs.cr4 == rhs.cr4
    && lhs.cs == rhs.cs
    && lhs.interrupt_vector == rhs.interrupt_vector
    && lhs.fault_error_code == rhs.fault_error_code
    && lhs.type == rhs.type

-- As `operator==`, without the time stamp, the vector, the error code and the kind.
unfoldable pub is_equivalent : SyncPoint → SyncPoint → Bool
is_equivalent p rhs =
    p.rax == rhs.rax
    && p.rbx == rhs.rbx
    && p.rcx == rhs.rcx
    && p.rdx == rhs.rdx
    && p.rsi == rhs.rsi
    && p.rdi == rhs.rdi
    && p.rbp == rhs.rbp
    && p.rsp == rhs.rsp
    && p.r8 == rhs.r8
    && p.r9 == rhs.r9
    && p.r10 == rhs.r10
    && p.r11 == rhs.r11
    && p.r12 == rhs.r12
    && p.r13 == rhs.r13
    && p.r14 == rhs.r14
    && p.r15 == rhs.r15
    && p.rip == rhs.rip
    && p.rflags == rhs.rflags
    && p.cr0 == rhs.cr0
    && p.cr2 == rhs.cr2
    && p.cr3 == rhs.cr3
    && p.cr4 == rhs.cr4
    && p.cs == rhs.cs
