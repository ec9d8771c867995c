-- ===== src/SyncPoint/Types.antt =====
-- The kinds of synchronisation points, `enum class sync_point_type` of include/sync_point.h, and
-- their names. A point's kind is cast from a byte of the file, so it is a number that need not have
-- a name.
pub mod Names
use rvnsyncpoint.Base.{ℕ, List, [], ◌∷◌, ◌==◌, if◌then◌else◌}
use Prim.Native.String.{String}

abbrev pub vmenter : ℕ
vmenter = 0xff

abbrev pub interrupt : ℕ
interrupt = 0xfe

abbrev pub vmx_exit_xcpt_or_nmi : ℕ
vmx_exit_xcpt_or_nmi = 0

abbrev pub vmx_exit_ext_int : ℕ
vmx_exit_ext_int = 1

abbrev pub vmx_exit_triple_fault : ℕ
vmx_exit_triple_fault = 2

abbrev pub vmx_exit_init_signal : ℕ
vmx_exit_init_signal = 3

abbrev pub vmx_exit_sipi : ℕ
vmx_exit_sipi = 4

abbrev pub vmx_exit_io_smi : ℕ
vmx_exit_io_smi = 5

abbrev pub vmx_exit_smi : ℕ
vmx_exit_smi = 6

abbrev pub vmx_exit_int_window : ℕ
vmx_exit_int_window = 7

abbrev pub vmx_exit_nmi_window : ℕ
vmx_exit_nmi_window = 8

abbrev pub vmx_exit_task_switch : ℕ
vmx_exit_task_switch = 9

abbrev pub vmx_exit_cpuid : ℕ
vmx_exit_cpuid = 10

abbrev pub vmx_exit_getsec : ℕ
vmx_exit_getsec = 11

abbrev pub vmx_exit_hlt : ℕ
vmx_exit_hlt = 12

abbrev pub vmx_exit_invd : ℕ
vmx_exit_invd = 13

abbrev pub vmx_exit_invlpg : ℕ
vmx_exit_invlpg = 14

abbrev pub vmx_exit_rdpmc : ℕ
vmx_exit_rdpmc = 15

abbrev pub vmx_exit_rdtsc : ℕ
vmx_exit_rdtsc = 16

abbrev pub vmx_exit_rsm : ℕ
vmx_exit_rsm = 17

abbrev pub vmx_exit_vmcall : ℕ
vmx_exit_vmcall = 18

abbrev pub vmx_exit_vmclear : ℕ
vmx_exit_vmclear = 19

abbrev pub vmx_exit_vmlaunch : ℕ
vmx_exit_vmlaunch = 20

abbrev pub vmx_exit_vmptrld : ℕ
vmx_exit_vmptrld = 21

abbrev pub vmx_exit_vmptrst : ℕ
vmx_exit_vmptrst = 22

abbrev pub vmx_exit_vmread : ℕ
vmx_exit_vmread = 23

abbrev pub vmx_exit_vmresume : ℕ
vmx_exit_vmresume = 24

abbrev pub vmx_exit_vmwrite : ℕ
vmx_exit_vmwrite = 25

abbrev pub vmx_exit_vmxoff : ℕ
vmx_exit_vmxoff = 26

abbrev pub vmx_exit_vmxon : ℕ
vmx_exit_vmxon = 27

abbrev pub vmx_exit_mov_crx : ℕ
vmx_exit_mov_crx = 28

abbrev pub vmx_exit_mov_drx : ℕ
vmx_exit_mov_drx = 29

abbrev pub vmx_exit_io_instr : ℕ
vmx_exit_io_instr = 30

abbrev pub vmx_exit_rdmsr : ℕ
vmx_exit_rdmsr = 31

abbrev pub vmx_exit_wrmsr : ℕ
vmx_exit_wrmsr = 32

abbrev pub vmx_exit_err_invalid_guest_state : ℕ
vmx_exit_err_invalid_guest_state = 33

abbrev pub vmx_exit_err_msr_load : ℕ
vmx_exit_err_msr_load = 34

abbrev pub vmx_exit_mwait : ℕ
vmx_exit_mwait = 36

abbrev pub vmx_exit_mtf : ℕ
vmx_exit_mtf = 37

abbrev pub vmx_exit_monitor : ℕ
vmx_exit_monitor = 39

abbrev pub vmx_exit_pause : ℕ
vmx_exit_pause = 40

abbrev pub vmx_exit_err_machine_check : ℕ
vmx_exit_err_machine_check = 41

abbrev pub vmx_exit_tpr_below_threshold : ℕ
vmx_exit_tpr_below_threshold = 43

abbrev pub vmx_exit_apic_access : ℕ
vmx_exit_apic_access = 44

abbrev pub vmx_exit_xdtr_access : ℕ
vmx_exit_xdtr_access = 46

abbrev pub vmx_exit_tr_access : ℕ
vmx_exit_tr_access = 47

abbrev pub vmx_exit_ept_violation : ℕ
vmx_exit_ept_violation = 48

abbrev pub vmx_exit_ept_misconfig : ℕ
vmx_exit_ept_misconfig = 49

abbrev pub vmx_exit_invept : ℕ
vmx_exit_invept = 50

abbrev pub vmx_exit_rdtscp : ℕ
vmx_exit_rdtscp = 51

abbrev pub vmx_exit_preempt_timer : ℕ
vmx_exit_preempt_timer = 52

abbrev pub vmx_exit_invvpid : ℕ
vmx_exit_invvpid = 53

abbrev pub vmx_exit_wbinvd : ℕ
vmx_exit_wbinvd = 54

abbrev pub vmx_exit_xsetbv : ℕ
vmx_exit_xsetbv = 55

abbrev pub vmx_exit_rdrand : ℕ
vmx_exit_rdrand = 57

abbrev pub vmx_exit_invpcid : ℕ
vmx_exit_invpcid = 58

abbrev pub vmx_exit_vmfunc : ℕ
vmx_exit_vmfunc = 59

-- The cases of the switch, in order.
abbrev pub type_names : List (ℕ × String)
type_names =
    (vmenter, "VMenter")
    ∷ (interrupt, "Interrupt")
    ∷ (vmx_exit_xcpt_or_nmi, "Exception or non-maskable interrupt (NMI)")
    ∷ (vmx_exit_ext_int, "External interrupt")
    ∷ (vmx_exit_triple_fault, "Triple fault")
    ∷ (vmx_exit_init_signal, "INIT signal")
    ∷ (vmx_exit_sipi, "Start-up IPI (SIPI)")
    ∷ (vmx_exit_io_smi, "I/O system-management interrupt (SMI)")
    ∷ (vmx_exit_smi, "Other SMI")
    ∷ (vmx_exit_int_window, "Interrupt window exiting")
    ∷ (vmx_exit_nmi_window, "NMI window exiting")
    ∷ (vmx_exit_task_switch, "Task switch")
    ∷ (vmx_exit_cpuid, "Guest software attempted to execute CPUID")
    ∷ (vmx_exit_getsec, "Guest software attempted to execute GETSEC")
    ∷ (vmx_exit_hlt, "Guest software attempted to execute HLT")
    ∷ (vmx_exit_invd, "Guest software attempted to execute INVD")
    ∷ (vmx_exit_invlpg, "Guest software attempted to execute INVLPG")
    ∷ (vmx_exit_rdpmc, "Guest software attempted to execute RDPMC")
    ∷ (vmx_exit_rdtsc, "Guest software attempted to execute RDTSC")
    ∷ (vmx_exit_rsm, "Guest software attempted to execute RSM in SMM")
    ∷ (vmx_exit_vmcall, "Guest software executed VMCALL")
    ∷ (vmx_exit_vmclear, "Guest software executed VMCLEAR")
    ∷ (vmx_exit_vmlaunch, "Guest software executed VMLAUNCH")
    ∷ (vmx_exit_vmptrld, "Guest software executed VMPTRLD")
    ∷ (vmx_exit_vmptrst, "Guest software executed VMPTRST")
    ∷ (vmx_exit_vmread, "Guest software executed VMREAD")
    ∷ (vmx_exit_vmresume, "Guest software executed VMRESUME")
    ∷ (vmx_exit_vmwrite, "Guest software executed VMWRITE")
    ∷ (vmx_exit_vmxoff, "Guest software executed VMXOFF")
    ∷ (vmx_exit_vmxon, "Guest software executed VMXON")
    ∷ (vmx_exit_mov_crx, "Control-register accesses")
    ∷ (vmx_exit_mov_drx, "Debug-register accesses")
    ∷ (vmx_exit_io_instr, "I/O instruction")
    ∷ (vmx_exit_rdmsr, "RDMSR")
    ∷ (vmx_exit_wrmsr, "WRMSR")
    ∷ (vmx_exit_err_invalid_guest_state, "VM-entry failure due to invalid guest state")
    ∷ (vmx_exit_err_msr_load, "VM-entry failure due to MSR loading")
    ∷ (vmx_exit_mwait, "Guest software executed MWAIT")
    ∷ (vmx_exit_mtf, "VM exit due to monitor trap flag")
    ∷ (vmx_exit_monitor, "Guest software attempted to execute MONITOR")
    ∷ (vmx_exit_pause, "Guest software attempted to execute PAUSE")
    ∷ (vmx_exit_err_machine_check, "VM-entry failure due to machine-check")
    ∷ (vmx_exit_tpr_below_threshold, "TPR below threshold. Guest software executed MOV to CR8")
    ∷ (vmx_exit_apic_access, "APIC access")
    ∷ (vmx_exit_xdtr_access, "Access to GDTR or IDTR")
    ∷ (vmx_exit_tr_access, "Access to LDTR or TR")
    ∷ (vmx_exit_ept_violation, "EPT violation")
    ∷ (vmx_exit_ept_misconfig, "EPT misconfiguration")
    ∷ (vmx_exit_invept, "INVEPT")
    ∷ (vmx_exit_rdtscp, "RDTSCP")
    ∷ (vmx_exit_preempt_timer, "VMX-preemption timer expired")
    ∷ (vmx_exit_invvpid, "INVVPID")
    ∷ (vmx_exit_wbinvd, "WBINVD")
    ∷ (vmx_exit_xsetbv, "XSETBV")
    ∷ (vmx_exit_rdrand, "RDRAND")
    ∷ (vmx_exit_invpcid, "INVPCID")
    ∷ (vmx_exit_vmfunc, "VMFUNC")
    ∷ []

-- The first case that fits, or what follows the switch.
abbrev pub type_name_in : List (ℕ × String) → ℕ → String
type_name_in [] code = "Unknown"
type_name_in ((value, name) ∷ rest) code = if code == value then name else type_name_in rest code

unfoldable pub sync_point_type_to_string : ℕ → String
sync_point_type_to_string = type_name_in type_names
