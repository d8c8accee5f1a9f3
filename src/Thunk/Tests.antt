-- ===== src/Thunk/Tests.antt =====
-- The thunks around a function that returns a constant, as HostGetApiVersion of host.c does, and
-- around functions that return their first argument doubled.
use templeos_loader.Prelude.{
  ℕ, ◌+◌, ◌*◌, ◌≤◌, ◌<◌, ◌≡◌, ◌≢◌, ◌==◌, inl, if◌then◌else◌, true, List, [], ◌∷◌, refl, arith,
}
use templeos_loader.Host.{host_get_api_version}
use templeos_loader.Thunk.{
  Machine, Instr, push, pop, call, retq, mov_from_stack, rax, rbx, rsi, rdi, r10, r11, set_at, step,
  run, thunk1,
}
use templeos_loader.Thunk.Guest.{
  HasArguments, vsyscall_saved, call_rax, guest_keeps, guest_vsyscall, guest_vsyscall-Returned,
}
use templeos_loader.Thunk.Export.{IsHolyC, ReturnedToC, make_export_thunk, export_thunk-ReturnedToC}
use templeos_loader.Thunk.Import.{import_saved, make_import_thunk, import_thunk-Returned}
use templeos_loader.Thunk.Saves.{In}
use templeos_loader.Thunk.Returns.{saved, IsSysV, Returned, thunk1-Returned}

abbrev returns_version : Machine → Machine
returns_version m = record m { reg = set_at rax host_get_api_version m.reg }

returns_version-IsSysV : IsSysV returns_version
unfolding In
returns_version-IsSysV = record {
  frame = record { rsp_kept = λ m low high. refl; mem_kept = λ m a low high from to. refl };
  registers = λ m r c. ground arith;
}

-- The guest's stack: the return address and one argument.
abbrev called : Machine
called = record {
  reg = λ r. 100 + r;
  rsp = 0x7000;
  mem = set_at 0x7000 0x1234 (set_at 0x7008 55 (λ a. 0));
  rip = 0x5000;
}

returned_there : (run returns_version thunk1 called).rip ≡ 0x1234
unfolding run step
returned_there = refl

thunk1-Returned_example :
    (entry : Machine) × (entry.reg rdi ≡ called.mem (called.rsp + 8))
    × Returned returns_version saved 8 entry called (run returns_version thunk1 called)
thunk1-Returned_example =
    thunk1-Returned returns_version called returns_version-IsSysV (omega arith) (omega arith)

-- `_VSYSCALL` with the dispatcher at 0x900.
abbrev dispatcher_set : Machine
dispatcher_set = record called { mem = set_at 0x400 0x900 called.mem }

abbrev doubles : Machine → Machine
doubles m = record m { reg = set_at rax (2 * m.reg rdi) m.reg }

abbrev code : ℕ → Machine → Machine
code p m = if p == 0x900 then doubles m else m

code-IsSysV : IsSysV (code 0x900)
unfolding In
code-IsSysV = record {
  frame = record { rsp_kept = λ m low high. refl; mem_kept = λ m a low high from to. refl };
  registers = λ m r c. ground arith;
}

doubled_there : (run (call_rax code) (guest_vsyscall 0x400) dispatcher_set).reg rax ≡ 110
unfolding run step
doubled_there = refl

guest_vsyscall-Returned_example :
    let m' = run (call_rax code) (guest_vsyscall 0x400) dispatcher_set in
    (entry : Machine) × HasArguments dispatcher_set entry
    × Returned (code 0x900) vsyscall_saved 40 entry dispatcher_set m'
    × ((r : ℕ) → r < 16 → r ≢ 4 → guest_keeps r ≡ true → m'.reg r ≡ dispatcher_set.reg r)
guest_vsyscall-Returned_example =
    guest_vsyscall-Returned code 0x400 dispatcher_set code-IsSysV (omega arith) (omega arith)
      (inl (omega arith))

-- A function of the guest that takes one argument.
abbrev guest_doubles : Machine → Machine
guest_doubles m = record m { rsp = m.rsp + 8; reg = set_at rax (2 * m.mem m.rsp) m.reg }

guest_doubles-IsHolyC : IsHolyC 1 guest_doubles
unfolding guest_keeps
guest_doubles-IsHolyC = record {
  rsp_popped = λ m high. refl;
  mem_kept = λ m a high from to. refl;
  registers = λ m r small ne k. ground arith;
}

abbrev export_one : List Instr
export_one = push rbx ∷ push rdi ∷ call ∷ pop rbx ∷ retq 0 ∷ []

export_thunk-ReturnedToC_example :
    (entry : Machine) × (1 ≤ 1 → entry.mem entry.rsp ≡ called.reg rdi)
    × (2 ≤ 1 → entry.mem (entry.rsp + 8) ≡ called.reg rsi)
    × ReturnedToC guest_doubles entry called (run guest_doubles export_one called)
unfolding make_export_thunk
export_thunk-ReturnedToC_example =
    export_thunk-ReturnedToC guest_doubles 1 export_one called guest_doubles-IsHolyC refl
      (omega arith) (omega arith)

-- The thunk for a function of C that takes one argument.
abbrev import_one : List Instr
import_one =
    push rdi
    ∷ push rsi
    ∷ push r10
    ∷ push r11
    ∷ mov_from_stack 40 rdi
    ∷ call
    ∷ pop r11
    ∷ pop r10
    ∷ pop rsi
    ∷ pop rdi
    ∷ retq 8
    ∷ []

import_thunk-Returned_example :
    (entry : Machine) × (1 ≤ 1 → entry.reg rdi ≡ called.mem (called.rsp + 8))
    × (2 ≤ 1 → entry.reg rsi ≡ called.mem (called.rsp + 16))
    × Returned returns_version import_saved 8 entry called (run returns_version import_one called)
unfolding make_import_thunk
import_thunk-Returned_example =
    import_thunk-Returned returns_version 1 import_one called returns_version-IsSysV refl
      (omega arith) (omega arith)
