-- ===== src/Syscall/Tests.antt =====
-- syscall.c on the memory of a small process.
use os_lab.Base.{◌+◌, ◌≤◌, ◌<◌, ◌≡◌, refl, ◌↔◌, none, some, arith, update, pos, neg_part}
use os_lab.Syscall.{Caller, fetchint, find_nul, fetchstr, argint, block_in, argptr, argstr}
use os_lab.Syscall.Arguments.{IsString, IsWord, argptr_iff, argstr_iff}

-- At 4 the pointer 8, at 8 the string "A", and 12 bytes in all.
abbrev caller_example : Caller
caller_example = record { sz = 12; esp = 0; mem = update (update (λ _. 0) 4 8) 8 65 }

string_found : argstr caller_example 0 ≡ some (8, 1)
unfolding argstr argint fetchint fetchstr find_nul
string_found = refl

block_too_long : argptr caller_example 0 (pos 5) ≡ none
unfolding argptr argint fetchint block_in
block_too_long = refl

argptr_iff_example :
    argptr caller_example 0 (pos 4) ≡ some 8
    ↔ IsWord caller_example 4 8 × (neg_part (pos 4) ≡ 0) × (8 < 12) × (8 + 4 ≤ 12)
argptr_iff_example = argptr_iff caller_example 0 (pos 4) 8 (omega arith) (omega arith)

argstr_iff_example :
    argstr caller_example 0 ≡ some (8, 1) ↔ IsWord caller_example 4 8 × IsString caller_example 8 1
argstr_iff_example = argstr_iff caller_example 0 8 1 (omega arith)
