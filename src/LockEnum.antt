-- ===== src/LockEnum.antt =====
-- `class LockEnum` of cic_eth/enum.py.
use cic_stack_v.Prelude.{ℕ}

abbrev pub sticky : ℕ
sticky = 1

abbrev pub init : ℕ
init = 2

abbrev pub create : ℕ
create = 4

abbrev pub send : ℕ
send = 8

abbrev pub queue : ℕ
queue = 16

abbrev pub query : ℕ
query = 32

abbrev pub start : ℕ
start = 0x80000000

abbrev pub all : ℕ
all = 0x7ffffffe
