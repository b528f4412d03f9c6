-- ===== src/Descriptor/AType.antt =====
-- PB_ATYPE_*: the allocation types (Pods/nanopb/pb.h).
use breakpoint.Base.{ℕ}

abbrev pub static : ℕ
static = 0x00

abbrev pub callback : ℕ
callback = 0x40

abbrev pub pointer : ℕ
pointer = 0x80
