-- ===== src/Constants.antt =====
-- The sizes that src/include/{global,mem,msg,syn}.h fix at compile time.
use jiajia.Prelude.{ℕ}

-- global.h
abbrev pub max_hosts : ℕ
max_hosts = 16

abbrev pub max_locks : ℕ
max_locks = 64

abbrev pub int_bytes : ℕ
int_bytes = 4

-- `sizeof(unsigned char *)` on the 64-bit hosts that the code is written for
abbrev pub ptr_bytes : ℕ
ptr_bytes = 8

abbrev pub page_size : ℕ
page_size = 4096

abbrev pub cache_pages : ℕ
cache_pages = 1024

abbrev pub max_mem_size : ℕ
max_mem_size = 0x800000000

abbrev pub max_mem_pages : ℕ
max_mem_pages = 0x800000

-- mem.h
abbrev pub home_pages : ℕ
home_pages = 16384

abbrev pub diff_unit : ℕ
diff_unit = 4

-- msg.h
abbrev pub max_size : ℕ
max_size = 40960

abbrev pub max_msg_size : ℕ
max_msg_size = 40928

abbrev pub max_msg_bufs : ℕ
max_msg_bufs = 48

-- syn.h
abbrev pub max_wtnts : ℕ
max_wtnts = 511

abbrev pub max_stack_size : ℕ
max_stack_size = 8

abbrev pub max_cvs : ℕ
max_cvs = 16

-- the lock id that stands for the barrier
abbrev pub hidelock : ℕ
hidelock = 64
