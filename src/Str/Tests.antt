-- ===== src/Str/Tests.antt =====
-- The theorems about lib/string.c at concrete memories.
use sumi_os.Base.{◌-◌, ◌≡◌, inl, arith}
use sumi_os.Str.{Bytes, memcpy}
use sumi_os.Str.Laws.{memcpy_inside}

-- The byte at each address is the distance to 13, and 0 from there on.
abbrev falling : Bytes
falling a = 13 - a

-- The regions overlap.
memcpy_inside_example : memcpy 4 5 3 falling 6 ≡ 6
memcpy_inside_example = memcpy_inside 4 5 3 2 falling (inl (omega arith)) (omega arith)
