-- ===== src/Slub/Fixtures.antt =====
-- The caches before their initialization, over one free block, for the tests.
use sumi_os.Base.{arith}
use sumi_os.PageAlloc.Blocks.{size, inside, cover, spans}
use sumi_os.PageAlloc.Fixtures.{one_free, one_block}
use sumi_os.PageAlloc.Array.{InArray}
use sumi_os.Slub.{Cache, Slubs}

abbrev no_cache : Cache
no_cache = record { lock = 0; obj_size = 0; slub = 0; freelist = 0 }

abbrev pub before : Slubs
before = record { zone = one_free; cache = λ i. no_cache; kmem_cache_list = 0xffff_ffff_8102_0000 }

-- The memory that the free block stands for lies at the bottom of the page array.
pub in_array : InArray one_block
unfolding cover spans inside size
in_array = record { from = λ a h. ground arith; upto = λ a h. ground arith }
