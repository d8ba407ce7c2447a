-- ===== src/MemInit/Fixtures.antt =====
-- A machine for the tests: two available areas, of which the boot stage has begun the first, and a
-- page table with no entry yet.
use sumi_os.Base.{ℕ, ◌<◌, ◌≡◌, some, refl, List, [], ◌∷◌, arith, ◌==◌, if◌then◌else◌, inr}
use sumi_os.Layout.{kernel_direct_mapping_area}
use sumi_os.PageTable.Tree.{IsTree}
use sumi_os.PageAlloc.{Zone}
use sumi_os.PageAlloc.Fixtures.{blank}
use sumi_os.Slub.{Slubs}
use sumi_os.Slub.Heap.{IsPlaced}
use sumi_os.MemInit.{
  Linear, MmapEntry, multiboot_memory_available, Tag, mmap, other, Init, add_areas,
}
use sumi_os.MemInit.Source.{HasPages}
use sumi_os.MemInit.Works.{Works}
use sumi_os.MemInit.Stocked.{started, IsMemory, IsFresh}

-- From the first megabyte up to 64 megabytes, of which the boot stage has used the first three.
abbrev pub available : MmapEntry
available = record { addr = 0x100000; len = 0x3f00000; kind = multiboot_memory_available }

abbrev pub reserved : MmapEntry
reserved = record { addr = 0x4000000; len = 0x20000; kind = 2 }

-- Four megabytes behind it.
abbrev pub upper : MmapEntry
upper = record { addr = 0x4020000; len = 0x400000; kind = multiboot_memory_available }

abbrev pub entries : List MmapEntry
entries = available ∷ reserved ∷ upper ∷ []

abbrev pub tags : List Tag
tags = other ∷ mmap entries ∷ []

abbrev pub unused : Linear
unused = record {
  mm_alloc_start = 0;
  mm_alloc_end = 0;
  phys_mm_area_arr = [];
  phys_mm_area_idx = 0;
}

abbrev pub empty : Zone
empty = record blank { word = λ a. 0 }

abbrev pub fresh_caches : Slubs
fresh_caches = record {
  zone = empty;
  cache = λ i. record { lock = 0; obj_size = 0; slub = 0; freelist = 0 };
  kmem_cache_list = 0xffff_ffff_8102_0000;
}

abbrev pub only_root : ℕ → ℕ
only_root t = if t == 0x200000 then 4 else 0

pub no_entries-IsTree : IsTree kernel_direct_mapping_area only_root empty.word
no_entries-IsTree = record {
  tables = λ t ne. (ground (arith, ne), ground (arith, ne));
  child = λ t i lt high used. absurd (used refl);
  sole = λ t i u j lt1 lt2 h1 h2 used. absurd (used refl);
}

pub entries-IsMemory : IsMemory 0x4000000 (available ∷ reserved ∷ []) [] upper
entries-IsMemory = record {
  low = (
    inr (omega arith),
    omega arith,
    (inr (omega arith), omega arith, (inr (omega arith), omega arith, tt)),
  );
  skips = (λ e. omega arith, (λ e. absurd (omega (arith, e)), tt));
  skips_after = tt;
  released = record { available = refl; behind = omega arith; fits = omega arith };
}

pub empty-IsFresh : IsFresh entries empty
empty-IsFresh = record {
  apart = record { behind = omega arith; fits = omega arith };
  none_free = λ a. inr refl;
}

pub fresh_caches-IsPlaced : IsPlaced fresh_caches
fresh_caches-IsPlaced = record {
  behind = omega arith;
  free_lists = omega arith;
  apart = inr (omega arith);
}

-- The area that the boot stage has begun has room for 15,000 pages.
abbrev pub collected : Linear
collected = record {
  mm_alloc_start = 0x400000;
  mm_alloc_end = 0x4000000;
  phys_mm_area_arr =
      record { start = 0x100000; end = 0x4000000 }
      ∷ record { start = 0x4020000; end = 0x4420000 }
      ∷ [];
  phys_mm_area_idx = 0;
}

pub add_areas-collected : add_areas 0x400000 entries unused ≡ some collected
unfolding add_areas
add_areas-collected = refl

pub entries-HasPages : (n : ℕ) → n < 15000 → HasPages 0x4000000 n collected only_root
entries-HasPages n low = record {
  some_start = λ e. omega (arith, e);
  whole = refl;
  fits = omega (arith, low);
  bound = omega arith;
  ends = refl;
  no_table = λ q le. ground (arith, le);
}

abbrev pub unused_state : Init
unused_state = record { linear = unused; zone = empty }

abbrev pub after_boot : Init
after_boot = started 0x200000 collected unused_state

pub entries-Works : (n : ℕ) → n < 15000 → Works 0x4000000 n only_root after_boot
entries-Works n low = record {
  tree = no_entries-IsTree;
  root = refl;
  pages = entries-HasPages n low;
}
