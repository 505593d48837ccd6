-- ===== src/Tests/Cpus.antt =====
-- The theorem on the list of processors at a concrete input.
use re_co_mon_b.Base.{◌-◌, ◌%◌, ◌≡◌, refl, true, List, [], ◌∷◌, Bytes, codes}
use re_co_mon_b.Linux.CpuInfo.Blocks.{lines_of, entries, cpu_info_list_get-blocks}
use re_co_mon_b.Linux.CpuInfo.{Info, Layout, System, is_end, is_processor, cpu_info_list_get}
use re_co_mon_b.Linux.Run.{done}
use re_co_mon_b.Ptql.Host.{got, failed}

-- The model stands behind the vendor, and the clock rate behind the model, its low byte first.
abbrev layout : Layout
layout = record {
  vendor_size = 128;
  model_size = 128;
  before_vendor = λ info. info;
  behind_vendor = λ info. record info { model = [] };
  before_model = λ info. info;
  behind_model = λ info. record info { mhz = info.mhz - info.mhz % 256 };
}

abbrev empty : Info
empty = record {
  vendor = [];
  model = [];
  mhz = 0;
  cache_size = 0;
  total_sockets = 0;
  total_cores = 0;
  cores_per_socket = 0;
}

abbrev two_of : System
two_of = record {
  core_rollup = true;
  lcpu = 2;
  ncpu = 4;
  sockets = 2;
  max_freq = λ n. failed 2;
  cell = λ n. empty;
}

abbrev block : List Bytes
block =
    codes "processor : 0\n"
    ∷ codes "vendor_id : GenuineIntel\n"
    ∷ codes "model name : Intel(R) Xeon(R) CPU\n"
    ∷ codes "cpu MHz : 2400.1\n"
    ∷ codes "cache size : 512 KB\n"
    ∷ []

abbrev blocks : List (List Bytes)
blocks = block ∷ block ∷ block ∷ []

abbrev xeon : Info
xeon = record {
  vendor = codes "Intel";
  model = codes "Xeon";
  mhz = 2400;
  cache_size = 512;
  total_sockets = 2;
  total_cores = 4;
  cores_per_socket = 2;
}

cpu_info_list_get-blocks_example :
    cpu_info_list_get layout two_of (got (lines_of blocks))
    ≡ got (entries layout two_of 0 0 empty blocks)
unfolding is_end is_processor
cpu_info_list_get-blocks_example =
    cpu_info_list_get-blocks layout two_of blocks (refl, refl, (refl, refl, (refl, refl, tt)))

-- Of three logical processors, the second is folded into the first.
cpu_info_list_get_test :
    cpu_info_list_get layout two_of (got (lines_of blocks)) ≡ got (done (xeon ∷ xeon ∷ []))
unfolding cpu_info_list_get
cpu_info_list_get_test = refl

-- A vendor behind the model erases the model.
cpu_info_order_test :
    cpu_info_list_get layout two_of (
      got (
        codes "processor : 0\n"
        ∷ codes "family : Itanium 2\n"
        ∷ codes "vendor : GenuineIntel\n"
        ∷ []))
    ≡ got (done ((record xeon { model = []; mhz = 0; cache_size = 0 }) ∷ []))
unfolding cpu_info_list_get
cpu_info_order_test = refl
