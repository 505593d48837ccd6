-- ===== src/Linux/CpuInfo/Blocks.antt =====
-- os/linux/linux_sigar.c: /proc/cpuinfo as the blocks of its processors.
use re_co_mon_b.Base.{
  ℕ, zero, suc, ◌%◌, ◌==◌, ◌<◌, ◌≤◌, ◌≡◌, refl, sym, ap, ◌∙◌, Bool, true, false, ◌||◌, not, List,
  [], ◌∷◌, ◌++◌, Bytes, arith, if◌then◌else◌, length, length-append, all_of, Bool-cases, inl, inr,
}
use re_co_mon_b.Linux.CpuInfo.{
  Info, Layout, System, read_line, is_processor, is_end, info_loop, get_cpu_info, is_folded,
  complete, thousandth, get_cpuinfo_max_freq, list_loop, cpu_info_list_get,
}
use re_co_mon_b.Linux.Run.{Run, done, fault, ◌>>=◌}
use re_co_mon_b.Libc.Number.{atoi32}
use re_co_mon_b.Ptql.Host.{Reply, got, failed}

bind_ext {ℓ κ} :
    {A : Type ℓ} {B : Type κ} (m : Run A) (f g : A → Run B)
    → ((a : A) → f a ≡ g a)
    → (m >>= f) ≡ (m >>= g)
bind_ext (done a) f g h = h a
bind_ext (fault e) f g h = refl

bind_assoc {ℓ κ μ} :
    {A : Type ℓ} {B : Type κ} {C : Type μ} (m : Run A) (f : A → Run B) (g : B → Run C)
    → ((m >>= f) >>= g) ≡ (m >>= λ a. f a >>= g)
bind_assoc (done a) f g = refl
bind_assoc (fault e) f g = refl

-- A line feed behind the lines of every processor.
abbrev pub lines_of : List (List Bytes) → List Bytes
lines_of [] = []
lines_of (b ∷ bs) = b ++ (10 ∷ []) ∷ lines_of bs

abbrev pub has_processor : List Bytes → Bool
has_processor [] = false
has_processor (ptr ∷ lines) = is_processor ptr || has_processor lines

-- Lines of which none is empty and one tells a processor.
abbrev pub AreBlocks : List (List Bytes) → Type 0
AreBlocks [] = Unit
AreBlocks (b ∷ bs) =
    (all_of (λ ptr. not (is_end ptr)) b ≡ true) × (has_processor b ≡ true) × AreBlocks bs

-- What the lines of a processor set, one after the other.
abbrev pub read_block : Layout → Info → List Bytes → Run Info
read_block lay info [] = done info
read_block lay info (ptr ∷ lines) = read_line lay info ptr >>= λ next. read_block lay next lines

info_loop-block :
    (lay : Layout) (found : Bool) (info : Info) (b rest : List Bytes)
    → all_of (λ ptr. not (is_end ptr)) b ≡ true
    → (found || has_processor b) ≡ true
    → info_loop lay found info (b ++ (10 ∷ []) ∷ rest)
      ≡ (read_block lay info b >>= λ i. done (true, i, rest))
unfolding info_loop is_end
info_loop-block lay found info [] rest e h =
    let yes : found ≡ true = ground (arith, h) in rw yes refl
info_loop-block lay found info (ptr ∷ b) rest e h =
    let inside : is_end ptr ≡ false = ground (arith, e) in
    let more : ((found || is_processor ptr) || has_processor b) ≡ true = ground (arith, h) in
    rw inside (
      bind_ext (read_line lay info ptr)
        (λ next. info_loop lay (found || is_processor ptr) next (b ++ (10 ∷ []) ∷ rest))
        (λ next. read_block lay next b >>= λ i. done (true, i, rest))
        (λ next.
          info_loop-block lay (found || is_processor ptr) next b rest (ground (arith, e)) more)
      ∙ sym (
          bind_assoc (read_line lay info ptr) (λ next. read_block lay next b)
            (λ i. done (true, i, rest))))

module _ (lay : Layout) (sys : System) where
  -- Whether the processor at a place is listed: with the roll-up, one of `lcpu`.
  abbrev pub is_listed : ℕ → Bool
  is_listed i = if sys.core_rollup then i % sys.lcpu == 0 else true

  -- The clock rate, which the file of the highest one tells better.
  abbrev pub clock_rate : ℕ → Reply Bytes → ℕ
  clock_rate mhz (failed status) = mhz
  clock_rate mhz (got khz) = thousandth (atoi32 khz)

  -- What the list has of a processor that was read.
  abbrev pub listed : ℕ → Info → Info
  listed number info = record {
    vendor = info.vendor;
    model = info.model;
    mhz = clock_rate info.mhz (sys.max_freq number);
    cache_size = info.cache_size;
    total_sockets = sys.sockets;
    total_cores = sys.ncpu;
    cores_per_socket = sys.lcpu;
  }

  -- The processors of the list: each is read of its own lines into the cell that is next, where
  -- what it does not set is left as it was, by the processors before it that are not listed too.
  abbrev pub entries : ℕ → ℕ → Info → List (List Bytes) → Run (List Info)
  entries i number cell [] = done []
  entries i number cell (b ∷ bs) =
      read_block lay (record cell { mhz = 0; cache_size = 0 }) b >>= λ info.
      if is_listed i
      then (entries (suc i) (suc number) (sys.cell (suc number)) bs >>= λ infos.
          done (listed number info ∷ infos))
      else entries (suc i) number info bs

  is_folded-is_listed : (i : ℕ) → is_folded sys i ≡ not (is_listed i)
  is_folded-is_listed i = elim (Bool-cases sys.core_rollup) [
    | inl rolled ↦ rw rolled refl
    | inr single ↦ rw single refl
  ]

  get_cpuinfo_max_freq-mhz :
      (info : Info) (r : Reply Bytes)
      → get_cpuinfo_max_freq info r ≡ record info { mhz = clock_rate info.mhz r }
  unfolding get_cpuinfo_max_freq
  get_cpuinfo_max_freq-mhz info (failed status) = refl
  get_cpuinfo_max_freq-mhz info (got khz) = refl

  complete-listed : (number : ℕ) (info : Info) → complete sys number info ≡ listed number info
  complete-listed number info =
      ap
        (λ (i : Info). record i {
          total_sockets = sys.sockets;
          total_cores = sys.ncpu;
          cores_per_socket = sys.lcpu;
        })
        (get_cpuinfo_max_freq-mhz info (sys.max_freq number))

  bind-done : (m : Run (List Info)) → (m >>= λ infos. done infos) ≡ m
  bind-done (done infos) = refl
  bind-done (fault e) = refl

  list_loop-blocks :
      (fuel i number : ℕ) (cell : Info) (bs : List (List Bytes))
      → length bs < fuel
      → AreBlocks bs
      → list_loop lay sys fuel i number cell (lines_of bs) ≡ entries i number cell bs
  unfolding list_loop get_cpu_info info_loop
  list_loop-blocks zero i number cell bs f h = absurd (omega (arith, f))
  list_loop-blocks (suc fuel) i number cell [] f h = refl
  list_loop-blocks (suc fuel) i number cell (b ∷ bs) f (inside, proc, blocks) =
      let start : Info = record cell { mhz = 0; cache_size = 0 } in
      let loop = list_loop lay sys fuel (suc i) in
      let next =
        λ (n : ℕ) (c : Info). list_loop-blocks fuel (suc i) n c bs (omega (arith, f)) blocks in
      rw (info_loop-block lay false start b (lines_of bs) inside proc) (
        bind_assoc (read_block lay start b) (λ info. done (true, info, lines_of bs)) _
        ∙ bind_ext (read_block lay start b) _ _ (λ info. elim (Bool-cases (is_listed i)) [
          | inl kept ↦
              rw
                (
                  is_folded-is_listed i,
                  kept,
                  next (suc number) (sys.cell (suc number)),
                  complete-listed number info,
                )
                refl
          | inr folded ↦
              rw (is_folded-is_listed i, folded, next number info)
                (bind-done (entries (suc i) number info bs))
        ]))

  length-lines_of : (bs : List (List Bytes)) → length bs ≤ length (lines_of bs)
  length-lines_of [] = omega arith
  length-lines_of (b ∷ bs) =
      omega (arith, length-append b ((10 ∷ []) ∷ lines_of bs), length-lines_of bs)

  -- The list that is made of the lines of processors, with a line feed behind each, has the
  -- processors in order, with the roll-up only every `lcpu`-th. Each is what its own lines set in a
  -- cell, in which the processors that were left out before it may have left what it does not set,
  -- but for the clock rate and the cache; the numbers of cores and sockets are the system's, and so
  -- is the clock rate where the file of the highest one can be read. The loop over the file ends,
  -- with the list or with the first fault that a line has.
  pub cpu_info_list_get-blocks :
      (bs : List (List Bytes))
      → AreBlocks bs
      → cpu_info_list_get lay sys (got (lines_of bs)) ≡ got (entries 0 0 (sys.cell 0) bs)
  unfolding cpu_info_list_get
  cpu_info_list_get-blocks bs h = ap got (
      list_loop-blocks (suc (length (lines_of bs))) 0 0 (sys.cell 0) bs
        (omega (arith, length-lines_of bs)) h)
