-- ===== src/Ptql/Init/Port.antt =====
-- The protocols of `ptql_branch_init_port` in sigar_ptql.c.
use re_co_mon_b.Base.{◌≡◌, refl, codes}
use re_co_mon_b.Ptql.Host.{Host}
use re_co_mon_b.Ptql.Init.{BranchOf, branch_init_port}
use re_co_mon_b.Ptql.Types.{Op, ParseBranch}

module _ (h : Host) where
  by_op :
      (parsed : ParseBranch) (b : BranchOf h) (op : Op)
      → b.op_name ≡ op
      → branch_init_port h (record parsed { attr = codes "udp" }) b
        ≡ branch_init_port h (record parsed { attr = codes "tcp" }) b
  unfolding branch_init_port
  by_op parsed b Op.eq e = rw e refl
  by_op parsed b op e = rw e refl

  -- A query on a UDP port is made into the same branch, or refused with the same error, as the
  -- query on the TCP port of that number.
  branch_init_port-udp :
      (parsed : ParseBranch) (b : BranchOf h)
      → branch_init_port h (record parsed { attr = codes "udp" }) b
        ≡ branch_init_port h (record parsed { attr = codes "tcp" }) b
  branch_init_port-udp parsed b = by_op parsed b b.op_name refl
