-- ===== src/Lease/History.antt =====
-- internal/lease/lease.go: any sequence of calls of the allocator's methods, one at a time under its
-- mutex, with the clock and the outcomes of the writes that each of them meets.
use auto_pxe.Prelude.{ℕ, Option, some, List, [], ◌∷◌, Text, Returns, Returns-bind, ◌>>=◌}
use auto_pxe.Net.Ip.{Ip}
use auto_pxe.Storage.{Disk, Io}
use auto_pxe.Lease.{FileFormat, Allocator, Done}
use auto_pxe.Lease.Ops
use auto_pxe.Lease.Freeing
use auto_pxe.Lease.Invariant.{Inv}
use auto_pxe.Lease.Allocate.{allocate-Inv}
use auto_pxe.Lease.Removal.{KeepsInv, release-Inv, decline-Inv, clear_dynamic-Inv}

pub data Call : Type 0 where
  allocates : ℕ → Io → Text → Call
  releases : Io → Text → Ip → Call
  declines : ℕ → Io → Text → Ip → Call
  clears : Io → Call

unfoldable pub call : Call → Allocator → Disk FileFormat → Option Done
unfolding Ops.allocate Freeing.release Freeing.decline Freeing.clear_dynamic
call (allocates now io mac) a d = do r ← Ops.allocate now io mac a d; some r.0
call (releases io mac ip) a d = Freeing.release io mac ip a d
call (declines now io mac ip) a d = Freeing.decline now io mac ip a d
call (clears io) a d = some (Freeing.clear_dynamic io a d)

unfoldable pub history :
    List Call → Allocator → Disk FileFormat → Option (Allocator × Disk FileFormat)
unfolding call
history [] a d = some (a, d)
history (c ∷ cs) a d = do r ← call c a d; history cs r.state r.disk

call-Inv : (c : Call) (a : Allocator) (d : Disk FileFormat) → Inv a → KeepsInv (call c a d)
unfolding call
call-Inv (allocates now io mac) a d i =
    Returns-bind _ _ (Ops.allocate now io mac a d) (λ r. some r.0) (allocate-Inv now io mac a d i)
      (λ r h. h)
call-Inv (releases io mac ip) a d i = release-Inv a i d io mac ip
call-Inv (declines now io mac ip) a d i = decline-Inv now io mac ip a d i
call-Inv (clears io) a d i = clear_dynamic-Inv a i d io

-- From a state with the invariant no sequence of calls panics, whatever times and write errors they
-- meet, and the invariant holds at its end.
pub history-Inv :
    (cs : List Call) (a : Allocator) (d : Disk FileFormat)
    → Inv a
    → Returns (λ r. Inv r.0) (history cs a d)
unfolding history
history-Inv [] a d i = i
history-Inv (c ∷ cs) a d i =
    Returns-bind _ _ (call c a d) (λ r. history cs r.state r.disk) (call-Inv c a d i)
      (λ r h. history-Inv cs r.state r.disk h)
