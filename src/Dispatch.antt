-- ===== src/Dispatch.antt =====
-- `Ec::handle_syscall` (kern/src/ec.cc) and the table of handlers (kern/src/syscall.cc). The caller's
-- frame (user/include/syscall.h) is a number, a count and five words, which the handler's structure
-- (kern/include/syscall.h) gives names to.
pub mod Invariant
pub mod Calls
use nova_mckernel_lab.Base.{ℕ, List, ◌==◌, if◌then◌else◌, get_or}
use nova_mckernel_lab.Kernel.{Kernel, Handled, print, unknown_syscall}
use nova_mckernel_lab.Syscall.{
  Frame, mmap, dump, print_text, create_ec, yields, blocks, unblocks, create_pd, delegate_cap,
  ipc_send, ipc_recv, unknown, done, handle_mmap, handle_dump, handle_print, handle_create_ec,
  handle_yield, handle_block, handle_unblock, handle_create_pd, handle_delegate_cap,
}
use nova_mckernel_lab.Ipc.{handle_ipc_send, handle_ipc_recv}

-- `struct syscall_frame` of the caller. `num` is a byte.
pub record RawFrame : Type 0 where
  pub num : ℕ
  pub argc : ℕ
  pub argv : List ℕ

abbrev pub arg : RawFrame → ℕ → ℕ
arg f i = get_or f.argv i 0

-- The structure that a number's handler casts the frame to.
unfoldable pub decode : RawFrame → Frame
decode f =
    if f.num == 0
    then mmap (arg f 0) (arg f 1)
    else (if f.num == 1
        then dump
        else (if f.num == 2
            then print_text (arg f 0) (arg f 1)
            else (if f.num == 3
                then create_ec f.argc (arg f 0) (arg f 1) (arg f 2) (arg f 3) (arg f 4)
                else (if f.num == 4
                    then yields
                    else (if f.num == 5
                        then blocks f.argc (arg f 0)
                        else (if f.num == 6
                            then unblocks f.argc (arg f 0)
                            else (if f.num == 7
                                then create_pd
                                else (if f.num == 8
                                    then delegate_cap f.argc (arg f 0) (arg f 1) (arg f 2)
                                    else (if f.num == 9
                                        then ipc_send (arg f 0) (arg f 1)
                                        else (if f.num == 10
                                            then ipc_recv
                                            else unknown f.num))))))))))

-- `syscall_table[num]->handle (f)`, or the message for a number that has no handler.
unfoldable pub handle : Kernel → Frame → Handled
handle k (mmap n_pages virt_addr) = handle_mmap k n_pages virt_addr
handle k dump = handle_dump k
handle k (print_text fmt args) = handle_print k fmt args
handle k (create_ec argc eip esp priority capability target_pd) =
    handle_create_ec k argc eip esp priority capability target_pd
handle k yields = handle_yield k
handle k (blocks argc capability) = handle_block k argc capability
handle k (unblocks argc capability) = handle_unblock k argc capability
handle k create_pd = handle_create_pd k
handle k (delegate_cap argc child_idx src_slot dst_slot) =
    handle_delegate_cap k argc child_idx src_slot dst_slot
handle k (ipc_send target_cap value) = handle_ipc_send k target_cap value
handle k ipc_recv = handle_ipc_recv k
handle k (unknown num) = done (print (unknown_syscall num) k)

-- `Ec::handle_syscall`. Where the handler returns, `ret_user_sysexit` goes on with the current
-- context.
unfoldable pub handle_syscall : Kernel → RawFrame → Handled
unfolding decode handle
handle_syscall k f = handle k (decode f)
